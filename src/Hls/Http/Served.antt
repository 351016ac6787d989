-- ===== src/Hls/Http/Served.antt =====
-- What clients are answered: the segments of the ring under the paths of the playlist.
use ferricast.Base.{
  ℕ, ◌^◌, ◌<◌, ◌≤◌, ◌≡◌, refl, ap, ◌∙◌, List, [], true, false, arith, Bool-cases, inl, inr, length,
}
use ferricast.Base.Words.{u32_max, u64_max}
use ferricast.Text.{Bytes, codes, bytes_eq}
use ferricast.Text.Laws.{bytes_eq→≡}
use ferricast.M3u8.{Floats}
use ferricast.Hls.Ring.{SegmentRing, Call, run, new, get, get_part}
use ferricast.Hls.Ring.Log.{log, empty_log}
use ferricast.Hls.Ring.Lookup.{kept, get-run}
use ferricast.Hls.Http.{Request}
use ferricast.Hls.Http.Handler.{
  get_or_head, respond, get_route, segment_reply, part_reply, part_route, segment_route, split_path,
}
use ferricast.Hls.Http.Paths.{
  segment_path, part_path, parse_segment_seq-path, parse_part_seq_and_idx-path,
  segment_path-SegmentRoute, part_path-PartRoute,
}

not_options :
    (request : Request)
    → get_or_head request ≡ true
    → bytes_eq request.method (codes "OPTIONS") ≡ false
unfolding bytes_eq
not_options request h = elim (Bool-cases (bytes_eq request.method (codes "GET"))) [
  | inl e ↦ rw (bytes_eq→≡ request.method (codes "GET") e) refl
  | inr e ↦
      let head : bytes_eq request.method (codes "HEAD") ≡ true = ground arith in
      rw (bytes_eq→≡ request.method (codes "HEAD") head) refl
]

module _ {F : Type 0} (f : Floats F) (now : ℕ) (request : Request) where
  pub respond-get_route :
      (ring : SegmentRing F) (later : List (SegmentRing F)) (path : Bytes)
      → get_or_head request ≡ true
      → split_path request.path ≡ (path, [])
      → respond now request f ring later ≡ get_route now request f ring later path []
  unfolding respond
  respond-get_route ring later path fetch e = rw (not_options request fetch) (rw fetch (rw e refl))

  pub respond-segment :
      (ring : SegmentRing F) (later : List (SegmentRing F)) (seq : ℕ)
      → get_or_head request ≡ true
      → request.path ≡ segment_path seq
      → seq ≤ u64_max
      → respond now request f ring later ≡ segment_reply now request seq (get ring seq)
  unfolding get_route segment_route
  respond-segment ring later seq fetch e fits =
      let route = segment_path-SegmentRoute seq in
      respond-get_route ring later (segment_path seq) fetch (ap split_path e ∙ route.no_query)
      ∙ rw route.not_playlist
          (rw route.not_part (rw route.segment (rw (parse_segment_seq-path seq fits) refl)))

  -- After fewer than 2 ^ 32 calls on a new ring, a GET or HEAD of `/segment-<seq>.ts` is answered
  -- with the segment that was closed under that number while it is among the last `capacity`, and
  -- otherwise as a segment that is not there.
  pub respond-run :
      (capacity : ℕ) (cs : List (Call F)) (later : List (SegmentRing F)) (seq : ℕ)
      → get_or_head request ≡ true
      → request.path ≡ segment_path seq
      → seq ≤ u64_max
      → length cs < 2 ^ 32
      → respond now request f (run (new capacity) cs) later
        ≡ segment_reply now request seq (kept capacity (log empty_log cs) seq)
  respond-run capacity cs later seq fetch e fits short =
      respond-segment (run (new capacity) cs) later seq fetch e fits
      ∙ ap (segment_reply now request seq) (get-run capacity cs seq short)

  -- A GET or HEAD of `/part-<seq>.<idx>.ts` is answered with the part that the ring finds under
  -- these numbers.
  pub respond-part :
      (ring : SegmentRing F) (later : List (SegmentRing F)) (seq idx : ℕ)
      → get_or_head request ≡ true
      → request.path ≡ part_path seq idx
      → seq ≤ u64_max
      → idx ≤ u32_max
      → respond now request f ring later ≡ part_reply now request (get_part ring seq idx)
  unfolding get_route part_route
  respond-part ring later seq idx fetch e fits fits' =
      let route = part_path-PartRoute seq idx in
      respond-get_route ring later (part_path seq idx) fetch (ap split_path e ∙ route.no_query)
      ∙ rw route.not_playlist
          (rw route.part (rw (parse_part_seq_and_idx-path seq idx fits fits') refl))
