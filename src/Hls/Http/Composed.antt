-- ===== src/Hls/Http/Composed.antt =====
-- The playlist and the segments together: what a player does with the server of crates/hls.
use ferricast.Base.{
  ℕ, suc, ◌+◌, ◌-◌, ◌^◌, ◌<◌, ◌≤◌, ◌≡◌, refl, sym, ap, ◌∙◌, subst, List, [], ◌∷◌, map, none, some,
  true, false, if_eq, if_ne, arith, All, length, drop, take_all, length-append, length-drop,
}
use ferricast.Text.{Bytes, codes, bytes_eq, split_once}
use ferricast.Text.Laws.{Lacks}
use ferricast.M3u8.{Floats, ok}
use ferricast.M3u8.Reader.{entries}
use ferricast.Hls.Ring.{
  Segment, SegmentRing, Call, low_latency, part_flushed, pushed, completed, run, new, get,
  find_segment,
}
use ferricast.Hls.Ring.Log.{Log, log, log_step, empty_log}
use ferricast.Hls.Ring.Refine.{run-Represents}
use ferricast.Hls.Ring.Lookup.{Numbered, Numbered-drop, log-IsNumbered}
use ferricast.Hls.Playlist.{build_playlist}
use ferricast.Hls.Playlist.Target.{FloatLaws, Sound}
use ferricast.Hls.Playlist.Entries.{named, build_playlist-entries}
use ferricast.Hls.Http.{Request, resolve_range, parse_blocking_reload}
use ferricast.Hls.Http.Response.{write_ok}
use ferricast.Hls.Http.Handler.{
  answered, respond, get_route, segment_reply, is_playlist_path, split_path, playlist_reply,
  delivery, get_or_head,
}
use ferricast.Hls.Http.Paths.{segment_path}
use ferricast.Hls.Http.Served.{respond-segment, respond-get_route}

-- A plain GET that keeps the connection open.
abbrev pub fetch : Bytes → Request
fetch path = record { method = codes "GET"; path = path; connection_close = false; range = none }

pub fetch_gets : (path : Bytes) → get_or_head (fetch path) ≡ true
unfolding bytes_eq
fetch_gets path = refl

module _ {F : Type 0} where
  -- What is known of a segment of a ring that is numbered from `k` to below `n`.
  record Found (k n : ℕ) (l : List (Segment F)) (s : Segment F) : Type 0 where
    from : k ≤ s.seq
    below : s.seq < n
    found : find_segment s.seq l ≡ some s

  Found-cons :
      (k n : ℕ) (x : Segment F) (l xs : List (Segment F))
      → x.seq ≡ k
      → All (Found (suc k) n l) xs
      → All (Found k n (x ∷ l)) xs
  unfolding find_segment
  Found-cons k n x l [] e h = tt
  Found-cons k n x l (s ∷ ss) e (h, hs) = (
    record {
      from = omega (arith, h.from);
      below = h.below;
      found = if_ne x.seq s.seq _ _ (λ q. omega (arith, h.from, q)) ∙ h.found;
    },
    Found-cons k n x l ss e hs,
  )

  Numbered-Found : (k : ℕ) (l : List (Segment F)) → Numbered k l → All (Found k (k + length l) l) l
  unfolding find_segment
  Numbered-Found k [] h = tt
  Numbered-Found k (s ∷ ss) (h, hs) =
      let n_eq : suc k + length ss ≡ k + suc (length ss) = omega arith in
      (
        record { from = omega arith; below = omega arith; found = if_eq s.seq s.seq _ _ refl },
        Found-cons k (k + suc (length ss)) s ss ss h
            (subst (λ n. All (Found (suc k) n ss) ss) n_eq (Numbered-Found (suc k) ss hs)),
      )

  length-log_step : (l : Log F) (c : Call F) → length (log_step l c).closed ≤ suc (length l.closed)
  unfolding log_step
  length-log_step l (low_latency t) = omega arith
  length-log_step l (part_flushed d i bytes now) = omega arith
  length-log_step l (pushed d disc bytes now) = omega (arith, length-append l.closed)
  length-log_step l (completed d disc bytes now) = omega (arith, length-append l.closed)

  length-log :
      (l : Log F) (cs : List (Call F)) → length (log l cs).closed ≤ length l.closed + length cs
  unfolding log
  length-log l [] = omega arith
  length-log l (c ∷ cs) = omega (arith, length-log_step l c, length-log (log_step l c) cs)

  -- Every segment of the ring is found under its number, which is below the number of calls.
  InRing : ℕ → SegmentRing F → Segment F → Type 0
  InRing n r s = (s.seq < n) × (get r s.seq ≡ some s)

  Found→InRing :
      (k n m : ℕ) (r : SegmentRing F) (l xs : List (Segment F))
      → r.segments ≡ l
      → n ≤ m
      → All (Found k n l) xs
      → All (InRing m r) xs
  unfolding InRing get
  Found→InRing k n m r l [] e le h = tt
  Found→InRing k n m r l (s ∷ ss) e le (h, hs) = (
    (omega (arith, h.below), ap (find_segment s.seq) e ∙ h.found),
    Found→InRing k n m r l ss e le hs,
  )

  run-InRing :
      (capacity : ℕ) (cs : List (Call F))
      → length cs < 2 ^ 32
      → All (InRing (suc (length cs)) (run (new capacity) cs)) (run (new capacity) cs).segments
  run-InRing capacity cs short =
      let l = log empty_log cs in
      let r = run (new capacity) cs in
      let h = run-Represents capacity cs short in
      let k = length l.closed - capacity in
      let w = drop k l.closed in
      let numbered : Numbered (0 + k) w = Numbered-drop k 0 l.closed (log-IsNumbered cs).segments in
      subst (All (InRing (suc (length cs)) r)) (sym h.window) (
        Found→InRing (0 + k) (0 + k + length w) (suc (length cs)) r w w h.window
          (omega (arith, length-log empty_log cs, length-drop k l.closed))
          (Numbered-Found (0 + k) w numbered))

module _ {F : Type 0} (f : Floats F) (now : ℕ) where
  -- A plain GET of the segment's path sends the segment, whole and with status 200.
  abbrev pub Served : SegmentRing F → Segment F → Type 0
  Served ring s =
      respond now (fetch (segment_path s.seq)) f ring []
      ≡ answered 200 (write_ok now (codes "video/mp2t") s.bytes true true true true)
          (delivery (fetch (segment_path s.seq)) s.seq s.bytes)

  whole :
      (seq : ℕ) (s : Segment F)
      → segment_reply now (fetch (segment_path seq)) seq (some s)
        ≡ answered 200
            (write_ok now (codes "video/mp2t") s.bytes true true true true)
            (delivery (fetch (segment_path seq)) seq s.bytes)
  unfolding segment_reply resolve_range bytes_eq
  whole seq s =
      ap
        (λ b.
          answered 200 (write_ok now (codes "video/mp2t") b true true true true)
            (delivery (fetch (segment_path seq)) seq b))
        (take_all (length s.bytes - 0) s.bytes (omega arith))

  InRing→Served :
      (n : ℕ) (ring : SegmentRing F) (ss : List (Segment F))
      → n ≤ 2 ^ 32
      → All (InRing n ring) ss
      → All (Served ring) ss
  unfolding InRing
  InRing→Served n ring [] le h = tt
  InRing→Served n ring (s ∷ ss) le ((lt, found), hs) = (
    respond-segment f now (fetch (segment_path s.seq)) ring [] s.seq
          (fetch_gets (segment_path s.seq)) refl (omega arith)
        ∙ ap (segment_reply now (fetch (segment_path s.seq)) s.seq) found
        ∙ whole s.seq s,
    InRing→Served n ring ss le hs,
  )

  playlist_path : split_path (codes "/playlist.m3u8") ≡ (codes "/playlist.m3u8", [])
  unfolding split_path split_once
  playlist_path = refl

  playlist_route :
      (ring : SegmentRing F) (later : List (SegmentRing F)) (text : Bytes)
      → build_playlist f ring 4 ≡ ok text
      → respond now (fetch (codes "/playlist.m3u8")) f ring later
        ≡ answered 200
            (write_ok now (codes "application/vnd.apple.mpegurl") text true false false true)
            none
  unfolding get_route playlist_reply is_playlist_path bytes_eq parse_blocking_reload
  playlist_route ring later text e =
      respond-get_route f now (fetch (codes "/playlist.m3u8")) ring later (codes "/playlist.m3u8")
        refl playlist_path
      ∙ rw e refl

  -- After fewer than 2 ^ 32 calls of the segmenter on a new ring, where every segment in the ring
  -- has a sound duration and no printed number has a newline: a GET of `/playlist.m3u8` answers 200
  -- with a playlist, of which a player reads exactly the segments of the ring, in order; and a GET
  -- of any of the named paths, while the ring is the same, answers 200 with all of that segment's
  -- bytes.
  pub playlist-Served :
      FloatLaws F f
      → ((x : F) → Lacks 10 (f.show3 x))
      → (capacity : ℕ) (cs : List (Call F)) (later : List (SegmentRing F)) → length cs < 2 ^ 32
      → All (Sound F f) (run (new capacity) cs).segments
      → (text : Bytes) × (respond now
            (fetch (codes "/playlist.m3u8"))
            f
            (run (new capacity) cs)
            later
          ≡ answered 200
              (write_ok now (codes "application/vnd.apple.mpegurl") text true false false true)
              none)
        × (entries text ≡ map (named f) (run (new capacity) cs).segments)
        × All (Served (run (new capacity) cs)) (run (new capacity) cs).segments
  playlist-Served laws numeral capacity cs later short sound =
      let ring = run (new capacity) cs in
      let (text, built, read) = build_playlist-entries f laws numeral ring 4 sound in
      (
        text,
        playlist_route ring later text built,
        read,
        InRing→Served (suc (length cs)) ring ring.segments (omega arith)
            (run-InRing capacity cs short),
      )
