-- ===== src/Hls/Playlist/Entries.antt =====
-- The playlist of the ring names every segment of it.
use ferricast.Base.{
  ℕ, zero, suc, ◌-◌, ◌≡◌, refl, sym, ap, ◌∙◌, List, [], ◌∷◌, ◌++◌, append-nil, append_assoc, map,
  Option, none, some, Bool, false, not, ◌&&◌, leb, arith, All, Bool-cases, inl, inr, length,
  is_empty, subst,
}
use ferricast.Text.{Bytes, codes, show, strip_prefix}
use ferricast.Text.Laws.{Lacks, Lacks-append}
use ferricast.M3u8
use ferricast.M3u8.{Floats, M3u8Writer, Result, ok, err, ◌>>=◌}
use ferricast.M3u8.Reader.{PartLine, Readable, entries, literal, show-Lacks}
use ferricast.M3u8.Lines.{entry}
use ferricast.M3u8.RoundTrip.{entries-to_string}
use ferricast.Hls.Ring.{Part, Segment, SegmentRing}
use ferricast.Hls.Playlist.{
  segment_uri, part_uri, finished_part, pending_part, playlist_segment, target_of, opened,
  low_latency, attach_visible, add_segments, add_pending, build_playlist,
}
use ferricast.Hls.Playlist.Target.{FloatLaws, Sound, Allowed, target_of-Allowed}

segment_uri-Lacks : (seq : ℕ) → Lacks 10 (segment_uri seq)
unfolding segment_uri
segment_uri-Lacks seq =
    Lacks-append 10 (codes "segment-") _ (literal _ refl)
      (Lacks-append 10 (show seq) _ (show-Lacks seq) (literal _ refl))

part_uri-Lacks : (seq idx : ℕ) → Lacks 10 (part_uri seq idx)
unfolding part_uri
part_uri-Lacks seq idx = Lacks-append 10 (codes "part-") _ (literal _ refl) (
    Lacks-append 10 (show seq) _ (show-Lacks seq) (
      Lacks-append 10 (codes ".") (show idx ++ codes ".ts") (literal _ refl)
        (Lacks-append 10 (show idx) _ (show-Lacks idx) (literal _ refl))))

module _ {F : Type 0} where
  playlist_segment-Readable : (s : Segment F) → Readable F (playlist_segment s)
  unfolding playlist_segment M3u8.new_segment segment_uri strip_prefix
  playlist_segment-Readable s = record {
    uri_line = segment_uri-Lacks s.seq;
    uri_content = refl;
    uri_no_info = refl;
    date_line = λ d h. cc;
  }

  finished_parts-PartLine :
      (seq n : ℕ) (ps : List (Part F)) → All PartLine (map (finished_part seq n) ps)
  unfolding finished_part M3u8.new_part
  finished_parts-PartLine seq n [] = tt
  finished_parts-PartLine seq n (p ∷ ps) =
      (part_uri-Lacks seq p.idx, finished_parts-PartLine seq n ps)

  pending_parts-PartLine : (seq : ℕ) (ps : List (Part F)) → All PartLine (map (pending_part seq) ps)
  unfolding pending_part M3u8.new_part
  pending_parts-PartLine seq [] = tt
  pending_parts-PartLine seq (p ∷ ps) = (part_uri-Lacks seq p.idx, pending_parts-PartLine seq ps)

  set_parts-PartLine :
      (n : ℕ) (l : List (List (M3u8.Part F))) (ps : List (M3u8.Part F))
      → All (All PartLine) l
      → All PartLine ps
      → All (All PartLine) (M3u8.set_parts n l ps)
  unfolding M3u8.set_parts
  set_parts-PartLine zero l ps h k = (k, tt)
  set_parts-PartLine (suc n) [] ps h k = (tt, set_parts-PartLine n [] ps tt k)
  set_parts-PartLine (suc n) (p ∷ l) ps (h, hs) k = (h, set_parts-PartLine n l ps hs k)

  -- `w'` is the writer `w` with segments added to it.
  record Filled (w : M3u8Writer F) (added : List (M3u8.Segment F)) (w' : M3u8Writer F)
      : Type 0 where
    segments_eq : w'.segments ≡ w.segments ++ added
    same_target : w'.target_duration ≡ w.target_duration
    same_pending : w'.pending_parts ≡ w.pending_parts
    lines : All (All PartLine) w'.parts_by_segment

  attach_visible-Filled :
      (visible : Bool) (w : M3u8Writer F) (s : Segment F)
      → is_empty w.segments ≡ false
      → All (All PartLine) w.parts_by_segment
      → (w' : M3u8Writer F) × (attach_visible visible w s ≡ ok w') × Filled w [] w'
  unfolding attach_visible M3u8.attach_parts
  attach_visible-Filled visible w s some_segment h =
      elim (Bool-cases (visible && not (is_empty s.parts))) [
        | inr e ↦ rw e (
          w,
          refl,
          record {
            segments_eq = sym (append-nil w.segments);
            same_target = refl;
            same_pending = refl;
            lines = h;
          },
        )
        | inl e ↦ rw e (
            rw some_segment (
              _,
              refl,
              record {
                segments_eq = sym (append-nil w.segments);
                same_target = refl;
                same_pending = refl;
                lines =
                    set_parts-PartLine (length w.segments - 1) w.parts_by_segment _ h
                      (finished_parts-PartLine s.seq (length s.parts) s.parts);
              },
            ))
      ]

module _ {F : Type 0} (f : Floats F) where
  add_segment-Allowed :
      (w : M3u8Writer F) (s : Segment F)
      → Allowed F f w.target_duration s
      → M3u8.add_segment f w (playlist_segment s)
        ≡ ok (record w { segments = w.segments ++ playlist_segment s ∷ [] })
  unfolding M3u8.add_segment playlist_segment M3u8.new_segment
  add_segment-Allowed w s a =
      let fits = a.fits in rw a.finite (rw a.not_negative (ground (arith, fits)))

  not_empty : {A : Type 0} → (xs : List A) (x : A) → is_empty (xs ++ x ∷ []) ≡ false
  not_empty [] x = refl
  not_empty (y ∷ ys) x = refl

  add_segments-Filled :
      (ss : List (Segment F)) (w : M3u8Writer F) (i from : ℕ)
      → All (Allowed F f w.target_duration) ss
      → All (All PartLine) w.parts_by_segment
      → (w' : M3u8Writer F) × (add_segments f w i from ss ≡ ok w')
        × Filled w (map playlist_segment ss) w'
  unfolding add_segments
  add_segments-Filled [] w i from h k = (
    w,
    refl,
    record {
      segments_eq = sym (append-nil w.segments);
      same_target = refl;
      same_pending = refl;
      lines = k;
    },
  )
  add_segments-Filled (s ∷ ss) w i from (h, hs) k =
      let added = record w { segments = w.segments ++ playlist_segment s ∷ [] } in
      let (attached, attached_eq, a) =
        attach_visible-Filled (leb from i) added s (not_empty w.segments (playlist_segment s)) k in
      let allowed = subst (λ t. All (Allowed F f t) ss) (sym a.same_target) hs in
      let (w', w'_eq, b) = add_segments-Filled ss attached (suc i) from allowed a.lines in
      (
        w',
        rw (add_segment-Allowed w s h) (rw attached_eq w'_eq),
        record {
          segments_eq =
              b.segments_eq
              ∙ ap (λ l. l ++ map playlist_segment ss) (a.segments_eq ∙ append-nil added.segments)
              ∙ append_assoc w.segments (playlist_segment s ∷ []) (map playlist_segment ss);
          same_target = b.same_target ∙ a.same_target;
          same_pending = b.same_pending ∙ a.same_pending;
          lines = b.lines;
        },
      )

  -- A writer without segments that has the target duration.
  record Fresh (target : ℕ) (w : M3u8Writer F) : Type 0 where
    no_segments : w.segments ≡ []
    no_parts : w.parts_by_segment ≡ []
    no_pending : w.pending_parts ≡ []
    target_eq : w.target_duration ≡ target

  low_latency-Fresh :
      (target : ℕ) (w : M3u8Writer F) (d : Option F)
      → Fresh target w
      → Fresh target (low_latency f w d)
  unfolding M3u8.with_part_target
  low_latency-Fresh target w none h = h
  low_latency-Fresh target w (some pt) h = record {
    no_segments = h.no_segments;
    no_parts = h.no_parts;
    no_pending = h.no_pending;
    target_eq = h.target_eq;
  }

  opened-Fresh :
      (r : SegmentRing F) (least : ℕ) → Fresh (target_of f r.segments least) (opened f r least)
  unfolding opened M3u8.with_independent_segments M3u8.with_discontinuity_sequence
      M3u8.with_media_sequence M3u8.with_target_duration M3u8.live_writer M3u8.default_writer
      target_of
  opened-Fresh r least =
      low_latency-Fresh (target_of f r.segments least) _ r.part_target_secs
        (record { no_segments = refl; no_parts = refl; no_pending = refl; target_eq = omega arith })

  add_pending-PartLine :
      (r : SegmentRing F) (w : M3u8Writer F)
      → w.pending_parts ≡ []
      → All PartLine (add_pending r w).pending_parts
  unfolding add_pending M3u8.set_pending_parts
  add_pending-PartLine r w h = elim (Bool-cases (is_empty r.pending_parts)) [
    | inl e ↦ rw e (rw h tt)
    | inr e ↦ rw e (pending_parts-PartLine r.next_seq r.pending_parts)
  ]

  add_pending-same :
      (r : SegmentRing F) (w : M3u8Writer F)
      → ((add_pending r w).segments ≡ w.segments)
        × ((add_pending r w).parts_by_segment ≡ w.parts_by_segment)
  unfolding add_pending M3u8.set_pending_parts
  add_pending-same r w = elim (Bool-cases (is_empty r.pending_parts)) [
    | inl e ↦ rw e (refl, refl)
    | inr e ↦ rw e (refl, refl)
  ]

  segments-Readable : (ss : List (Segment F)) → All (Readable F) (map playlist_segment ss)
  segments-Readable [] = tt
  segments-Readable (s ∷ ss) = (playlist_segment-Readable s, segments-Readable ss)

  -- What the playlist says of a segment: its duration, and the URI with its number.
  abbrev pub named : Segment F → Bytes × Bytes
  named s = (f.show3 s.duration_secs ++ codes ",", segment_uri s.seq)

  named_entries : (ss : List (Segment F)) → map (entry f) (map playlist_segment ss) ≡ map named ss
  unfolding playlist_segment M3u8.new_segment
  named_entries [] = refl
  named_entries (s ∷ ss) = ap (λ l. named s ∷ l) (named_entries ss)

  -- The playlist is written, whatever the ring holds and whatever least target is asked for, and a
  -- player reads of it exactly the ring's segments, in order, each with its duration and the URI
  -- `segment-<seq>.ts`: where every segment's duration is finite, not negative and rounds to at
  -- most 255 seconds, and no printed number has a newline.
  pub build_playlist-entries :
      FloatLaws F f
      → ((x : F) → Lacks 10 (f.show3 x))
      → (r : SegmentRing F) (least : ℕ) → All (Sound F f) r.segments
      → (text : Bytes) × (build_playlist f r least ≡ ok text)
        × (entries text ≡ map named r.segments)
  unfolding build_playlist
  build_playlist-entries laws numeral r least sound =
      let w = opened f r least in
      let fresh = opened-Fresh r least in
      let allowed =
        subst (λ t. All (Allowed F f t) r.segments) (sym fresh.target_eq)
          (target_of-Allowed f laws r.segments least sound) in
      let (w', w'_eq, filled) =
        add_segments-Filled r.segments w 0 (length r.segments - 3) allowed
          (subst (All (All PartLine)) (sym fresh.no_parts) tt) in
      let (same_segments, same_parts) = add_pending-same r w' in
      let segments_eq : (add_pending r w').segments ≡ map playlist_segment r.segments =
        same_segments
        ∙ filled.segments_eq
        ∙ ap (λ l. l ++ map playlist_segment r.segments) fresh.no_segments in
      (
        M3u8.to_string f (add_pending r w'),
        rw w'_eq refl,
        entries-to_string f numeral (add_pending r w')
              (subst (All (Readable F)) (sym segments_eq) (segments-Readable r.segments))
              (subst (All (All PartLine)) (sym same_parts) filled.lines)
              (add_pending-PartLine r w' (filled.same_pending ∙ fresh.no_pending))
            ∙ ap (map (entry f)) segments_eq
            ∙ named_entries r.segments,
      )
