-- ===== src/M3u8/RoundTrip.antt =====
-- What a player reads of a playlist that crates/m3u8/src/lib.rs wrote.
use ferricast.Base.{
  ◌≡◌, refl, sym, ap, ◌∙◌, List, [], ◌∷◌, ◌++◌, append-nil, append_assoc, map, All, subst,
  All-append,
}
use ferricast.Text.{Bytes, codes, strip_prefix}
use ferricast.Text.Laws.{Lacks}
use ferricast.M3u8.{
  Floats, PlaylistType, Segment, Part, M3u8Writer, when, is_vod, part_line, header_lines,
  segment_lines, all_segment_lines, playlist_lines, to_string,
}
use ferricast.M3u8.Reader.{
  PartLine, Readable, Passed, read_entries, entries, literal, nothing, one_lines, empty-Passed,
  when-Passed, split-text_of, read_entries-Passed,
}
use ferricast.M3u8.Lines.{
  entry, extinf, extinf-info, extinf-Lacks, before, segment_lines_eq, before-Passed,
  part_lines-Passed, header_lines-Passed,
}

module _ {F : Type 0} (f : Floats F) (numeral : (x : F) → Lacks 10 (f.show3 x)) where
  segment-Lacks :
      (seg : Segment F) (parts : List (Part F))
      → Readable F seg
      → All PartLine parts
      → All (Lacks 10) (segment_lines f seg parts)
  segment-Lacks seg parts r h = subst (All (Lacks 10)) (sym (segment_lines_eq f seg parts)) (
      All-append (Lacks 10) _ _ (one_lines _ (before-Passed f numeral seg parts r h))
        (extinf-Lacks f numeral seg.duration, (r.uri_line, tt)))

  -- One segment is read as its entry, whatever info was left over.
  read_entries-segment :
      (last : Bytes) (seg : Segment F) (parts : List (Part F)) (rest : List Bytes)
      → Readable F seg
      → All PartLine parts
      → read_entries last (segment_lines f seg parts ++ rest)
        ≡ entry f seg ∷ read_entries (f.show3 seg.duration ++ codes ",") rest
  unfolding read_entries
  read_entries-segment last seg parts rest r h =
      ap (λ l. read_entries last (l ++ rest)) (segment_lines_eq f seg parts)
      ∙ ap (read_entries last)
          (append_assoc (before f seg parts) (extinf f seg.duration ∷ seg.uri ∷ []) rest)
      ∙ read_entries-Passed last (before f seg parts) _ (before-Passed f numeral seg parts r h)
      ∙ rw (extinf-info f seg.duration) (rw r.uri_no_info (rw r.uri_content refl))

  read_entries-segments :
      (segs : List (Segment F)) (parts : List (List (Part F))) (last : Bytes) (rest : List Bytes)
      → All (Readable F) segs
      → All (All PartLine) parts
      → All Passed rest
      → read_entries last (all_segment_lines f segs parts ++ rest) ≡ map (entry f) segs
  unfolding all_segment_lines
  read_entries-segments [] parts last rest h k passed =
      ap (read_entries last) (sym (append-nil rest))
      ∙ read_entries-Passed last rest [] passed
      ∙ nothing last
  read_entries-segments (s ∷ ss) [] last rest (h, hs) k passed =
      ap (read_entries last) (append_assoc (segment_lines f s []) (all_segment_lines f ss []) rest)
      ∙ read_entries-segment last s [] _ h tt
      ∙ ap (λ r. entry f s ∷ r) (read_entries-segments ss [] _ rest hs tt passed)
  read_entries-segments (s ∷ ss) (p ∷ ps) last rest (h, hs) (k, ks) passed =
      ap (read_entries last) (append_assoc (segment_lines f s p) (all_segment_lines f ss ps) rest)
      ∙ read_entries-segment last s p _ h k
      ∙ ap (λ r. entry f s ∷ r) (read_entries-segments ss ps _ rest hs ks passed)

  segments-Lacks :
      (segs : List (Segment F)) (parts : List (List (Part F)))
      → All (Readable F) segs
      → All (All PartLine) parts
      → All (Lacks 10) (all_segment_lines f segs parts)
  unfolding all_segment_lines
  segments-Lacks [] parts h k = tt
  segments-Lacks (s ∷ ss) [] (h, hs) k =
      All-append (Lacks 10) _ _ (segment-Lacks s [] h tt) (segments-Lacks ss [] hs tt)
  segments-Lacks (s ∷ ss) (p ∷ ps) (h, hs) (k, ks) =
      All-append (Lacks 10) _ _ (segment-Lacks s p h k) (segments-Lacks ss ps hs ks)

  ended : (t : PlaylistType) → All Passed (when (is_vod t) (codes "#EXT-X-ENDLIST"))
  unfolding strip_prefix
  ended t =
      when-Passed (is_vod t) (codes "#EXT-X-ENDLIST")
        (record { one_line = literal _ refl; no_info = refl; no_content = refl })

  -- The lines behind the segments, with the empty rest of the last newline.
  tail-Passed :
      (w : M3u8Writer F)
      → All PartLine w.pending_parts
      → All Passed (
          map (part_line f) w.pending_parts
          ++ when (is_vod w.playlist_type) (codes "#EXT-X-ENDLIST"))
  tail-Passed w h =
      All-append Passed _ _ (part_lines-Passed f numeral w.pending_parts h) (ended w.playlist_type)

  playlist_lines-Lacks :
      (w : M3u8Writer F)
      → All (Readable F) w.segments
      → All (All PartLine) w.parts_by_segment
      → All PartLine w.pending_parts
      → All (Lacks 10) (playlist_lines f w)
  unfolding playlist_lines
  playlist_lines-Lacks w h k p =
      All-append (Lacks 10) _ _ (one_lines _ (header_lines-Passed f numeral w)) (
        All-append (Lacks 10) _ _ (segments-Lacks w.segments w.parts_by_segment h k)
          (one_lines _ (tail-Passed w p)))

  -- Of the text of a playlist a player reads exactly the playlist's segments, in order, each with
  -- its duration and its URI: where no number, URI or date has a newline in it, and every URI reads
  -- as one (not empty, no leading `#`).
  pub entries-to_string :
      (w : M3u8Writer F)
      → All (Readable F) w.segments
      → All (All PartLine) w.parts_by_segment
      → All PartLine w.pending_parts
      → entries (to_string f w) ≡ map (entry f) w.segments
  unfolding entries to_string playlist_lines
  entries-to_string w h k p =
      let segs = all_segment_lines f w.segments w.parts_by_segment in
      let tail =
        map (part_line f) w.pending_parts
        ++ when (is_vod w.playlist_type) (codes "#EXT-X-ENDLIST") in
      ap (read_entries []) (
        split-text_of (playlist_lines f w) (playlist_lines-Lacks w h k p)
        ∙ append_assoc (header_lines f w) (segs ++ tail) ([] ∷ [])
        ∙ ap (λ l. header_lines f w ++ l) (append_assoc segs tail ([] ∷ [])))
      ∙ read_entries-Passed [] (header_lines f w) _ (header_lines-Passed f numeral w)
      ∙ read_entries-segments w.segments w.parts_by_segment [] (tail ++ [] ∷ []) h k
          (All-append Passed tail ([] ∷ []) (tail-Passed w p) (empty-Passed, tt))
