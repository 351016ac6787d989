-- ===== src/M3u8/Lines.antt =====
-- The lines that the writer of crates/m3u8/src/lib.rs prints, as the reader takes them: which it
-- passes over, and what stands behind `#EXTINF:`.
use ferricast.Base.{
  ℕ, ◌≡◌, refl, List, [], ◌∷◌, ◌++◌, append_assoc, map, Option, none, some, Bool, true, false, not,
  ◌&&◌, ltb, All, All-append,
}
use ferricast.Text.{Bytes, codes, show, is_some, strip_prefix}
use ferricast.Text.Laws.{Lacks, Lacks-append}
use ferricast.M3u8.{
  Floats, Segment, Part, M3u8Writer, when, when_some, is_vod, version_number, hold_back,
  part_hold_back, control_line, part_line, header_lines, segment_lines,
}
use ferricast.M3u8.Reader.{
  PartLine, Readable, Passed, literal, if_set-Lacks, when-Passed, show-Lacks,
}

module _ {F : Type 0} (f : Floats F) where
  abbrev pub entry : Segment F → Bytes × Bytes
  entry seg = (f.show3 seg.duration ++ codes ",", seg.uri)

  unfoldable pub extinf : F → Bytes
  extinf d = codes "#EXTINF:" ++ f.show3 d ++ codes ","

  pub extinf-info :
      (d : F) → strip_prefix (codes "#EXTINF:") (extinf d) ≡ some (f.show3 d ++ codes ",")
  unfolding extinf strip_prefix
  extinf-info d = refl

  unfoldable pub before : Segment F → List (Part F) → List Bytes
  before seg parts =
      when seg.discontinuity (codes "#EXT-X-DISCONTINUITY")
      ++ (when_some seg.program_date_time (λ pdt. codes "#EXT-X-PROGRAM-DATE-TIME:" ++ pdt)
          ++ map (part_line f) parts)

  pub segment_lines_eq :
      (seg : Segment F) (parts : List (Part F))
      → segment_lines f seg parts ≡ before seg parts ++ extinf seg.duration ∷ seg.uri ∷ []
  unfolding segment_lines before extinf
  segment_lines_eq seg parts = simp append_assoc

module _ {F : Type 0} (f : Floats F) (numeral : (x : F) → Lacks 10 (f.show3 x)) where
  shown : (p : Bytes) (x : F) → Lacks 10 p → Lacks 10 (p ++ f.show3 x)
  shown p x h = Lacks-append 10 p (f.show3 x) h (numeral x)

  hold_back-Lacks : (b : Bool) (d : Option F) → Lacks 10 (hold_back f b d)
  unfolding hold_back
  hold_back-Lacks b none = literal [] refl
  hold_back-Lacks false (some x) = shown (codes "," ++ codes "HOLD-BACK=") x (literal _ refl)
  hold_back-Lacks true (some x) = shown (codes "HOLD-BACK=") x (literal _ refl)

  part_hold_back-Lacks : (b : Bool) (d : Option F) → Lacks 10 (part_hold_back f b d)
  unfolding part_hold_back
  part_hold_back-Lacks b none = literal [] refl
  part_hold_back-Lacks false (some x) =
      shown (codes "," ++ codes "PART-HOLD-BACK=") x (literal _ refl)
  part_hold_back-Lacks true (some x) = shown (codes "PART-HOLD-BACK=") x (literal _ refl)

  control_line-Passed : (w : M3u8Writer F) → Passed (control_line f w)
  unfolding control_line strip_prefix
  control_line-Passed w = record {
    one_line =
        Lacks-append 10 _ _
          (Lacks-append 10 _ _
            (Lacks-append 10 (codes "#EXT-X-SERVER-CONTROL:") _ (literal _ refl)
              (if_set-Lacks w.can_block_reload (codes "CAN-BLOCK-RELOAD=YES") (literal _ refl)))
            (hold_back-Lacks (not w.can_block_reload) w.hold_back_secs))
          (part_hold_back-Lacks (not w.can_block_reload && not (is_some w.hold_back_secs))
            w.part_hold_back_secs);
    no_info = refl;
    no_content = refl;
  }

  target-Passed :
      (d : Option F)
      → All Passed (when_some d (λ pt. codes "#EXT-X-PART-INF:PART-TARGET=" ++ f.show3 pt))
  unfolding strip_prefix
  target-Passed none = tt
  target-Passed (some x) = (
    record {
      one_line = shown (codes "#EXT-X-PART-INF:PART-TARGET=") x (literal _ refl);
      no_info = refl;
      no_content = refl;
    },
    tt,
  )

  tagged : (p : Bytes) (n : ℕ) → Lacks 10 p → Lacks 10 (p ++ show n)
  tagged p n h = Lacks-append 10 p (show n) h (show-Lacks n)

  pub header_lines-Passed : (w : M3u8Writer F) → All Passed (header_lines f w)
  unfolding header_lines strip_prefix
  header_lines-Passed w = (
    record { one_line = literal _ refl; no_info = refl; no_content = refl },
    (
      record {
        one_line = tagged (codes "#EXT-X-VERSION:") (version_number w.version) (literal _ refl);
        no_info = refl;
        no_content = refl;
      },
      All-append Passed _ _
          (when-Passed w.independent_segments (codes "#EXT-X-INDEPENDENT-SEGMENTS")
            (record { one_line = literal _ refl; no_info = refl; no_content = refl }))
          (All-append Passed _ _
            (when-Passed (is_vod w.playlist_type) (codes "#EXT-X-PLAYLIST-TYPE:VOD")
              (record { one_line = literal _ refl; no_info = refl; no_content = refl }))
            (
              record {
                one_line =
                    tagged (codes "#EXT-X-TARGETDURATION:") w.target_duration (literal _ refl);
                no_info = refl;
                no_content = refl;
              },
              (
                record {
                  one_line =
                      tagged (codes "#EXT-X-MEDIA-SEQUENCE:") w.media_sequence (literal _ refl);
                  no_info = refl;
                  no_content = refl;
                },
                All-append Passed _ _
                    (when-Passed (ltb 0 w.discontinuity_sequence) _ (record {
                      one_line =
                          tagged (codes "#EXT-X-DISCONTINUITY-SEQUENCE:") w.discontinuity_sequence
                            (literal _ refl);
                      no_info = refl;
                      no_content = refl;
                    }))
                    (All-append Passed _ _ (target-Passed w.part_target_secs)
                      (when-Passed _ (control_line f w) (control_line-Passed w))),
              ),
            )),
    ),
  )

  pub part_line-Passed : (part : Part F) → PartLine part → Passed (part_line f part)
  unfolding part_line strip_prefix
  part_line-Passed part h = record {
    one_line =
        Lacks-append 10 _ _
          (Lacks-append 10 _ _
            (Lacks-append 10 _ _
              (Lacks-append 10 _ _
                (Lacks-append 10 _ _
                  (shown (codes "#EXT-X-PART:DURATION=") part.duration (literal _ refl))
                  (literal _ refl))
                h)
              (literal _ refl))
            (if_set-Lacks part.independent (codes ",INDEPENDENT=YES") (literal _ refl)))
          (if_set-Lacks part.last_of_segment (codes ",GAP=NO") (literal _ refl));
    no_info = refl;
    no_content = refl;
  }

  pub part_lines-Passed :
      (parts : List (Part F)) → All PartLine parts → All Passed (map (part_line f) parts)
  part_lines-Passed [] h = tt
  part_lines-Passed (p ∷ ps) (h, hs) = (part_line-Passed p h, part_lines-Passed ps hs)

  pub extinf-Lacks : (d : F) → Lacks 10 (extinf f d)
  unfolding extinf
  extinf-Lacks d =
      Lacks-append 10 _ _ (shown (codes "#EXTINF:") d (literal _ refl)) (literal _ refl)

  date-Passed :
      (d : Option Bytes)
      → ((x : Bytes) → d ≡ some x → Lacks 10 x)
      → All Passed (when_some d (λ pdt. codes "#EXT-X-PROGRAM-DATE-TIME:" ++ pdt))
  unfolding strip_prefix
  date-Passed none h = tt
  date-Passed (some x) h = (
    record {
      one_line = Lacks-append 10 (codes "#EXT-X-PROGRAM-DATE-TIME:") x (literal _ refl) (h x refl);
      no_info = refl;
      no_content = refl;
    },
    tt,
  )

  pub before-Passed :
      (seg : Segment F) (parts : List (Part F))
      → Readable F seg
      → All PartLine parts
      → All Passed (before f seg parts)
  unfolding before strip_prefix
  before-Passed seg parts r h =
      All-append Passed _ _
        (when-Passed seg.discontinuity (codes "#EXT-X-DISCONTINUITY")
          (record { one_line = literal _ refl; no_info = refl; no_content = refl }))
        (All-append Passed _ _ (date-Passed seg.program_date_time r.date_line)
          (part_lines-Passed parts h))
