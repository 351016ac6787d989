-- ===== src/Hls/Playlist.antt =====
-- crates/hls/src/ring.rs: `SegmentRing::build_playlist`, the live playlist of the ring's contents,
-- over the writer of crates/m3u8. A `u8` is a number; `observed_ceil` is at most 255.
pub mod Target
pub mod Entries
pub mod Tests
use ferricast.Base.{
  ℕ, zero, suc, ◌+◌, ◌-◌, ◌≡◌, List, [], ◌∷◌, ◌++◌, map, Option, none, some, Bool, true, false, not,
  ◌&&◌, leb, ◌==◌, if◌then◌else◌, max, min, length, is_empty,
}
use ferricast.Text.{Bytes, codes, show, is_some}
use ferricast.M3u8
use ferricast.M3u8.{Floats, M3u8Writer, M3u8Version, v3, v6, Result, ok, err, ◌>>=◌}
use ferricast.Hls.Ring.{Part, Segment, SegmentRing}

unfoldable pub segment_uri : ℕ → Bytes
segment_uri seq = codes "segment-" ++ (show seq ++ codes ".ts")

unfoldable pub part_uri : ℕ → ℕ → Bytes
part_uri seq idx = codes "part-" ++ (show seq ++ 46 ∷ (show idx ++ codes ".ts"))

module _ {F : Type 0} where
  -- A part of a finished segment that has `count` parts.
  unfoldable pub finished_part : ℕ → ℕ → Part F → M3u8.Part F
  finished_part seq count p = record (M3u8.new_part p.duration_secs (part_uri seq p.idx)) {
    independent = p.independent;
    last_of_segment = p.idx + 1 == count;
  }

  unfoldable pub pending_part : ℕ → Part F → M3u8.Part F
  pending_part seq p = record (M3u8.new_part p.duration_secs (part_uri seq p.idx)) {
    independent = p.independent;
  }

  unfoldable pub playlist_segment : Segment F → M3u8.Segment F
  playlist_segment s = record (M3u8.new_segment s.duration_secs (segment_uri s.seq)) {
    discontinuity = s.discontinuity;
  }

  abbrev first_seq : List (Segment F) → ℕ
  first_seq [] = 0
  first_seq (s ∷ ss) = s.seq

  abbrev playlist_version : Option F → M3u8Version
  playlist_version none = v3
  playlist_version (some pt) = v6

  unfoldable pub attach_visible : Bool → M3u8Writer F → Segment F → Result (M3u8Writer F)
  attach_visible visible w s =
      if visible && not (is_empty s.parts)
      then M3u8.attach_parts w (map (finished_part s.seq (length s.parts)) s.parts)
      else ok w

  unfoldable pub add_pending : SegmentRing F → M3u8Writer F → M3u8Writer F
  add_pending r w =
      if is_empty r.pending_parts
      then w
      else M3u8.set_pending_parts w (map (pending_part r.next_seq) r.pending_parts)

module _ {F : Type 0} (f : Floats F) where
  -- `filter(|d| d.is_finite() && *d > 0.0).fold(0.0, f32::max)`, from an accumulator.
  unfoldable pub fold_max : F → List (Segment F) → F
  fold_max acc [] = acc
  fold_max acc (s ∷ ss) =
      fold_max
        (if f.is_finite s.duration_secs && f.is_positive s.duration_secs
          then f.max_f acc s.duration_secs
          else acc)
        ss

  unfoldable pub observed_ceil : List (Segment F) → ℕ
  observed_ceil segments =
      let observed_max = fold_max f.zero_f segments in
      if f.is_positive observed_max then min (f.ceiled observed_max) 255 else 0

  unfoldable pub target_of : List (Segment F) → ℕ → ℕ
  target_of segments min_target_duration = max (max min_target_duration (observed_ceil segments)) 1

  abbrev pub low_latency : M3u8Writer F → Option F → M3u8Writer F
  low_latency w none = w
  low_latency w (some pt) = M3u8.with_part_target f w pt

  unfoldable pub opened : SegmentRing F → ℕ → M3u8Writer F
  opened r min_target_duration =
      low_latency
        (M3u8.with_independent_segments
          (M3u8.with_discontinuity_sequence
            (M3u8.with_media_sequence
              (M3u8.with_target_duration (M3u8.live_writer (playlist_version r.part_target_secs))
                (target_of r.segments min_target_duration))
              (first_seq r.segments))
            r.discontinuity_seq)
          true)
        r.part_target_secs

  -- The loop over the segments, from number `i` on.
  unfoldable pub add_segments : M3u8Writer F → ℕ → ℕ → List (Segment F) → Result (M3u8Writer F)
  add_segments w i parts_visible_from [] = ok w
  add_segments w i parts_visible_from (s ∷ ss) = do
    added ← M3u8.add_segment f w (playlist_segment s)
    attached ← attach_visible (leb parts_visible_from i) added s
    add_segments attached (suc i) parts_visible_from ss

  unfoldable pub build_playlist : SegmentRing F → ℕ → Result Bytes
  build_playlist r min_target_duration = do
    w ← add_segments (opened r min_target_duration) 0 (length r.segments - 3) r.segments
    ok (M3u8.to_string f (add_pending r w))
