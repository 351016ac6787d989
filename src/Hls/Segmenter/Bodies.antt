-- ===== src/Hls/Segmenter/Bodies.antt =====
-- What `run_from_frames` puts into the ring, with parts and without.
use ferricast.Base.{ℕ, ◌≡◌, refl, sym, ap, List, [], ◌∷◌, map, Option, none, some, Bool}
use ferricast.MpegTs.Muxer.{config}
use ferricast.Hls.Ring.{Segment, SegmentRing, enable_low_latency}
use ferricast.Hls.Segmenter.{SegmenterConfig, SegEvent, Segmenter, start, run_from_frames}
use ferricast.Hls.Segmenter.Modes.{plain}
use ferricast.Hls.Segmenter.Step.{without_parts, with_parts, run-Same}

module _ {F : Type 0} (secs : ℕ → F) (cfg : SegmenterConfig F) (pt : ℕ × F) where
  -- The segments in the ring at the end, without their parts.
  abbrev pub plain_segments : Option (Segmenter F) → Option (List (Segment F))
  plain_segments none = none
  plain_segments (some s) = some (map plain s.ring.segments)

  -- Whether parts are published or not, the same events leave the same segments in the ring: the
  -- same numbers, times, durations and bytes, for every configuration, ring and sequence of events.
  pub run_from_frames-plain_segments :
      (parameter_sets : List ℕ) (external_audio : Bool) (ring : SegmentRing F) (es : List SegEvent)
      → plain_segments
          (run_from_frames secs (without_parts cfg) parameter_sets external_audio ring es)
        ≡ plain_segments
            (run_from_frames secs (with_parts cfg pt) parameter_sets external_audio ring es)
  unfolding run_from_frames start config enable_low_latency
  run_from_frames-plain_segments [] external_audio ring es = refl
  run_from_frames-plain_segments (b ∷ bs) external_audio ring es = ap some (
      sym
        (run-Same secs cfg pt _ _ es (record {
          rings = record {
            capacity_eq = refl;
            segments_eq = refl;
            next_eq = refl;
            discontinuity_eq = refl;
          };
          anchor_eq = refl;
          phases = refl;
        })).rings.segments_eq)
