-- ===== src/Hls/Segmenter/Tests.antt =====
-- The segmenter at concrete events: times in nanoseconds, durations in milliseconds.
use ferricast.Base.{ℕ, ◌/◌, ◌≡◌, List, [], ◌∷◌, none, some, Bool, true, false}
use ferricast.Frame.{EncodedFrame, AudioFrame, h264, aac}
use ferricast.Hls.Ring.{new}
use ferricast.Hls.Segmenter.{SegmenterConfig, SegEvent, video, audio, run_from_frames}
use ferricast.Hls.Segmenter.Step.{without_parts, with_parts}
use ferricast.Hls.Segmenter.Bodies.{plain_segments, run_from_frames-plain_segments}
use ferricast.Hls.Segmenter.Whole.{AllWhole, run_from_frames-AllWhole}

abbrev millis : ℕ → ℕ
millis ns = ns / 1000000

abbrev two_seconds : SegmenterConfig ℕ
two_seconds = record {
  segment_target = 2000000000;
  part_target = none;
  inject_silent_audio = false;
}

abbrev encoded : Bool → ℕ → EncodedFrame
encoded key at = record {
  codec = h264;
  bytes = 0 ∷ 0 ∷ 0 ∷ 1 ∷ 101 ∷ [];
  timestamp_us = at;
  is_keyframe = key;
  duration_us = none;
  pts_dts = (at, at);
}

abbrev sound : ℕ → AudioFrame
sound at = record {
  codec = aac;
  bytes = 255 ∷ 241 ∷ [];
  timestamp_us = at;
  sample_rate = 48000;
  channels = 2;
}

-- Two segments: the second key frame after the target ends the first.
abbrev events : List SegEvent
events =
    video (some (encoded false 0)) 0
    ∷ video (some (encoded true 1000)) 1000000
    ∷ audio (some (sound 1500)) 1600
    ∷ video (some (encoded false 700000)) 700000000
    ∷ video (some (encoded true 2100000)) 2100000000
    ∷ audio none 2100100
    ∷ video none 2200000000
    ∷ []

abbrev sets : List ℕ
sets = 0 ∷ 0 ∷ 0 ∷ 1 ∷ 103 ∷ []

run_from_frames-plain_segments_example :
    plain_segments millis two_seconds
      (500000000, 500)
      (run_from_frames millis (without_parts two_seconds) sets true (new 4) events)
    ≡ plain_segments millis two_seconds
        (500000000, 500)
        (run_from_frames millis (with_parts two_seconds (500000000, 500)) sets true (new 4) events)
run_from_frames-plain_segments_example =
    run_from_frames-plain_segments millis two_seconds (500000000, 500) sets true (new 4) events

run_from_frames-AllWhole_example :
    AllWhole millis two_seconds
      (500000000, 500)
      (run_from_frames millis (with_parts two_seconds (500000000, 500)) sets true (new 4) events)
run_from_frames-AllWhole_example =
    run_from_frames-AllWhole millis two_seconds (500000000, 500) sets true 4 events
