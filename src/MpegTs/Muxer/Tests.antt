-- ===== src/MpegTs/Muxer/Tests.antt =====
-- The muxer at concrete values.
use ferricast.Base.{List, [], ◌∷◌, true, none, some, arith, replicate}
use ferricast.Frame.{EncodedFrame, h264}
use ferricast.MpegTs.{silent_aac_frame, pid_video}
use ferricast.MpegTs.Packet.{write_pes_to_ts}
use ferricast.MpegTs.Packet.Sizes.{Written, write_pes_to_ts-Written}
use ferricast.MpegTs.Muxer.{default}
use ferricast.MpegTs.Muxer.Shape.{
  IsValid, Call, configures, video_frame, audio_frame, drains, starts_segment, run, run-IsValid,
  default-IsValid,
}

abbrev keyframe : EncodedFrame
keyframe = record {
  codec = h264;
  bytes = replicate 300 0x65;
  timestamp_us = 0;
  is_keyframe = true;
  duration_us = none;
  pts_dts = (0, 0);
}

abbrev calls : List Call
calls =
    configures (1 ∷ 2 ∷ [])
    ∷ video_frame keyframe 90_000 90_000
    ∷ audio_frame silent_aac_frame 91_000
    ∷ drains
    ∷ starts_segment
    ∷ video_frame keyframe 93_000 93_000
    ∷ []

run-IsValid_example : IsValid (run default calls)
run-IsValid_example = run-IsValid default calls default-IsValid

write_pes_to_ts-Written_example :
    Written 15 (write_pes_to_ts pid_video 15 (replicate 500 1) true (some 7))
write_pes_to_ts-Written_example =
    write_pes_to_ts-Written pid_video 15 (replicate 500 1) true (some 7) (omega arith)
