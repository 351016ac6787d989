-- ===== src/TsDemux/Tests.antt =====
-- A short stream, muxed and demuxed.
use ferricast.Base.{
  ℕ, ◌+◌, ◌%◌, ◌^◌, ◌≡◌, refl, List, [], ◌∷◌, ◌++◌, Bool, true, false, none, arith, take, replicate,
}
use ferricast.Frame.{EncodedFrame, h264}
use ferricast.MpegTs.Timestamp.{encode_ts}
use ferricast.MpegTs.Packet.{layout, ts_packet}
use ferricast.MpegTs.Muxer.{MpegTs, drain}
use ferricast.MpegTs.Muxer.Frames.{Timed, add_frames, IsFresh}
use ferricast.TsDemux.{new, flush}
use ferricast.TsDemux.Packets.{push, process_packet, dispatch}
use ferricast.TsDemux.Headers.{process_packet-ts_packet}
use ferricast.TsDemux.Clock.{read_ts, read_ts-encode_ts}
use ferricast.TsDemux.Feed.{Scanned, push-Scanned}
use ferricast.TsDemux.RoundTrip.{delivered, push-add_frames}

abbrev frame : List ℕ → Bool → EncodedFrame
frame bytes keyframe = record {
  codec = h264;
  bytes = bytes;
  timestamp_us = 0;
  is_keyframe = keyframe;
  duration_us = none;
  pts_dts = (0, 0);
}

-- A keyframe, a frame without data, and two more frames, one of them over three packets.
abbrev frames : List Timed
frames =
    (frame (0 ∷ 0 ∷ 1 ∷ 0x65 ∷ 7 ∷ []) true, 90_000, 90_000)
    ∷ (frame [] false, 93_000, 93_000)
    ∷ (frame (replicate 400 0x41) false, 96_000, 96_000)
    ∷ (frame (9 ∷ []) false, 2 ^ 33 + 900, 2 ^ 33 + 900)
    ∷ []

abbrev muxer : MpegTs
muxer = record {
  parameter_sets = 0 ∷ 0 ∷ 0 ∷ 1 ∷ 0x67 ∷ [];
  psi_emitted = false;
  cc_pat = 3;
  cc_pmt = 3;
  cc_video = 15;
  cc_audio = 0;
  inject_silent_audio = false;
  has_external_audio = false;
  audio_pts_90k = none;
  out = [];
}

muxer-IsFresh : IsFresh muxer
muxer-IsFresh = record { tables_due = refl; drained = refl; no_silence = refl; no_external = refl }

push-add_frames_example :
    (flush (push new (drain (add_frames muxer frames)).0)).out
    ≡ delivered (0 ∷ 0 ∷ 0 ∷ 1 ∷ 0x67 ∷ []) frames
push-add_frames_example = push-add_frames muxer frames muxer-IsFresh

process_packet-ts_packet_example :
    process_packet new (ts_packet 0x101 4 (replicate 200 7) true false none)
    ≡ dispatch new 0x101 (take 184 (replicate 200 7)) true
unfolding layout
process_packet-ts_packet_example =
    process_packet-ts_packet new 0x101 4 (replicate 200 7) true false none (omega arith)
      (omega arith)

read_ts-encode_ts_example : read_ts (encode_ts 0b0011 (2 ^ 33 + 900)) ≡ (2 ^ 33 + 900) % 2 ^ 33
read_ts-encode_ts_example = read_ts-encode_ts 0b0011 (2 ^ 33 + 900) (omega arith)

-- A stray byte, a packet, and a cut one.
abbrev chunk : List ℕ
chunk = 9 ∷ 0x47 ∷ 1 ∷ 1 ∷ 0x10 ∷ replicate 184 7 ++ 0x47 ∷ 1 ∷ []

push-Scanned_example : Scanned new chunk (push new chunk)
push-Scanned_example = push-Scanned new chunk
