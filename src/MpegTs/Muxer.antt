-- ===== src/MpegTs/Muxer.antt =====
-- The muxer's state and operations: `MpegTs` and its `Muxer` implementation.
pub mod Frames
pub mod Shape
mod Tests
use ferricast.Base.{
  ℕ, zero, suc, ◌+◌, ◌-◌, List, [], ◌∷◌, ◌++◌, Bool, true, false, not, ◌&&◌, ◌||◌, ltb, leb, ◌==◌,
  if◌then◌else◌, Option, none, some, max, is_empty,
}
use ferricast.Base.Words.{sat_add64}
use ferricast.Frame.{EncodedFrame}
use ferricast.MpegTs.{
  pid_pat, pid_pmt, pid_video, pid_audio, silent_aac_frame, aac_frame_ticks_90k,
  silent_inject_lag_90k, silent_inject_max_per_frame, audio_pts_tolerance_90k, pcr_pts_offset,
}
use ferricast.MpegTs.Psi.{write_psi_packet, build_pat_section, build_pmt_section}
use ferricast.MpegTs.Pes.{build_pes, build_audio_pes, build_access_unit}
use ferricast.MpegTs.Packet.{write_pes_to_ts}

pub record MpegTs : Type 0 where
  pub parameter_sets : List ℕ
  pub psi_emitted : Bool
  pub cc_pat : ℕ
  pub cc_pmt : ℕ
  pub cc_video : ℕ
  pub cc_audio : ℕ
  pub inject_silent_audio : Bool
  pub has_external_audio : Bool
  pub audio_pts_90k : Option ℕ
  pub out : List ℕ

-- `MpegTs::default()`
unfoldable pub default : MpegTs
default = record {
  parameter_sets = [];
  psi_emitted = false;
  cc_pat = 0;
  cc_pmt = 0;
  cc_video = 0;
  cc_audio = 0;
  inject_silent_audio = false;
  has_external_audio = false;
  audio_pts_90k = none;
  out = [];
}

-- `FerricastError::Encoder`, by what went wrong.
pub data MuxError : Type 0 where
  not_external_audio empty_parameter_sets : MuxError

pub data Result : Type 0 where
  ok : MpegTs → Result
  err : MuxError → Result

unfoldable pub with_silent_audio : MpegTs → Bool → MpegTs
with_silent_audio m inject = record m { inject_silent_audio = inject }

unfoldable pub with_external_audio : MpegTs → Bool → MpegTs
with_external_audio m enable = record m { has_external_audio = enable }

unfoldable pub audio_advertised : MpegTs → Bool
audio_advertised m = m.inject_silent_audio || m.has_external_audio

unfoldable pub config : MpegTs → List ℕ → Result
config m [] = err empty_parameter_sets
config m (b ∷ bs) = ok (record m { parameter_sets = b ∷ bs })

unfoldable pub emit_pat : MpegTs → MpegTs
emit_pat m =
    let (packet, cc) = write_psi_packet pid_pat m.cc_pat build_pat_section in
    record m { out = m.out ++ packet; cc_pat = cc }

unfoldable pub emit_pmt : MpegTs → MpegTs
emit_pmt m =
    let (packet, cc) = write_psi_packet pid_pmt m.cc_pmt (build_pmt_section (audio_advertised m)) in
    record m { out = m.out ++ packet; cc_pmt = cc }

-- The tables come before the first frame of a segment.
unfoldable pub ensure_psi : MpegTs → MpegTs
ensure_psi m = if m.psi_emitted then m else record (emit_pmt (emit_pat m)) { psi_emitted = true }

unfoldable pub write_audio : MpegTs → List ℕ → ℕ → MpegTs
write_audio m payload pts_90k =
    let (packets, cc) =
      write_pes_to_ts pid_audio m.cc_audio (build_audio_pes payload pts_90k) false none in
    record m { out = m.out ++ packets; cc_audio = cc }

abbrev pub is_stale : Option ℕ → ℕ → Bool
is_stale none pts_90k = false
is_stale (some watermark) pts_90k = ltb (sat_add64 pts_90k audio_pts_tolerance_90k) watermark

abbrev pub or_zero : Option ℕ → ℕ
or_zero none = 0
or_zero (some n) = n

unfoldable pub add_audio_frame : MpegTs → List ℕ → ℕ → Result
add_audio_frame m payload pts_90k =
    let advanced = sat_add64 pts_90k aac_frame_ticks_90k in
    let written = write_audio (ensure_psi m) payload pts_90k in
    let admitted = record written {
      audio_pts_90k = some (max advanced (or_zero m.audio_pts_90k));
    } in
    if not m.has_external_audio
    then err not_external_audio
    else if is_empty payload || is_stale m.audio_pts_90k pts_90k
    then ok m
    else ok admitted

-- The silent frames that bridge a gap: at most `rounds`, until `apts` reaches the threshold.
unfoldable pub inject_loop : ℕ → ℕ → MpegTs → ℕ → MpegTs × ℕ
inject_loop zero lag_threshold m apts = (m, apts)
inject_loop (suc rounds) lag_threshold m apts =
    let next =
      inject_loop rounds lag_threshold (write_audio m silent_aac_frame apts)
        (sat_add64 apts aac_frame_ticks_90k) in
    if ltb apts lag_threshold then next else (m, apts)

abbrev pub or_else : Option ℕ → ℕ → ℕ
or_else none d = d
or_else (some n) d = n

unfoldable pub inject_silence : MpegTs → ℕ → MpegTs
inject_silence m pts_90k =
    let lag_threshold = pts_90k - silent_inject_lag_90k in
    let start_apts = or_else m.audio_pts_90k lag_threshold in
    let (injected, apts) = inject_loop silent_inject_max_per_frame lag_threshold m start_apts in
    if not (audio_advertised m)
    then m
    else if ltb start_apts lag_threshold
    then record injected { audio_pts_90k = some apts }
    else record m { audio_pts_90k = some start_apts }

unfoldable pub write_video : MpegTs → EncodedFrame → ℕ → ℕ → MpegTs
write_video m frame pts_90k dts_90k =
    let au = build_access_unit m.parameter_sets frame.is_keyframe frame.bytes in
    let (packets, cc) =
      write_pes_to_ts pid_video m.cc_video (build_pes au pts_90k dts_90k) frame.is_keyframe
        (some (dts_90k - pcr_pts_offset)) in
    record m { out = m.out ++ packets; cc_video = cc }

-- A frame without data is skipped.
unfoldable pub add_frame : MpegTs → EncodedFrame → ℕ → ℕ → MpegTs
add_frame m frame pts_90k dts_90k =
    if is_empty frame.bytes
    then m
    else inject_silence (write_video (ensure_psi m) frame pts_90k dts_90k) pts_90k

unfoldable pub drain : MpegTs → List ℕ × MpegTs
drain m = (m.out, record m { out = [] })

-- The assertion that the output has been drained is the caller's.
unfoldable pub start_segment : MpegTs → MpegTs
start_segment m = record m { psi_emitted = false }
