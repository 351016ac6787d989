-- ===== src/MpegTs.antt =====
-- crates/muxer/src/mpeg_ts.rs: the MPEG-TS muxer. This file holds its constants; the children
-- hold its functions, in the order of the source.
pub mod Psi
pub mod Timestamp
pub mod Pes
pub mod Packet
pub mod Muxer
use ferricast.Base.{ℕ, List, [], ◌∷◌}

abbrev pub ts_packet_size : ℕ
ts_packet_size = 188

abbrev pub sync_byte : ℕ
sync_byte = 0x47

abbrev pub pid_pat : ℕ
pid_pat = 0x0000

abbrev pub pid_pmt : ℕ
pid_pmt = 0x1000

abbrev pub pid_video : ℕ
pid_video = 0x0100

abbrev pub pid_audio : ℕ
pid_audio = 0x0101

abbrev pub stream_type_h264 : ℕ
stream_type_h264 = 0x1b

abbrev pub stream_type_aac_adts : ℕ
stream_type_aac_adts = 0x0f

abbrev pub pes_stream_id_video : ℕ
pes_stream_id_video = 0xe0

abbrev pub pes_stream_id_audio : ℕ
pes_stream_id_audio = 0xc0

abbrev pub silent_aac_frame : List ℕ
silent_aac_frame =
    0xff ∷ 0xf1 ∷ 0x4c ∷ 0x80 ∷ 0x01 ∷ 0xbf ∷ 0xfc ∷ 0x21 ∷ 0x10 ∷ 0x04 ∷ 0x60 ∷ 0x8c ∷ 0x1c ∷ []

abbrev pub aac_frame_ticks_90k : ℕ
aac_frame_ticks_90k = 1920

abbrev pub silent_inject_lag_90k : ℕ
silent_inject_lag_90k = 45_000

abbrev pub silent_inject_max_per_frame : ℕ
silent_inject_max_per_frame = 8

abbrev pub audio_pts_tolerance_90k : ℕ
audio_pts_tolerance_90k = 4

abbrev pub pcr_pts_offset : ℕ
pcr_pts_offset = 200

abbrev pub aud_nal : List ℕ
aud_nal = 0x00 ∷ 0x00 ∷ 0x00 ∷ 0x01 ∷ 0x09 ∷ 0xf0 ∷ []
