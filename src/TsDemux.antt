-- ===== src/TsDemux.antt =====
-- crates/hls/src/puller/ts.rs: the MPEG-TS demuxer of the HLS receiver. A packet is a list of 188
-- bytes; an index that the code reads is always in range, and reads 0 here otherwise.
pub mod Tables
pub mod Pes
pub mod Packets
pub mod Headers
pub mod Clock
pub mod Feed
pub mod Start
pub mod RoundTrip
mod Tests
use ferricast.Base.{
  ℕ, zero, suc, ◌+◌, ◌*◌, ◌-◌, ◌/◌, ◌%◌, ◌^◌, List, [], ◌∷◌, ◌++◌, bit_and, bit_or, Option, none,
  some, Bool, true, false, not, ◌&&◌, ◌||◌, ltb, leb, ◌==◌, if◌then◌else◌, length, get_or, take,
  drop, is_empty,
}
use ferricast.Base.Words.{shr, u8}
use ferricast.Frame.{Codec, h264, h265, AudioCodec, aac, EncodedFrame, AudioFrame}

pub data DemuxedPacket : Type 0 where
  video : EncodedFrame → DemuxedPacket
  audio : AudioFrame → DemuxedPacket

pub record TsStreamInfo : Type 0 where
  pub video_codec : Option Codec
  pub audio_codec : Option AudioCodec
  pub audio_sample_rate : ℕ
  pub audio_channels : ℕ

pub record PesAssembly : Type 0 where
  pub buf : List ℕ
  pub pts_us : Option ℕ

pub record TsDemuxer : Type 0 where
  pub pmt_pid : Option ℕ
  pub video_pid : Option ℕ
  pub audio_pid : Option ℕ
  pub info : TsStreamInfo
  pub video_pes : PesAssembly
  pub audio_pes : PesAssembly
  pub out : List DemuxedPacket

unfoldable pub new : TsDemuxer
new = record {
  pmt_pid = none;
  video_pid = none;
  audio_pid = none;
  info = record {
    video_codec = none;
    audio_codec = none;
    audio_sample_rate = 0;
    audio_channels = 0;
  };
  video_pes = record { buf = []; pts_us = none };
  audio_pes = record { buf = []; pts_us = none };
  out = [];
}

abbrev pub is_some {ℓ} : {A : Type ℓ} → Option A → Bool
is_some none = false
is_some (some _) = true

abbrev pub or_zero : Option ℕ → ℕ
or_zero none = 0
or_zero (some n) = n

-- Big-endian 16 bits, and 13 bits behind three reserved ones.
abbrev pub be16 : ℕ → ℕ → ℕ
be16 hi lo = bit_or (hi * 2 ^ 8) lo

abbrev pub be13 : ℕ → ℕ → ℕ
be13 hi lo = bit_or (bit_and hi 0x1f * 2 ^ 8) lo

abbrev pub be12 : ℕ → ℕ → ℕ
be12 hi lo = bit_or (bit_and hi 0x0f * 2 ^ 8) lo

-- The frames that a finished PES packet gives. A codec is known whenever one is pushed.
unfoldable pub push_video : TsDemuxer → Option Codec → List ℕ → ℕ → TsDemuxer
push_video d none bytes pts = d
push_video d (some codec) bytes pts = record d {
  out =
      d.out
      ++ video (record {
        codec = codec;
        bytes = bytes;
        timestamp_us = pts;
        is_keyframe = false;
        duration_us = none;
        pts_dts = (pts, pts);
      })
        ∷ [];
}

unfoldable pub push_audio : TsDemuxer → Option AudioCodec → List ℕ → ℕ → TsDemuxer
push_audio d none bytes pts = d
push_audio d (some codec) bytes pts = record d {
  out =
      d.out
      ++ audio (record {
        codec = codec;
        bytes = bytes;
        timestamp_us = pts;
        sample_rate = d.info.audio_sample_rate;
        channels = d.info.audio_channels;
      })
        ∷ [];
}

-- `flush`: what is assembled is taken only where a codec is known.
unfoldable pub flush_video : TsDemuxer → TsDemuxer
flush_video d =
    if is_empty d.video_pes.buf || not (is_some d.info.video_codec)
    then d
    else push_video (record d { video_pes = record { buf = []; pts_us = d.video_pes.pts_us } })
        d.info.video_codec d.video_pes.buf (or_zero d.video_pes.pts_us)

unfoldable pub flush_audio : TsDemuxer → TsDemuxer
flush_audio d =
    if is_empty d.audio_pes.buf || not (is_some d.info.audio_codec)
    then d
    else push_audio (record d { audio_pes = record { buf = []; pts_us = d.audio_pes.pts_us } })
        d.info.audio_codec d.audio_pes.buf (or_zero d.audio_pes.pts_us)

unfoldable pub flush : TsDemuxer → TsDemuxer
flush d = flush_audio (flush_video d)

-- The loop of `parse_pat` from byte 8 on: the PID of the first program whose number is not 0.
unfoldable pub pat_loop : List ℕ → Option ℕ
pat_loop (n1 ∷ n0 ∷ p1 ∷ p0 ∷ rest) =
    let more = pat_loop rest in if be16 n1 n0 == 0 then more else some (be13 p1 p0)
pat_loop _ = none

unfoldable pub set_pmt_pid : TsDemuxer → Option ℕ → TsDemuxer
set_pmt_pid d none = d
set_pmt_pid d (some pid) = record d { pmt_pid = some pid }

-- The test `1 + pointer + 12 > payload.len()` of both tables. An empty payload fails it too.
abbrev pub too_short : List ℕ → Bool
too_short payload = is_empty payload || ltb (length payload) (1 + get_or payload 0 0 + 12)

abbrev pub section : List ℕ → List ℕ
section payload = drop (1 + get_or payload 0 0) payload

unfoldable pub parse_pat : TsDemuxer → List ℕ → Bool → TsDemuxer
parse_pat d payload pusi =
    if not pusi || too_short payload then d else set_pmt_pid d (pat_loop (drop 8 (section payload)))

-- One entry of the PMT's stream loop.
unfoldable pub add_stream : TsDemuxer → ℕ → ℕ → TsDemuxer
add_stream d stream_type elementary_pid =
    if stream_type == 0x1b
    then record d {
      video_pid = some elementary_pid;
      info = record d.info { video_codec = some h264 };
    }
    else if stream_type == 0x24
    then record d {
      video_pid = some elementary_pid;
      info = record d.info { video_codec = some h265 };
    }
    else if stream_type == 0x0f
    then record d {
      audio_pid = some elementary_pid;
      info = record d.info { audio_codec = some aac };
    }
    else d

-- A round takes five bytes at least.
unfoldable pub pmt_loop : ℕ → TsDemuxer → List ℕ → TsDemuxer
pmt_loop (suc fuel) d (t ∷ p1 ∷ p0 ∷ l1 ∷ l0 ∷ rest) =
    pmt_loop fuel (add_stream d t (be13 p1 p0)) (drop (be12 l1 l0) rest)
pmt_loop _ d _ = d

unfoldable pub parse_pmt : TsDemuxer → List ℕ → Bool → TsDemuxer
parse_pmt d payload pusi =
    let s = section payload in
    if not pusi || too_short payload || ltb (length s) 12
    then d
    else pmt_loop (length s) d (drop (12 + be12 (get_or s 10 0) (get_or s 11 0)) s)
