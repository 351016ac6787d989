-- ===== src/Frame.antt =====
-- crates/core/src/frame.rs and protocol.rs: the encoded frames that the components pass on.
use ferricast.Base.{ℕ, Bool, Option, List}

pub data Codec : Type 0 where
  h264 h265 vp8 vp9 : Codec

pub data AudioCodec : Type 0 where
  aac opus pcm alac : AudioCodec

-- The payload, `Bytes` in the source, is a list of numbers below 256.
pub record EncodedFrame : Type 0 where
  pub codec : Codec
  pub bytes : List ℕ
  pub timestamp_us : ℕ
  pub is_keyframe : Bool
  pub duration_us : Option ℕ
  pub pts_dts : ℕ × ℕ

pub record AudioFrame : Type 0 where
  pub codec : AudioCodec
  pub bytes : List ℕ
  pub timestamp_us : ℕ
  pub sample_rate : ℕ
  pub channels : ℕ
