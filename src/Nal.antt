-- ===== src/Nal.antt =====
-- crates/encoder/src/h264 and h265: the NAL units that the encoders write themselves, with their
-- bit writers, emulation prevention and parameter sets. What both codecs share stands here.
pub mod Escape
pub mod Writer
pub mod Avc
pub mod Hevc
pub mod HevcSets
pub mod Lengths
pub mod HevcBits
pub mod HevcPayload
pub mod HevcCoded
pub mod HevcContents
pub mod HevcParameters
pub mod ExpGolomb
pub mod Syntax
pub mod HevcSyntax
pub mod HevcSequence
pub mod AvcBits
pub mod AvcCodes
pub mod AvcPayload
pub mod AvcSyntax
pub mod AvcElements
pub mod AvcContents
pub mod AvcParameters
mod Tests
use ferricast.Base.{ℕ, zero, suc, ◌+◌, ◌-◌, ◌/◌, if◌then◌else◌, ltb}

-- The bits of a number without leading zeros; `fuel` bounds their count.
unfoldable pub bit_length : ℕ → ℕ → ℕ
bit_length zero n = 0
bit_length (suc fuel) n = let rest = bit_length fuel (n / 2) in if ltb n 1 then 0 else suc rest

-- `u64::leading_zeros`
unfoldable pub leading_zeros64 : ℕ → ℕ
leading_zeros64 n = 64 - bit_length 64 n
