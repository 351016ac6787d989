-- ===== src/TsDemux/Clock.antt =====
-- The demuxer reads the times that the muxer writes.
use ferricast.Base.{ℕ, ◌+◌, ◌*◌, ◌/◌, ◌%◌, ◌^◌, ◌<◌, ◌≡◌, ◌∙◌, List, bit_and, bit_or, arith, get_or}
use ferricast.Base.Words.{shr}
use ferricast.Base.Bits.{bit_or-disjoint, bit_and-low}
use ferricast.MpegTs.Timestamp.{encode_ts, ts_bytes, encode_ts-ts_bytes}
use ferricast.TsDemux.Pes.{pts_90khz}

-- The time in five bytes.
abbrev pub read_ts : List ℕ → ℕ
read_ts b = pts_90khz (get_or b 0 0) (get_or b 1 0) (get_or b 2 0) (get_or b 3 0) (get_or b 4 0)

pts_fields :
    (a b c e g : ℕ)
    → a < 8
    → b < 256
    → c < 128
    → e < 256
    → g < 128
    → bit_or (bit_or (bit_or (bit_or (a * 2 ^ 30) (b * 2 ^ 22)) (c * 2 ^ 15)) (e * 2 ^ 7)) g
      ≡ a * 2 ^ 30 + b * 2 ^ 22 + c * 2 ^ 15 + e * 2 ^ 7 + g
pts_fields a b c e g ha hb hc he hg =
    rw
      (
        bit_or-disjoint 30 (a * 2 ^ 30) (b * 2 ^ 22) (omega arith) (omega arith),
        bit_or-disjoint 22 (a * 2 ^ 30 + b * 2 ^ 22) (c * 2 ^ 15) (omega arith) (omega arith),
        bit_or-disjoint 15 (a * 2 ^ 30 + b * 2 ^ 22 + c * 2 ^ 15) (e * 2 ^ 7) (omega arith)
            (omega arith),
      )
      (bit_or-disjoint 7 (a * 2 ^ 30 + b * 2 ^ 22 + c * 2 ^ 15 + e * 2 ^ 7) g (omega arith)
        (omega arith))

read_ts_bytes : (prefix4 p : ℕ) → p < 2 ^ 33 → read_ts (ts_bytes prefix4 p) ≡ p
unfolding pts_90khz
read_ts_bytes prefix4 p h =
    let f0 : bit_and (shr (prefix4 * 16 + p / 2 ^ 30 * 2 + 1) 1) 0x7 ≡ p / 2 ^ 30 =
      bit_and-low 3 (shr (prefix4 * 16 + p / 2 ^ 30 * 2 + 1) 1) ∙ omega arith in
    let f2 : bit_and (shr (p / 2 ^ 15 % 128 * 2 + 1) 1) 0x7f ≡ p / 2 ^ 15 % 128 =
      bit_and-low 7 (shr (p / 2 ^ 15 % 128 * 2 + 1) 1) ∙ omega arith in
    let f4 : bit_and (shr (p % 128 * 2 + 1) 1) 0x7f ≡ p % 128 =
      bit_and-low 7 (shr (p % 128 * 2 + 1) 1) ∙ omega arith in
    rw (f0, f2, f4)
      (pts_fields (p / 2 ^ 30) (p / 2 ^ 22 % 256) (p / 2 ^ 15 % 128) (p / 2 ^ 7 % 256) (p % 128)
          (omega arith) (omega arith) (omega arith) (omega arith) (omega arith)
        ∙ omega arith)

-- What the demuxer reads of the time that `encode_ts` wrote is that time modulo 2 ^ 33, whatever
-- the 4-bit tag.
pub read_ts-encode_ts :
    (prefix4 ts : ℕ) → prefix4 < 16 → read_ts (encode_ts prefix4 ts) ≡ ts % 2 ^ 33
read_ts-encode_ts prefix4 ts h =
    rw (encode_ts-ts_bytes prefix4 ts h) (read_ts_bytes prefix4 (ts % 2 ^ 33) (omega arith))
