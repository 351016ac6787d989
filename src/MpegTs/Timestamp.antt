-- ===== src/MpegTs/Timestamp.antt =====
-- `encode_ts` and `encode_pcr`: the 33-bit clock values of PES headers and adaptation fields.
use ferricast.Base.{
  ℕ, ◌+◌, ◌*◌, ◌/◌, ◌%◌, ◌^◌, ◌<◌, ◌≡◌, ◌∙◌, List, [], ◌∷◌, bit_and, bit_or, arith,
}
use ferricast.Base.Words.{shl8, u8, shr}
use ferricast.Base.Bits.{bit_or-disjoint, bit_and-low}

unfoldable pub encode_ts : ℕ → ℕ → List ℕ
encode_ts prefix4 ts =
    let p = bit_and ts 0x1_ffff_ffff in
    bit_or (bit_or (shl8 prefix4 4) (shl8 (bit_and (u8 (shr p 30)) 0x07) 1)) 0x01
    ∷ u8 (bit_and (shr p 22) 0xff)
    ∷ bit_or (shl8 (bit_and (u8 (shr p 15)) 0x7f) 1) 0x01
    ∷ u8 (bit_and (shr p 7) 0xff)
    ∷ bit_or (shl8 (bit_and (u8 p) 0x7f) 1) 0x01
    ∷ []

unfoldable pub encode_pcr : ℕ → List ℕ
encode_pcr pcr_90k =
    let base = bit_and pcr_90k 0x1_ffff_ffff in
    u8 (bit_and (shr base 25) 0xff)
    ∷ u8 (bit_and (shr base 17) 0xff)
    ∷ u8 (bit_and (shr base 9) 0xff)
    ∷ u8 (bit_and (shr base 1) 0xff)
    ∷ bit_or (u8 (bit_and base 0x1 * 2 ^ 7)) 0x7e
    ∷ 0x00
    ∷ []

-- The bytes in plain arithmetic, for a 4-bit tag and a 33-bit time.
abbrev pub ts_bytes : ℕ → ℕ → List ℕ
ts_bytes prefix4 p =
    (prefix4 * 16 + p / 2 ^ 30 * 2 + 1)
    ∷ (p / 2 ^ 22 % 256)
    ∷ (p / 2 ^ 15 % 128 * 2 + 1)
    ∷ (p / 2 ^ 7 % 256)
    ∷ (p % 128 * 2 + 1)
    ∷ []

ts_field : (x : ℕ) → bit_or (shl8 (bit_and (u8 x) 0x7f) 1) 0x01 ≡ x % 128 * 2 + 1
ts_field x =
    let low : bit_and (u8 x) 0x7f ≡ u8 x % 128 = bit_and-low 7 (u8 x) in
    rw low (bit_or-disjoint 1 (shl8 (u8 x % 128) 1) 1 (omega arith) (omega arith) ∙ omega arith)

ts_head :
    (prefix4 p : ℕ)
    → prefix4 < 16
    → p < 2 ^ 33
    → bit_or (bit_or (shl8 prefix4 4) (shl8 (bit_and (u8 (shr p 30)) 0x07) 1)) 0x01
      ≡ prefix4 * 16 + p / 2 ^ 30 * 2 + 1
ts_head prefix4 p h hp =
    let low : bit_and (u8 (shr p 30)) 0x07 ≡ p / 2 ^ 30 =
      bit_and-low 3 (u8 (shr p 30)) ∙ omega arith in
    let inner : bit_or (shl8 prefix4 4) (shl8 (p / 2 ^ 30) 1) ≡ prefix4 * 16 + p / 2 ^ 30 * 2 =
      bit_or-disjoint 4 (shl8 prefix4 4) (shl8 (p / 2 ^ 30) 1) (omega arith) (omega arith)
      ∙ omega arith in
    rw (low, inner)
      (bit_or-disjoint 1 (prefix4 * 16 + p / 2 ^ 30 * 2) 1 (omega arith) (omega arith))

-- `encode_ts` in plain arithmetic.
pub encode_ts-ts_bytes :
    (prefix4 ts : ℕ) → prefix4 < 16 → encode_ts prefix4 ts ≡ ts_bytes prefix4 (ts % 2 ^ 33)
unfolding encode_ts
encode_ts-ts_bytes prefix4 ts h =
    let p = ts % 2 ^ 33 in
    rw
      (
        bit_and-low 33 ts,
        ts_head prefix4 p h (omega arith),
        ts_field (shr p 15),
        ts_field p,
        bit_and-low 8 (shr p 22),
        bit_and-low 8 (shr p 7),
      )
      (ground arith)
