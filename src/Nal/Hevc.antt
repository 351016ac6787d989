-- ===== src/Nal/Hevc.antt =====
-- crates/encoder/src/h265/bitstream.rs: the HEVC bit writer, NAL header and emulation prevention.
use ferricast.Base.{
  ℕ, zero, suc, ◌+◌, ◌-◌, ◌*◌, ◌%◌, ◌^◌, ◌≤◌, ◌≡◌, refl, List, [], ◌∷◌, ◌++◌, false, ◌&&◌, leb,
  ◌==◌, if◌then◌else◌, bit_and, bit_or, arith, ap, ◌∙◌,
}
use ferricast.Base.Words.{ℤ, pos, negsuc, shl8, shr}
use ferricast.Nal.{bit_length}
use ferricast.Nal.Escape.{
  prevent_loop, emulation_prevent, unescape, contains_code, unescape-emulation_prevent,
  emulation_prevent-clean,
}

pub record BitWriter : Type 0 where
  pub out : List ℕ
  pub cur : ℕ
  pub nbits : ℕ

unfoldable pub new : BitWriter
new = record { out = []; cur = 0; nbits = 0 }

-- One round of the loop in `write_bits`.
unfoldable pub push_bit : BitWriter → ℕ → BitWriter
push_bit w bit =
    let cur = bit_or (shl8 w.cur 1) bit in
    if w.nbits + 1 == 8
    then record { out = w.out ++ cur ∷ []; cur = 0; nbits = 0 }
    else record { out = w.out; cur = cur; nbits = w.nbits + 1 }

unfoldable pub write_bits : BitWriter → ℕ → ℕ → BitWriter
write_bits w value zero = w
write_bits w value (suc i) = write_bits (push_bit w (bit_and (shr value i) 1)) value i

-- `(32 - v.leading_zeros() - 1) as u8` for the bit length of `v`. The arithmetic wraps, so that
-- the greatest `u32` is written as 255 zeros; its shifts by more than 31 are of a zero.
unfoldable pub write_ue : BitWriter → ℕ → BitWriter
write_ue w value =
    let v = (value + 1) % 2 ^ 32 in
    let leading_zeros = ((bit_length 32 v + (2 ^ 32 - 1)) % 2 ^ 32) % 256 in
    write_bits (write_bits w 0 leading_zeros) v ((leading_zeros + 1) % 256)

unfoldable pub mapped : ℤ → ℕ
mapped (pos zero) = 0
mapped (pos (suc n)) = suc n * 2 - 1
mapped (negsuc n) = suc n * 2

unfoldable pub write_se : BitWriter → ℤ → BitWriter
write_se w value = write_ue w (mapped value)

unfoldable pub rbsp_trailing : BitWriter → BitWriter
rbsp_trailing w =
    let w1 = write_bits w 1 1 in if w1.nbits == 0 then w1 else write_bits w1 0 (8 - w1.nbits)

-- Layer 0 and temporal id 1, as a 16-bit word.
unfoldable pub nal_header : ℕ → List ℕ
nal_header nal_unit_type =
    let word = bit_or (bit_and nal_unit_type 0x3f * 2 ^ 9) (bit_and 1 7) in
    shr word 8 ∷ bit_and word 0xff ∷ []

-- `write_with_emulation_prevention`, whose counter is a byte.
unfoldable pub escape_loop : ℕ → List ℕ → List ℕ
escape_loop zero_run [] = []
escape_loop zero_run (b ∷ bs) =
    let escaped = escape_loop (if b == 0 then 1 else 0) bs in
    let plain = escape_loop (if b == 0 then (zero_run + 1) % 256 else 0) bs in
    if leb 2 zero_run && leb b 3 then 3 ∷ b ∷ escaped else b ∷ plain

unfoldable pub write_with_emulation_prevention : List ℕ → List ℕ → List ℕ
write_with_emulation_prevention out payload = out ++ escape_loop 0 payload

unfoldable pub finalize_nal : ℕ → List ℕ → List ℕ
finalize_nal nal_unit_type rbsp =
    write_with_emulation_prevention (0 ∷ 0 ∷ 0 ∷ 1 ∷ nal_header nal_unit_type) rbsp

-- The counter never leaves 0, 1 and 2, so it does not wrap: the loop is the one of H.264.
escape-prevent : (z : ℕ) (bs : List ℕ) → z ≤ 2 → escape_loop z bs ≡ prevent_loop z bs
unfolding escape_loop prevent_loop
escape-prevent z [] h = refl
escape-prevent zero (b ∷ bs) h =
    ground (arith, escape-prevent 0 bs (omega arith), escape-prevent 1 bs (omega arith))
escape-prevent (suc zero) (b ∷ bs) h =
    ground (arith, escape-prevent 0 bs (omega arith), escape-prevent 2 bs (omega arith))
escape-prevent (suc (suc zero)) (b ∷ bs) h =
    ground (arith, escape-prevent 0 bs (omega arith), escape-prevent 1 bs (omega arith))
escape-prevent (suc (suc (suc z))) (b ∷ bs) h = absurd (omega arith)

-- For every unit type and payload `finalize_nal` writes the start code, the two header bytes, and
-- an escaped payload without start code that a decoder unescapes to the payload.
pub finalize_nal-framed :
    (nal_unit_type : ℕ) (rbsp : List ℕ)
    → (ebsp : List ℕ) × (finalize_nal nal_unit_type rbsp
        ≡ 0 ∷ 0 ∷ 0 ∷ 1 ∷ nal_header nal_unit_type ++ ebsp)
      × (contains_code ebsp ≡ false)
      × (unescape 0 ebsp ≡ rbsp)
unfolding finalize_nal write_with_emulation_prevention emulation_prevent
finalize_nal-framed t rbsp =
    let e : escape_loop 0 rbsp ≡ emulation_prevent rbsp = escape-prevent 0 rbsp (omega arith) in
    (
      escape_loop 0 rbsp,
      refl,
      ap contains_code e ∙ emulation_prevent-clean rbsp,
      ap (unescape 0) e ∙ unescape-emulation_prevent rbsp,
    )
