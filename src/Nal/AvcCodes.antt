-- ===== src/Nal/AvcCodes.antt =====
-- The codes that the H.264 bit writer writes, as a decoder reads them.
use ferricast.Base.{
  ℕ, zero, suc, ◌+◌, ◌-◌, ◌%◌, ◌^◌, ◌<◌, ◌≡◌, sym, ap, ◌∙◌, List, [], ◌∷◌, ◌++◌, append_assoc,
  append-nil, some, bit_and, replicate, arith, subst,
}
use ferricast.Base.Words.{shr}
use ferricast.Base.Bits.{bit_and-low}
use ferricast.Nal.{bit_length, leading_zeros64}
use ferricast.Nal.Writer.{BitWriter, write_bit, write_bits, write_zeros, write_ue}
use ferricast.Nal.HevcBits.{bits}
use ferricast.Nal.AvcBits.{HasWritten, write_bit-HasWritten}
use ferricast.Nal.Lengths.{IsLength, bit_length-IsLength, small_exponent}
use ferricast.Nal.ExpGolomb.{read_ue, read_ue_code}

pub write_bits-HasWritten :
    (n value : ℕ) (w : BitWriter) (bs : List ℕ)
    → HasWritten w bs
    → HasWritten (write_bits w value n) (bs ++ bits n value)
unfolding write_bits bits
write_bits-HasWritten zero value w bs v = subst (HasWritten w) (sym (append-nil bs)) v
write_bits-HasWritten (suc n) value w bs v =
    let b = bit_and (shr value n) 1 in
    let e : b ≡ shr value n % 2 = bit_and-low 1 (shr value n) in
    let v' = write_bit-HasWritten w bs b v (omega (arith, e)) in
    subst (HasWritten (write_bits (write_bit w b) value n))
      (ap (λ (x : ℕ). (bs ++ x ∷ []) ++ bits n value) e
        ∙ append_assoc bs (shr value n % 2 ∷ []) (bits n value))
      (write_bits-HasWritten n value (write_bit w b) (bs ++ b ∷ []) v')

write_zeros-HasWritten :
    (n : ℕ) (w : BitWriter) (bs : List ℕ)
    → HasWritten w bs
    → HasWritten (write_zeros w n) (bs ++ replicate n 0)
unfolding write_zeros
write_zeros-HasWritten zero w bs v = subst (HasWritten w) (sym (append-nil bs)) v
write_zeros-HasWritten (suc n) w bs v =
    subst (HasWritten (write_zeros (write_bit w 0) n)) (append_assoc bs (0 ∷ []) (replicate n 0)) (
      write_zeros-HasWritten n (write_bit w 0) (bs ++ 0 ∷ [])
        (write_bit-HasWritten w bs 0 v (omega arith)))

unfoldable pub code : ℕ → ℕ → List ℕ
code leading x = replicate leading 0 ++ bits (leading + 1) x

pub write_ue-code :
    (w : BitWriter) (bs : List ℕ) (value : ℕ)
    → HasWritten w bs
    → HasWritten
        (write_ue w value)
        (bs ++ code (63 - leading_zeros64 (value + 1)) ((value + 1) % 2 ^ 32))
unfolding write_ue code
write_ue-code w bs value v =
    let k = 63 - leading_zeros64 (value + 1) in
    let x = (value + 1) % 2 ^ 32 in
    subst (HasWritten (write_ue w value)) (append_assoc bs (replicate k 0) (bits (k + 1) x)) (
      write_bits-HasWritten (k + 1) x (write_zeros w k) (bs ++ replicate k 0)
        (write_zeros-HasWritten k w bs v))

-- On an H.264 writer that has taken in `bs`, `write_ue` appends a code from which a decoder reads the
-- value and what stands behind the code, for every value below 2 ^ 32 - 1.
pub write_ue-HasWritten :
    (w : BitWriter) (bs : List ℕ) (value : ℕ)
    → HasWritten w bs
    → value < 2 ^ 32 - 1
    → (c : List ℕ) × HasWritten (write_ue w value) (bs ++ c)
      × ((rest : List ℕ) → read_ue (c ++ rest) ≡ some (value, rest))
unfolding code leading_zeros64 IsLength
write_ue-HasWritten w bs value v h =
    let x = value + 1 in
    let (k, e, lo, hi) = bit_length-IsLength 64 x (omega arith) (omega arith) in
    let leading : 63 - (64 - bit_length 64 x) ≡ k =
      omega (arith, e, hi, lo, small_exponent k x lo (omega arith)) in
    let no_wrap : x % 2 ^ 32 ≡ x = omega arith in
    let one : k + 1 ≡ suc k = omega arith in
    (
      replicate k 0 ++ bits (suc k) x,
      subst (λ (n : ℕ). HasWritten (write_ue w value) (bs ++ (replicate k 0 ++ bits n x))) one
          (subst (λ (n : ℕ). HasWritten (write_ue w value) (bs ++ code n x)) leading
            (subst
              (λ (y : ℕ).
                HasWritten (write_ue w value) (bs ++ code (63 - (64 - bit_length 64 x)) y))
              no_wrap (write_ue-code w bs value v))),
      λ rest.
          ap read_ue (append_assoc (replicate k 0) (bits (suc k) x) rest)
          ∙ read_ue_code k x rest lo hi
          ∙ ap (λ (y : ℕ). some (y, rest)) (let q : value + 1 - 1 ≡ value = omega arith in q),
    )
