-- ===== src/Nal/AvcPayload.antt =====
-- The payloads of the H.264 parameter sets, bit by bit.
use ferricast.Base.{
  ℕ, zero, suc, ◌+◌, ◌-◌, ◌*◌, ◌%◌, ◌^◌, ◌<◌, ◌≡◌, refl, sym, ap, ap₂, ◌∙◌, List, [], ◌∷◌, ◌++◌,
  append_assoc, append-nil, replicate, arith, All, subst,
}
use ferricast.Base.Words.{ℤ, pos, negsuc}
use ferricast.Nal.{bit_length, leading_zeros64}
use ferricast.Nal.Lengths.{IsLength, bit_length-IsLength, small_exponent, bit_length_fuel}
use ferricast.Nal.Writer.{
  BitWriter, new, write_bit, write_bits, write_ue, write_se, mapped, byte_align, finish_rbsp,
}
use ferricast.Nal.Hevc
use ferricast.Nal.HevcSets.{Element, u, ue, se}
use ferricast.Nal.HevcBits.{bits, byte_bits, bits-snoc, byte_bits-append}
use ferricast.Nal.HevcPayload.{element_bits, ue_bits, HasCode}
use native.Mathlib.Nat.{pow-suc}
use ferricast.Nal.AvcBits.{HasWritten, tail, write_bit-HasWritten}
use ferricast.Nal.AvcCodes.{write_bits-HasWritten, write_ue-code, code}

-- The calls of the bit writer that a list of elements stands for.
unfoldable pub write_elements : BitWriter → List Element → BitWriter
write_elements w [] = w
write_elements w (u value width ∷ es) = write_elements (write_bits w value width) es
write_elements w (ue value ∷ es) = write_elements (write_ue w value) es
write_elements w (se value ∷ es) = write_elements (write_se w value) es

write_ue-bits :
    (w : BitWriter) (bs : List ℕ) (value : ℕ)
    → HasWritten w bs
    → value < 2 ^ 32 - 1
    → HasWritten (write_ue w value) (bs ++ ue_bits value)
unfolding ue_bits code leading_zeros64 IsLength
write_ue-bits w bs value v h =
    let x = value + 1 in
    let (k, e, lo, hi) = bit_length-IsLength 32 x (omega arith) (omega arith) in
    let n = bit_length 32 x - 1 in
    let leading : 63 - (64 - bit_length 64 x) ≡ n = omega (
      arith,
      e,
      small_exponent k x lo (omega arith),
      bit_length_fuel 32 64 x (omega arith) (omega arith),
    ) in
    let no_wrap : x % 2 ^ 32 ≡ x = omega arith in
    subst (λ (m : ℕ). HasWritten (write_ue w value) (bs ++ code m x)) leading
      (subst (λ (y : ℕ). HasWritten (write_ue w value) (bs ++ code (63 - (64 - bit_length 64 x)) y))
        no_wrap (write_ue-code w bs value v))

mapped-mapped : (v : ℤ) → mapped v ≡ Hevc.mapped v
unfolding mapped Hevc.mapped
mapped-mapped (pos zero) = refl
mapped-mapped (pos (suc n)) = omega arith
mapped-mapped (negsuc n) = omega arith

pub write_elements-HasWritten :
    (es : List Element) (w : BitWriter) (bs : List ℕ)
    → HasWritten w bs
    → All HasCode es
    → HasWritten (write_elements w es) (bs ++ element_bits es)
unfolding write_elements element_bits write_se
write_elements-HasWritten [] w bs v c = subst (HasWritten w) (sym (append-nil bs)) v
write_elements-HasWritten (u value width ∷ es) w bs v (c, cs) =
    subst (HasWritten (write_elements (write_bits w value width) es))
      (append_assoc bs (bits width value) (element_bits es))
      (write_elements-HasWritten es (write_bits w value width) (bs ++ bits width value)
        (write_bits-HasWritten width value w bs v) cs)
write_elements-HasWritten (ue value ∷ es) w bs v (c, cs) =
    subst (HasWritten (write_elements (write_ue w value) es))
      (append_assoc bs (ue_bits value) (element_bits es))
      (write_elements-HasWritten es (write_ue w value) (bs ++ ue_bits value)
        (write_ue-bits w bs value v c) cs)
write_elements-HasWritten (se value ∷ es) w bs v (c, cs) =
    let n = Hevc.mapped value in
    subst
      (λ (m : ℕ).
        HasWritten (write_elements (write_ue w m) es) (bs ++ (ue_bits n ++ element_bits es)))
      (sym (mapped-mapped value))
      (subst (HasWritten (write_elements (write_ue w n) es))
        (append_assoc bs (ue_bits n) (element_bits es))
        (write_elements-HasWritten es (write_ue w n) (bs ++ ue_bits n) (write_ue-bits w bs n v c)
          cs))

replicate-snoc : (n : ℕ) → replicate n 0 ++ 0 ∷ [] ≡ replicate {A = ℕ} (suc n) 0
replicate-snoc zero = refl
replicate-snoc (suc n) = ap (λ l. 0 ∷ l) (replicate-snoc n)

-- A byte that is not full has zeros at its end.
bits-padded : (j k r : ℕ) → bits (j + k) (r * 2 ^ j) ≡ bits k r ++ replicate j 0
bits-padded zero k r =
    ap₂ bits (let e : 0 + k ≡ k = omega arith in e) (let e : r * 2 ^ 0 ≡ r = omega arith in e)
    ∙ sym (append-nil (bits k r))
bits-padded (suc j) k r =
    ap₂ bits (let e : suc j + k ≡ suc (j + k) = omega arith in e) (
      let e : r * 2 ^ suc j ≡ r * 2 ^ j * 2 + 0 =
        omega (arith, ap (λ (p : ℕ). r * p) (pow-suc 2 j)) in
      e)
    ∙ bits-snoc (j + k) (r * 2 ^ j) 0 (omega arith)
    ∙ ap (λ l. l ++ 0 ∷ []) (bits-padded j k r)
    ∙ append_assoc (bits k r) (replicate j 0) (0 ∷ [])
    ∙ ap (λ l. bits k r ++ l) (replicate-snoc j)

none_yet : (r : ℕ) → byte_bits [] ≡ bits 0 r ++ replicate 0 0
unfolding byte_bits bits
none_yet r = refl

one_byte : (c : ℕ) → byte_bits (c ∷ []) ≡ bits 8 c
unfolding byte_bits
one_byte c = append-nil (bits 8 c)

tail-bits :
    (k r : ℕ) → k < 8 → (pad : ℕ) × (pad < 8) × (byte_bits (tail k r) ≡ bits k r ++ replicate pad 0)
tail-bits zero r h = (0, omega arith, none_yet r)
tail-bits (suc k) r h =
    let j = 8 - suc k in
    (
      j,
      omega arith,
      one_byte (r * 2 ^ j)
          ∙ ap (λ (n : ℕ). bits n (r * 2 ^ j)) (let e : 8 ≡ j + suc k = omega arith in e)
          ∙ bits-padded j (suc k) r,
    )

-- The bytes of a finished payload: its bits, a `1` and fewer than eight zeros.
pub finish_rbsp-bits :
    (w : BitWriter) (bs : List ℕ)
    → HasWritten w bs
    → (pad : ℕ) × (pad < 8) × (byte_bits (finish_rbsp w) ≡ bs ++ 1 ∷ replicate pad 0)
unfolding finish_rbsp byte_align
finish_rbsp-bits w bs v =
    let v' = write_bit-HasWritten w bs 1 v (omega arith) in
    let (pad, few, e) = tail-bits (write_bit w 1).bit_pos v'.rest v'.partial in
    (
      pad,
      few,
      ap byte_bits v'.bytes
          ∙ byte_bits-append v'.full (tail (write_bit w 1).bit_pos v'.rest)
          ∙ ap (λ l. byte_bits v'.full ++ l) e
          ∙ sym (
              append_assoc (byte_bits v'.full) (bits (write_bit w 1).bit_pos v'.rest)
                (replicate pad 0))
          ∙ ap (λ l. l ++ replicate pad 0) (sym v'.all_bits)
          ∙ append_assoc bs (1 ∷ []) (replicate pad 0),
    )

pub new-HasWritten : HasWritten new []
unfolding new byte_bits bits
new-HasWritten = record {
  full = [];
  rest = 0;
  partial = omega arith;
  small = omega arith;
  bytes = refl;
  all_bits = refl;
}
