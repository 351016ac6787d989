-- ===== src/Nal/HevcPayload.antt =====
-- The payloads of the HEVC parameter sets, bit by bit.
use ferricast.Base.{
  ℕ, zero, suc, ◌+◌, ◌-◌, ◌/◌, ◌%◌, ◌^◌, ◌<◌, ◌≡◌, refl, sym, ap, ap₂, ◌∙◌, List, [], ◌∷◌, ◌++◌,
  append_assoc, append-nil, All, ◌==◌, ==_iff, bit_and, replicate, arith, Bool-cases, inl, inr,
  subst,
}
use ferricast.Base.Words.{shr}
use ferricast.Base.Bits.{bit_and-low}
use ferricast.Nal.{bit_length}
use ferricast.Nal.Lengths.{IsLength, bit_length-IsLength, small_exponent}
use ferricast.Nal.Hevc.{
  BitWriter, new, push_bit, write_bits, write_ue, write_se, mapped, rbsp_trailing,
}
use ferricast.Nal.HevcSets.{Element, u, ue, se, write_all, payload}
use ferricast.Nal.HevcBits.{bits, byte_bits, written, IsWriter, Holds, push_bit-Holds}
use native.Mathlib.Nat.{div-eq_of_lt, one-le-pow}

Holds-trans :
    (w w' w'' : BitWriter) (a b : List ℕ) → Holds w a w' → Holds w' b w'' → Holds w (a ++ b) w''
unfolding Holds
Holds-trans w w' w'' a b (v, e) (v', e') =
    (v', e' ∙ ap (λ l. l ++ b) e ∙ append_assoc (written w) a b)

write_bits-Holds :
    (n value : ℕ) (w : BitWriter) → IsWriter w → Holds w (bits n value) (write_bits w value n)
unfolding write_bits bits Holds
write_bits-Holds zero value w v = (v, sym (append-nil (written w)))
write_bits-Holds (suc n) value w v =
    let b = bit_and (shr value n) 1 in
    let e : b ≡ shr value n % 2 = bit_and-low 1 (shr value n) in
    let (v', e') = push_bit-Holds w b v (omega (arith, e)) in
    let (v'', e'') = write_bits-Holds n value (push_bit w b) v' in
    (
      v'',
      e''
          ∙ ap (λ l. l ++ bits n value) (e' ∙ ap (λ (x : ℕ). written w ++ x ∷ []) e)
          ∙ append_assoc (written w) (shr value n % 2 ∷ []) (bits n value),
    )

-- The Exp-Golomb code of a value: as many zeros as `value + 1` has bits behind its first, then
-- those bits.
unfoldable pub ue_bits : ℕ → List ℕ
ue_bits value =
    let zeros_before = bit_length 32 (value + 1) - 1 in
    replicate zeros_before 0 ++ bits (zeros_before + 1) (value + 1)

bits-zero : (n : ℕ) → bits n 0 ≡ replicate n 0
unfolding bits
bits-zero zero = refl
bits-zero (suc n) =
    ap₂ (λ (x : ℕ) l. x % 2 ∷ l)
      (let e : 0 / 2 ^ n ≡ 0 = div-eq_of_lt {n = 0} {m = 2 ^ n} (one-le-pow n 2 (omega arith)) in e)
      (bits-zero n)

pub write_ue-Holds :
    (value : ℕ) (w : BitWriter)
    → IsWriter w
    → value < 2 ^ 32 - 1
    → Holds w (ue_bits value) (write_ue w value)
unfolding write_ue ue_bits Holds IsLength
write_ue-Holds value w v h =
    let x = value + 1 in
    let (n, e, lo, hi) = bit_length-IsLength 32 x (omega arith) (omega arith) in
    let few : n < 33 = small_exponent n x lo (omega arith) in
    let k = bit_length 32 x - 1 in
    let no_wrap : x % 2 ^ 32 ≡ x = omega arith in
    let zeros_eq : ((bit_length 32 x + (2 ^ 32 - 1)) % 2 ^ 32) % 256 ≡ k = omega arith in
    let one : (k + 1) % 256 ≡ k + 1 = omega arith in
    let h0 = write_bits-Holds k 0 w v in
    let h1 = write_bits-Holds (k + 1) x (write_bits w 0 k) h0.0 in
    let w' = write_bits (write_bits w 0 k) x (k + 1) in
    rw no_wrap (
      rw zeros_eq (
        rw one (
          subst (λ z. Holds w (z ++ bits (k + 1) x) w') (bits-zero k)
            (Holds-trans w (write_bits w 0 k) w' (bits k 0) (bits (k + 1) x) h0 h1))))

-- The syntax of the standard: `u(n)`, `ue(v)` and `se(v)`, one after the other.
unfoldable pub element_bits : List Element → List ℕ
element_bits [] = []
element_bits (u value width ∷ es) = bits width value ++ element_bits es
element_bits (ue value ∷ es) = ue_bits value ++ element_bits es
element_bits (se value ∷ es) = ue_bits (mapped value) ++ element_bits es

-- The values that an Exp-Golomb code of at most 63 bits can carry.
abbrev pub HasCode : Element → Type 0
HasCode (u value width) = Unit {0}
HasCode (ue value) = value < 2 ^ 32 - 1
HasCode (se value) = mapped value < 2 ^ 32 - 1

write_all-Holds :
    (es : List Element) (w : BitWriter)
    → IsWriter w
    → All HasCode es
    → Holds w (element_bits es) (write_all w es)
unfolding write_all element_bits Holds write_se
write_all-Holds [] w v c = (v, sym (append-nil (written w)))
write_all-Holds (u value width ∷ es) w v (c, cs) =
    let h = write_bits-Holds width value w v in
    Holds-trans w (write_bits w value width) (write_all (write_bits w value width) es)
      (bits width value) (element_bits es) h (write_all-Holds es (write_bits w value width) h.0 cs)
write_all-Holds (ue value ∷ es) w v (c, cs) =
    let h = write_ue-Holds value w v c in
    Holds-trans w (write_ue w value) (write_all (write_ue w value) es) (ue_bits value)
      (element_bits es) h (write_all-Holds es (write_ue w value) h.0 cs)
write_all-Holds (se value ∷ es) w v (c, cs) =
    let h = write_ue-Holds (mapped value) w v c in
    Holds-trans w (write_ue w (mapped value)) (write_all (write_ue w (mapped value)) es)
      (ue_bits (mapped value)) (element_bits es) h
      (write_all-Holds es (write_ue w (mapped value)) h.0 cs)

push_bit_fills : (w : BitWriter) (b : ℕ) → w.nbits + 1 ≡ 8 → (push_bit w b).nbits ≡ 0
unfolding push_bit
push_bit_fills w b h = elim (Bool-cases (w.nbits + 1 == 8)) [
  | inl e ↦ rw e refl
  | inr e ↦ absurd (ground arith)
]

push_bit_counts : (w : BitWriter) (b : ℕ) → w.nbits + 1 < 8 → (push_bit w b).nbits ≡ w.nbits + 1
unfolding push_bit
push_bit_counts w b h = elim (Bool-cases (w.nbits + 1 == 8)) [
  | inl e ↦ absurd (omega (arith, (==_iff (w.nbits + 1) 8).0 e))
  | inr e ↦ rw e refl
]

-- Bits up to the end of the byte leave no partial byte.
fill-nbits :
    (k value : ℕ) (w : BitWriter) → w.nbits + suc k ≡ 8 → (write_bits w value (suc k)).nbits ≡ 0
unfolding write_bits
fill-nbits zero value w e = push_bit_fills w (bit_and (shr value 0) 1) (omega arith)
fill-nbits (suc k) value w e =
    let b = bit_and (shr value (suc k)) 1 in
    fill-nbits k value (push_bit w b) (omega (arith, push_bit_counts w b (omega arith)))

fill-written :
    (w : BitWriter) (k : ℕ)
    → IsWriter w
    → w.nbits + suc k ≡ 8
    → byte_bits (write_bits w 0 (suc k)).out ≡ written w ++ replicate (suc k) 0
unfolding Holds bits
fill-written w k v e =
    let w' = write_bits w 0 (suc k) in
    sym (append-nil (byte_bits w'.out))
    ∙ ap (λ n. byte_bits w'.out ++ bits n w'.cur) (sym (fill-nbits k 0 w e))
    ∙ (write_bits-Holds (suc k) 0 w v).1
    ∙ ap (λ l. written w ++ l) (bits-zero (suc k))

-- A finished payload has the `1` bit behind it and fewer than eight zeros.
Trailed : BitWriter → BitWriter → Type 0
Trailed w w' = (pad : ℕ) × (pad < 8) × (byte_bits w'.out ≡ written w ++ 1 ∷ replicate pad 0)

whole-written : (w : BitWriter) → w.nbits ≡ 0 → byte_bits w.out ≡ written w
unfolding bits
whole-written w e =
    sym (append-nil (byte_bits w.out)) ∙ ap (λ n. byte_bits w.out ++ bits n w.cur) (sym e)

trailing-written : (w : BitWriter) → IsWriter w → Trailed w (rbsp_trailing w)
unfolding rbsp_trailing Holds bits Trailed
trailing-written w v =
    let w1 = write_bits w 1 1 in
    let (v1, e1) = write_bits-Holds 1 1 w v in
    let k = 7 - w1.nbits in
    elim (Bool-cases (w1.nbits == 0)) [
      | inl whole ↦ rw whole (0, omega arith, whole-written w1 ((==_iff w1.nbits 0).0 whole) ∙ e1)
      | inr more ↦
          let q : 8 - w1.nbits ≡ suc k = omega (arith, v1.partial) in
          rw more (
            suc k,
            ground (arith, v1.partial),
            ap (λ n. byte_bits (write_bits w1 0 n).out) q
                ∙ fill-written w1 k v1 (omega (arith, v1.partial))
                ∙ ap (λ l. l ++ replicate (suc k) 0) e1
                ∙ append_assoc (written w) (1 ∷ []) (replicate (suc k) 0),
          )
    ]

-- The bits of a payload are those of its elements, in order, then a `1` and fewer than eight zeros.
pub payload-bits :
    (es : List Element)
    → All HasCode es
    → (pad : ℕ) × (pad < 8) × (byte_bits (payload es) ≡ element_bits es ++ 1 ∷ replicate pad 0)
unfolding payload Trailed Holds new byte_bits bits
payload-bits es c =
    let start : IsWriter new = record { partial = omega arith; small = omega arith } in
    let (v, e) = write_all-Holds es new start c in
    let (pad, few, e') = trailing-written (write_all new es) v in
    (pad, few, e' ∙ ap (λ l. l ++ 1 ∷ replicate pad 0) e)
