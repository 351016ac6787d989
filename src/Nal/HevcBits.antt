-- ===== src/Nal/HevcBits.antt =====
-- The bits that the HEVC bit writer writes.
use ferricast.Base.{
  ℕ, zero, suc, ◌+◌, ◌*◌, ◌/◌, ◌%◌, ◌^◌, ◌<◌, ◌≤◌, ◌≡◌, refl, sym, ap, ap₂, ◌∙◌, List, [], ◌∷◌,
  ◌++◌, append_assoc, append-nil, ◌==◌, ==_iff, bit_or, arith, Bool-cases, inl, inr,
}
use ferricast.Base.Words.{shl8, shr}
use ferricast.Base.Bits.{bit_or-shifted}
use ferricast.Nal.Hevc.{BitWriter, push_bit}
use native.Mathlib.Nat.{pow-succ', pow-le-pow_right, div-div-eq-div-mul, two-pow-succ}

-- The `width` low bits of a value, the highest first.
unfoldable pub bits : ℕ → ℕ → List ℕ
bits zero value = []
bits (suc i) value = shr value i % 2 ∷ bits i value

unfoldable pub byte_bits : List ℕ → List ℕ
byte_bits [] = []
byte_bits (b ∷ bs) = bits 8 b ++ byte_bits bs

-- What a writer has taken in so far.
abbrev pub written : BitWriter → List ℕ
written w = byte_bits w.out ++ bits w.nbits w.cur

pub record IsWriter (w : BitWriter) : Type 0 where
  pub partial : w.nbits < 8
  pub small : w.cur < 2 ^ w.nbits

shr-double : (v b n : ℕ) → b < 2 → shr (v * 2 + b) (suc n) ≡ shr v n
shr-double v b n h =
    ap (λ (d : ℕ). (v * 2 + b) / d) (pow-succ' 2 n)
    ∙ sym (div-div-eq-div-mul (v * 2 + b) 2 (2 ^ n))
    ∙ ap (λ (y : ℕ). y / 2 ^ n) (let e : (v * 2 + b) / 2 ≡ v = omega arith in e)

pub bits-snoc : (n v b : ℕ) → b < 2 → bits (suc n) (v * 2 + b) ≡ bits n v ++ b ∷ []
unfolding bits
bits-snoc zero v b h =
    ap (λ (x : ℕ). x ∷ []) (let e : (v * 2 + b) / 2 ^ 0 % 2 ≡ b = omega arith in e)
bits-snoc (suc n) v b h = ap₂ (λ (x : ℕ) l. x % 2 ∷ l) (shr-double v b n h) (bits-snoc n v b h)

pub byte_bits-append : (a b : List ℕ) → byte_bits (a ++ b) ≡ byte_bits a ++ byte_bits b
unfolding byte_bits
byte_bits-append [] b = refl
byte_bits-append (x ∷ xs) b =
    ap (λ l. bits 8 x ++ l) (byte_bits-append xs b)
    ∙ sym (append_assoc (bits 8 x) (byte_bits xs) (byte_bits b))

shifted : (c n b : ℕ) → c < 2 ^ n → n < 8 → b < 2 → bit_or (shl8 c 1) b ≡ c * 2 + b
shifted c n b h k l =
    let room : 2 ^ n ≤ 2 ^ 7 =
      pow-le-pow_right {n = 2} (omega arith) {i = n} {j = 7} (omega arith) in
    ap (λ a. bit_or a b) (let e : c * 2 ^ 1 % 256 ≡ c * 2 ^ 1 = omega arith in e)
    ∙ bit_or-shifted 1 c b (omega arith)
    ∙ (let e : c * 2 ^ 1 + b ≡ c * 2 + b = omega arith in e)

plus_one : (n : ℕ) → 2 ^ (n + 1) ≡ 2 ^ suc n
plus_one n = ap (λ (k : ℕ). 2 ^ k) (let k : n + 1 ≡ suc n = omega arith in k)

-- The two ways a round ends: the byte is full, or it is not.
push_bit-full :
    (w : BitWriter) (b c : ℕ)
    → c ≡ w.cur * 2 + b
    → b < 2
    → w.nbits ≡ 7
    → byte_bits (w.out ++ c ∷ []) ++ [] ≡ written w ++ b ∷ []
unfolding byte_bits
push_bit-full w b c e h full =
    append-nil (byte_bits (w.out ++ c ∷ []))
    ∙ byte_bits-append w.out (c ∷ [])
    ∙ ap (λ l. byte_bits w.out ++ l)
        (append-nil (bits 8 c)
          ∙ ap (bits 8) e
          ∙ bits-snoc 7 w.cur b h
          ∙ ap (λ n. bits n w.cur ++ b ∷ []) (sym full))
    ∙ sym (append_assoc (byte_bits w.out) (bits w.nbits w.cur) (b ∷ []))

push_bit-more :
    (w : BitWriter) (b c : ℕ)
    → c ≡ w.cur * 2 + b
    → b < 2
    → byte_bits w.out ++ bits (w.nbits + 1) c ≡ written w ++ b ∷ []
push_bit-more w b c e h =
    ap (λ l. byte_bits w.out ++ l)
      (ap₂ bits (let k : w.nbits + 1 ≡ suc w.nbits = omega arith in k) e
        ∙ bits-snoc w.nbits w.cur b h)
    ∙ sym (append_assoc (byte_bits w.out) (bits w.nbits w.cur) (b ∷ []))

unfoldable pub Holds : BitWriter → List ℕ → BitWriter → Type 0
Holds w bs w' = IsWriter w' × (written w' ≡ written w ++ bs)

pub push_bit-Holds : (w : BitWriter) (b : ℕ) → IsWriter w → b < 2 → Holds w (b ∷ []) (push_bit w b)
unfolding push_bit Holds bits
push_bit-Holds w b v h =
    let c = bit_or (shl8 w.cur 1) b in
    let e : c ≡ w.cur * 2 + b = shifted w.cur w.nbits b v.small v.partial h in
    elim (Bool-cases (w.nbits + 1 == 8)) [
      | inl full ↦ rw full (
        record { partial = omega arith; small = omega arith },
        push_bit-full w b c e h (omega (arith, (==_iff (w.nbits + 1) 8).0 full)),
      )
      | inr more ↦ rw more (
        record {
          partial = ground arith;
          small = omega (arith, e, v.small, two-pow-succ w.nbits, plus_one w.nbits);
        },
        push_bit-more w b c e h,
      )
    ]
