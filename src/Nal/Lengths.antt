-- ===== src/Nal/Lengths.antt =====
-- Bit lengths between powers of two.
use ferricast.Base.{
  ℕ, zero, suc, ◌/◌, ◌^◌, ◌<◌, ◌≤◌, ◌≡◌, refl, ap, ◌∙◌, if_ge, arith, inl, inr, sym, ltb,
  if◌then◌else◌, compare_cases,
}
use ferricast.Nal.{bit_length}
use native.Mathlib.Nat.{pow-suc, pow-le-pow_right}

pub bit_length-zero : (fuel : ℕ) → bit_length fuel 0 ≡ 0
unfolding bit_length
bit_length-zero zero = refl
bit_length-zero (suc fuel) = refl

-- A positive number of at most `fuel` bits lies between the powers of two around its length.
unfoldable pub IsLength : ℕ → ℕ → Type 0
IsLength n v = (k : ℕ) × (n ≡ suc k) × (2 ^ k ≤ v) × (v < 2 ^ suc k)

pub bit_length-IsLength : (fuel v : ℕ) → 1 ≤ v → v < 2 ^ fuel → IsLength (bit_length fuel v) v
unfolding bit_length IsLength
bit_length-IsLength zero v h lt = absurd (omega arith)
bit_length-IsLength (suc fuel) v h lt =
    let step : bit_length (suc fuel) v ≡ suc (bit_length fuel (v / 2)) =
      if_ge v 1 0 (suc (bit_length fuel (v / 2))) h in
    elim (compare_cases (v / 2) 1) [
      | inl small ↦
          let half : v / 2 ≡ 0 = omega arith in
          (
            0,
            step ∙ ap (λ (x : ℕ). suc (bit_length fuel x)) half ∙ ap suc (bit_length-zero fuel),
            omega arith,
            omega arith,
          )
      | inr big ↦
          let one : 1 ≤ v / 2 = elim big [ inl e ↦ omega arith | inr g ↦ omega arith ] in
          let (k, e, lo, hi) =
            bit_length-IsLength fuel (v / 2) one (omega (arith, pow-suc 2 fuel)) in
          (suc k, step ∙ ap suc e, omega (arith, pow-suc 2 k), omega (arith, pow-suc 2 (suc k)))
    ]

pub small_exponent : (k x : ℕ) → 2 ^ k ≤ x → x < 2 ^ 33 → k < 33
small_exponent k x lo hi = elim (compare_cases k 33) [
  | inl h ↦ h
  | inr h ↦
      let far : 33 ≤ k = elim h [ inl e ↦ omega arith | inr g ↦ omega arith ] in
      let room : 2 ^ 33 ≤ 2 ^ k = pow-le-pow_right {n = 2} (omega arith) {i = 33} {j = k} far in
      absurd (omega arith)
]

-- More fuel than a number has bits does not change its length.
pub bit_length_fuel : (f g v : ℕ) → v < 2 ^ f → f ≤ g → bit_length f v ≡ bit_length g v
unfolding bit_length
bit_length_fuel zero g v h le =
    sym (ap (bit_length g) (let e : v ≡ 0 = omega arith in e) ∙ bit_length-zero g)
bit_length_fuel (suc f) zero v h le = absurd (omega arith)
bit_length_fuel (suc f) (suc g) v h le =
    ap (λ (n : ℕ). if ltb v 1 then 0 else suc n)
      (bit_length_fuel f g (v / 2) (omega (arith, pow-suc 2 f)) (omega arith))
