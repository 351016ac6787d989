-- ===== src/Base/Bits.antt =====
-- Bit operations on bytes, by tables that are checked by evaluation.
use Prim.Native.Nat.{
  ℕ, zero, suc, ◌+◌, ◌-◌, ◌*◌, ◌/◌, ◌%◌, ◌^◌, ◌<◌, ◌≤◌, min, max, digits, bit_and, bit_or,
  bit_and-bitwise, bit_or-bitwise,
}
use native.Mathlib.Nat.{pow-suc, one-le-pow, div-add-mod', mod-lt}
use mathlib.Core.Path.{◌≡◌, refl, sym, ap, ◌∙◌}
use mathlib.Core.Bool.{Bool, true, ◌&&◌}
use native.Mathlib.Omega.{arith}
use ferricast.Base.Tests.{◌==◌, ==_iff}

-- A test holds at every number below `n`.
unfoldable pub all_below : ℕ → (ℕ → Bool) → Bool
all_below zero p = true
all_below (suc n) p = p n && all_below n p

pub all_below→at : (n : ℕ) (p : ℕ → Bool) (x : ℕ) → all_below n p ≡ true → x < n → p x ≡ true
unfolding all_below
all_below→at zero p x h lt = absurd (omega arith)
all_below→at (suc n) p x h lt = ground (arith, all_below→at n p x)

-- Two functions agree below `n`, checked by evaluation.
pub eq_below :
    (n : ℕ) (f g : ℕ → ℕ) → all_below n (λ x. f x == g x) ≡ true → (x : ℕ) → x < n → f x ≡ g x
eq_below n f g h x lt = (==_iff (f x) (g x)).0 (all_below→at n (λ y. f y == g y) x h lt)

double_pow : (q k : ℕ) → q * 2 ^ suc k ≡ 2 * (q * 2 ^ k)
double_pow q k = omega (arith, ap (λ (p : ℕ). q * p) (pow-suc 2 k))

-- The digits of `a`, a multiple of 2 ^ k, joined with the `k` digits of `r`.
or_digits : (k n a q r : ℕ) → a ≡ q * 2 ^ k → a ≤ n → r < 2 ^ k → digits (λ b. b) max n a r ≡ a + r
or_digits k zero a q r e fits small = omega arith
or_digits k (suc n) zero q r e fits small = omega arith
or_digits zero (suc n) (suc a) q r e fits small = omega (
  arith,
  or_digits zero n (suc a / 2) (suc a / 2) (r / 2) (omega arith) (omega arith) (omega arith),
)
or_digits (suc k) (suc n) (suc a) q r e fits small = omega (
  arith,
  double_pow q k,
  pow-suc 2 k,
  or_digits k n (suc a / 2) q (r / 2) (omega (arith, double_pow q k)) (omega arith)
      (omega (arith, pow-suc 2 k)),
)

-- `hi | lo` is a sum where `hi` is shifted past the bits of `lo`.
pub bit_or-shifted : (k q r : ℕ) → r < 2 ^ k → bit_or (q * 2 ^ k) r ≡ q * 2 ^ k + r
bit_or-shifted k q r small =
    bit_or-bitwise (q * 2 ^ k) r ∙ or_digits k (q * 2 ^ k) (q * 2 ^ k) q r refl (omega arith) small

-- `a | r` is a sum where the low bits of `a` are clear and `r` lies in them.
pub bit_or-disjoint : (k a r : ℕ) → a % 2 ^ k ≡ 0 → r < 2 ^ k → bit_or a r ≡ a + r
bit_or-disjoint k a r clear small =
    let e : a ≡ a / 2 ^ k * 2 ^ k = omega (arith, clear, div-add-mod' a (2 ^ k)) in
    bit_or-bitwise a r ∙ or_digits k a a (a / 2 ^ k) r e (omega arith) small

-- The digits of `a` under a mask of `k` ones, where `r` is what `a` holds there.
and_digits :
    (k n a m q r : ℕ)
    → m + 1 ≡ 2 ^ k
    → a ≡ q * 2 ^ k + r
    → r < 2 ^ k
    → a ≤ n
    → digits (λ b. zero) min n a m ≡ r
and_digits k zero a m q r mask e small fits = omega arith
and_digits k (suc n) zero m q r mask e small fits = omega arith
and_digits zero (suc n) (suc a) m q r mask e small fits = omega (
  arith,
  and_digits zero n (suc a / 2) (m / 2) (suc a / 2) 0 (omega arith) (omega arith) (omega arith),
)
and_digits (suc k) (suc n) (suc a) m q r mask e small fits = omega (
  arith,
  pow-suc 2 k,
  and_digits k n (suc a / 2) (m / 2) q (r / 2) (omega (arith, pow-suc 2 k))
      (omega (arith, double_pow q k)) (omega (arith, pow-suc 2 k)),
  double_pow q k,
)

-- A mask of the `k` low bits is a remainder.
pub bit_and-low : (k a : ℕ) → bit_and a (2 ^ k - 1) ≡ a % 2 ^ k
bit_and-low k a =
    let one : 1 ≤ 2 ^ k = one-le-pow k 2 (omega arith) in
    bit_and-bitwise a (2 ^ k - 1)
    ∙ and_digits k a a (2 ^ k - 1) (a / 2 ^ k) (a % 2 ^ k) (omega arith)
        (sym (div-add-mod' a (2 ^ k))) (mod-lt a one) (omega arith)
