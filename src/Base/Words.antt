-- ===== src/Base/Words.antt =====
-- Machine words: the saturating operations of Rust's unsigned integers, and a run that may panic.
use Prim.Native.Nat.{ℕ, ◌+◌, ◌*◌, ◌-◌, ◌/◌, ◌%◌, ◌^◌, min}

abbrev pub u32_max : ℕ
u32_max = 2 ^ 32 - 1

abbrev pub u64_max : ℕ
u64_max = 2 ^ 64 - 1

-- `u32::saturating_mul`, `u32::saturating_add`, `u64::saturating_add`. `saturating_sub` is `-`.
abbrev pub sat_mul32 : ℕ → ℕ → ℕ
sat_mul32 a b = min (a * b) u32_max

abbrev pub sat_add32 : ℕ → ℕ → ℕ
sat_add32 a b = min (a + b) u32_max

abbrev pub sat_add64 : ℕ → ℕ → ℕ
sat_add64 a b = min (a + b) u64_max

-- What a call does: it returns, or it panics.
pub data Run {ℓ} (A : Type ℓ) : Type ℓ where
  returns : A → Run A
  panics : Run A

-- A run returns, with a value of which `P` holds.
abbrev pub Returns {ℓ} : {A : Type ℓ} → (A → Type 0) → Run A → Type 0
Returns P (returns a) = P a
Returns P panics = ⊥

infixl 5 ◌>>=◌
abbrev pub ◌>>=◌ {ℓ κ} : {A : Type ℓ} {B : Type κ} → Run A → (A → Run B) → Run B
returns a >>= f = f a
panics >>= f = panics

-- A chain returns if its first call does and the rest does from there.
pub >>=-Returns {ℓ κ} :
    {A : Type ℓ} {B : Type κ} (P : A → Type 0) (Q : B → Type 0) (m : Run A) (f : A → Run B)
    → Returns P m
    → ((a : A) → P a → Returns Q (f a))
    → Returns Q (m >>= f)
>>=-Returns P Q (returns a) f h k = k a h
>>=-Returns P Q panics f h k = h

pub Returns-mono {ℓ} :
    {A : Type ℓ} (P Q : A → Type 0) (m : Run A) → ((a : A) → P a → Q a) → Returns P m → Returns Q m
Returns-mono P Q (returns a) k h = k a h
Returns-mono P Q panics k h = h

-- `x << k` on a `u8`, and `x as u8`.
abbrev pub shl8 : ℕ → ℕ → ℕ
shl8 x k = x * 2 ^ k % 256

abbrev pub u8 : ℕ → ℕ
u8 x = x % 256

-- `x >> k`.
abbrev pub shr : ℕ → ℕ → ℕ
shr x k = x / 2 ^ k

-- The signed integers, over the native numbers.
pub data ℤ : Type 0 where
  pos negsuc : ℕ → ℤ
