-- ===== src/Nal/ExpGolomb.antt =====
-- A decoder's reading of Exp-Golomb codes gives the value back.
use ferricast.Base.{
  ℕ, zero, suc, ◌+◌, ◌-◌, ◌*◌, ◌/◌, ◌%◌, ◌^◌, ◌<◌, ◌≤◌, ◌≡◌, refl, sym, ap, ap₂, ◌∙◌, List, [], ◌∷◌,
  ◌++◌, append_assoc, replicate, arith, Option, none, some, length,
}
use ferricast.Base.Words.{shr}
use ferricast.Nal.{bit_length}
use ferricast.Nal.Lengths.{IsLength, bit_length-IsLength}
use ferricast.Nal.Hevc.{BitWriter, write_ue}
use ferricast.Nal.HevcBits.{bits, bits-snoc, written, IsWriter, Holds}
use ferricast.Nal.HevcPayload.{ue_bits, write_ue-Holds}
use native.Mathlib.Nat.{
  pow-suc, pow-succ', div-eq_of_lt-le, div-div-eq-div-mul, mod-eq-sub-div-mul, div-mul-le_self,
}

-- H.265 9.2: count the zeros, then read as many bits and one.
unfoldable pub read_zeros : List ℕ → ℕ × List ℕ
read_zeros [] = (0, [])
read_zeros (zero ∷ bs) = let (n, rest) = read_zeros bs in (suc n, rest)
read_zeros (suc b ∷ bs) = (0, suc b ∷ bs)

unfoldable pub read_bits : ℕ → ℕ → List ℕ → Option (ℕ × List ℕ)
read_bits zero acc bs = some (acc, bs)
read_bits (suc n) acc [] = none
read_bits (suc n) acc (b ∷ bs) = read_bits n (acc * 2 + b) bs

less_one : Option (ℕ × List ℕ) → Option (ℕ × List ℕ)
less_one none = none
less_one (some (v, bs)) = some (v - 1, bs)

unfoldable pub read_ue : List ℕ → Option (ℕ × List ℕ)
unfolding less_one
read_ue bs = let (n, rest) = read_zeros bs in less_one (read_bits (n + 1) 0 rest)

-- The number that bits read behind `acc` make.
num : ℕ → List ℕ → ℕ
num acc [] = acc
num acc (b ∷ bs) = num (acc * 2 + b) bs

num-snoc : (acc : ℕ) (bs : List ℕ) (b : ℕ) → num acc (bs ++ b ∷ []) ≡ num acc bs * 2 + b
unfolding num
num-snoc acc [] b = refl
num-snoc acc (x ∷ xs) b = num-snoc (acc * 2 + x) xs b

length-bits : (n v : ℕ) → length (bits n v) ≡ n
unfolding bits
length-bits zero v = refl
length-bits (suc n) v = ap suc (length-bits n v)

num-bits : (n acc v : ℕ) → v < 2 ^ n → num acc (bits n v) ≡ acc * 2 ^ n + v
unfolding num bits
num-bits zero acc v h = omega arith
num-bits (suc n) acc v h =
    let e : v ≡ v / 2 * 2 + v % 2 = omega arith in
    ap (λ x. num acc (bits (suc n) x)) e
    ∙ ap (num acc) (bits-snoc n (v / 2) (v % 2) (omega arith))
    ∙ num-snoc acc (bits n (v / 2)) (v % 2)
    ∙ omega (
      arith,
      num-bits n acc (v / 2) (omega (arith, pow-suc 2 n)),
      ap (λ (p : ℕ). acc * p) (pow-suc 2 n),
    )

read_bits-num :
    (bs : List ℕ) (acc : ℕ) (rest : List ℕ)
    → read_bits (length bs) acc (bs ++ rest) ≡ some (num acc bs, rest)
unfolding read_bits num
read_bits-num [] acc rest = refl
read_bits-num (b ∷ bs) acc rest = read_bits-num bs (acc * 2 + b) rest

read_bits-bits :
    (n v : ℕ) (rest : List ℕ) → v < 2 ^ n → read_bits n 0 (bits n v ++ rest) ≡ some (v, rest)
read_bits-bits n v rest h =
    ap (λ m. read_bits m 0 (bits n v ++ rest)) (sym (length-bits n v))
    ∙ read_bits-num (bits n v) 0 rest
    ∙ ap (λ (x : ℕ). some (x, rest))
        (num-bits n 0 v h ∙ (let e : 0 * 2 ^ n + v ≡ v = omega arith in e))

low_digits : (n v : ℕ) → v / 2 % 2 ^ n * 2 + v % 2 ≡ v % 2 ^ suc n
low_digits n v =
    let q = v / 2 / 2 ^ n in
    let halves : v / 2 ^ suc n ≡ q =
      ap (λ (d : ℕ). v / d) (pow-succ' 2 n) ∙ sym (div-div-eq-div-mul v 2 (2 ^ n)) in
    let twice : q * 2 ^ suc n ≡ q * 2 ^ n * 2 =
      omega (arith, ap (λ (d : ℕ). q * d) (pow-suc 2 n)) in
    let whole : v % 2 ^ suc n ≡ v - q * 2 ^ suc n =
      mod-eq-sub-div-mul v (2 ^ suc n) ∙ ap (λ (d : ℕ). v - d * 2 ^ suc n) halves in
    omega (arith, twice, whole, mod-eq-sub-div-mul (v / 2) (2 ^ n), div-mul-le_self (v / 2) (2 ^ n))

num-bits_low : (n v : ℕ) → num 0 (bits n v) ≡ v % 2 ^ n
unfolding num bits
num-bits_low zero v = omega arith
num-bits_low (suc n) v =
    let e : v ≡ v / 2 * 2 + v % 2 = omega arith in
    ap (λ x. num 0 (bits (suc n) x)) e
    ∙ ap (num 0) (bits-snoc n (v / 2) (v % 2) (omega arith))
    ∙ num-snoc 0 (bits n (v / 2)) (v % 2)
    ∙ ap (λ (x : ℕ). x * 2 + v % 2) (num-bits_low n (v / 2))
    ∙ low_digits n v

-- Of a value that is written in `n` bits the low ones are read.
pub read_bits_low :
    (n v : ℕ) (rest : List ℕ) → read_bits n 0 (bits n v ++ rest) ≡ some (v % 2 ^ n, rest)
read_bits_low n v rest =
    ap (λ m. read_bits m 0 (bits n v ++ rest)) (sym (length-bits n v))
    ∙ read_bits-num (bits n v) 0 rest
    ∙ ap (λ (x : ℕ). some (x, rest)) (num-bits_low n v)

read_zeros-replicate :
    (n : ℕ) (b : ℕ) (rest : List ℕ) → read_zeros (replicate n 0 ++ suc b ∷ rest) ≡ (n, suc b ∷ rest)
unfolding read_zeros
read_zeros-replicate zero b rest = refl
read_zeros-replicate (suc n) b rest =
    ap (λ (r : ℕ × List ℕ). (suc r.0, r.1)) (read_zeros-replicate n b rest)

-- The first of the bits of a number is 1.
top_bit : (k x : ℕ) → 2 ^ k ≤ x → x < 2 ^ suc k → shr x k % 2 ≡ 1
top_bit k x lo hi =
    ap (λ (q : ℕ). q % 2)
      (div-eq_of_lt-le {k = 1} (2 ^ k) {m = x} (omega arith) (omega (arith, pow-suc 2 k)))

pub read_ue_code :
    (k x : ℕ) (rest : List ℕ)
    → 2 ^ k ≤ x
    → x < 2 ^ suc k
    → read_ue (replicate k 0 ++ (bits (suc k) x ++ rest)) ≡ some (x - 1, rest)
unfolding read_ue bits less_one
read_ue_code k x rest lo hi =
    let head : bits (suc k) x ≡ 1 ∷ bits k x = ap (λ (b : ℕ). b ∷ bits k x) (top_bit k x lo hi) in
    let zeros_read : read_zeros (replicate k 0 ++ (bits (suc k) x ++ rest))
        ≡ (k, bits (suc k) x ++ rest) =
      ap (λ l. read_zeros (replicate k 0 ++ (l ++ rest))) head
      ∙ read_zeros-replicate k 0 (bits k x ++ rest)
      ∙ ap (λ (l : List ℕ). (k, l ++ rest)) (sym head) in
    ap (λ (q : ℕ × List ℕ). less_one (read_bits (q.0 + 1) 0 q.1)) zeros_read
    ∙ ap (λ n. less_one (read_bits n 0 (bits (suc k) x ++ rest)))
        (let e : k + 1 ≡ suc k = omega arith in e)
    ∙ ap less_one (read_bits-bits (suc k) x rest hi)

pub read_ue-ue_bits :
    (value : ℕ) (rest : List ℕ)
    → value < 2 ^ 32 - 1
    → read_ue (ue_bits value ++ rest) ≡ some (value, rest)
unfolding ue_bits IsLength
read_ue-ue_bits value rest h =
    let x = value + 1 in
    let (k, e, lo, hi) = bit_length-IsLength 32 x (omega arith) (omega arith) in
    ap₂ (λ (n m : ℕ). read_ue ((replicate n 0 ++ bits m x) ++ rest))
      (let q : bit_length 32 x - 1 ≡ k = omega (arith, e) in q)
      (let q : bit_length 32 x - 1 + 1 ≡ suc k = omega (arith, e) in q)
    ∙ ap read_ue (append_assoc (replicate k 0) (bits (suc k) x) rest)
    ∙ read_ue_code k x rest lo hi
    ∙ ap (λ (v : ℕ). some (v, rest)) (let q : value + 1 - 1 ≡ value = omega arith in q)

-- On a writer in a valid state, `write_ue` appends a code from which a decoder reads the value and
-- what stands behind the code, for every value below 2 ^ 32 - 1.
pub write_ue-read :
    (w : BitWriter) (value : ℕ)
    → IsWriter w
    → value < 2 ^ 32 - 1
    → (code : List ℕ) × (written (write_ue w value) ≡ written w ++ code)
      × ((rest : List ℕ) → read_ue (code ++ rest) ≡ some (value, rest))
unfolding Holds
write_ue-read w value v h =
    (ue_bits value, (write_ue-Holds value w v h).1, λ rest. read_ue-ue_bits value rest h)
