-- ===== src/Text/Numbers.antt =====
-- Decimal forms: what is printed is read back.
use ferricast.Base.{
  ℕ, zero, suc, ◌+◌, ◌-◌, ◌*◌, ◌/◌, ◌%◌, ◌≤◌, ◌<◌, ◌≡◌, refl, ap, ◌∙◌, [], ◌∷◌, ◌++◌, some, false,
  ltb, ◌==◌, if_ne, arith, ==_iff, le→leb, length, length-append, Bool-cases, inl, inr, All,
  All-append, ltb→lt,
}
use ferricast.Text.{
  Bytes, show, show_from, read_digits, parse_uint, at_most, unsigned, contains_byte, trim,
  trim_start, trim_end_matches, is_space,
}
use ferricast.Text.Laws.{Lacks}

abbrev pub Digit : ℕ → Type 0
Digit b = (48 ≤ b) × (b < 58)

read_digits-snoc :
    (s : Bytes) (acc v d : ℕ)
    → read_digits acc s ≡ some v
    → Digit d
    → read_digits acc (s ++ d ∷ []) ≡ some (v * 10 + (d - 48))
unfolding read_digits
read_digits-snoc [] acc v d e (lo, hi) = ground arith
read_digits-snoc (b ∷ bs) acc v d e h =
    ground (arith, read_digits-snoc bs (acc * 10 + (b - 48)) v d)

pub show_from-Digit : (fuel n : ℕ) → n ≤ fuel → All Digit (show_from fuel n)
unfolding show_from
show_from-Digit zero n h = ((omega arith, omega arith), tt)
show_from-Digit (suc fuel) n h = elim (Bool-cases (ltb n 10)) [
  | inl e ↦ rw e ((omega arith, omega (arith, ltb→lt n 10 e)), tt)
  | inr e ↦ rw e (
      All-append Digit (show_from fuel (n / 10)) ((48 + n % 10) ∷ [])
        (show_from-Digit fuel (n / 10) (omega arith)) ((omega arith, omega arith), tt))
]

one_digit : (n : ℕ) → n < 10 → read_digits 0 ((48 + n) ∷ []) ≡ some n
unfolding read_digits
one_digit n h = ground arith

read_digits-show_from : (fuel n : ℕ) → n ≤ fuel → read_digits 0 (show_from fuel n) ≡ some n
unfolding show_from
read_digits-show_from zero n h = one_digit n (omega arith)
read_digits-show_from (suc fuel) n h = elim (Bool-cases (ltb n 10)) [
  | inl e ↦ rw e (one_digit n (ltb→lt n 10 e))
  | inr e ↦ rw e (
      read_digits-snoc (show_from fuel (n / 10)) 0 (n / 10) (48 + n % 10)
        (read_digits-show_from fuel (n / 10) (omega arith)) (omega arith, omega arith)
      ∙ ap some (let q : n / 10 * 10 + (48 + n % 10 - 48) ≡ n = omega arith in q))
]

pub show-Digit : (n : ℕ) → All Digit (show n)
unfolding show
show-Digit n = show_from-Digit n n (omega arith)

-- A byte that is no digit does not occur among digits.
pub Digit-Lacks : (c : ℕ) (s : Bytes) → All Digit s → ¬ Digit c → Lacks c s
unfolding contains_byte
Digit-Lacks c [] h no_digit = refl
Digit-Lacks c (b ∷ bs) ((lo, hi), hs) no_digit = elim (Bool-cases (b == c)) [
  | inl e ↦
      let q : b ≡ c = (==_iff b c).0 e in absurd (no_digit (omega (arith, q), omega (arith, q)))
  | inr e ↦ rw e (Digit-Lacks c bs hs no_digit)
]

parse_uint-digits :
    (bound n : ℕ) (s : Bytes)
    → All Digit s
    → read_digits 0 s ≡ some n
    → 1 ≤ length s
    → n ≤ bound
    → parse_uint bound s ≡ some n
unfolding parse_uint
parse_uint-digits bound n [] h e some_left fits = absurd (omega arith)
parse_uint-digits bound n (b ∷ bs) ((lo, hi), hs) e some_left fits =
    ap (at_most bound) (if_ne b 43 (unsigned bs) (unsigned (b ∷ bs)) (λ q. omega arith) ∙ e)
    ∙ rw (le→leb n bound fits) refl

length-show_from : (fuel n : ℕ) → 1 ≤ length (show_from fuel n)
unfolding show_from
length-show_from zero n = omega arith
length-show_from (suc fuel) n =
    ground (arith, length-append (show_from fuel (n / 10)) ((48 + n % 10) ∷ []))

-- What is printed is read back, where the type has room for it.
pub parse_uint-show : (bound n : ℕ) → n ≤ bound → parse_uint bound (show n) ≡ some n
unfolding show
parse_uint-show bound n h =
    parse_uint-digits bound n (show_from n n) (show_from-Digit n n (omega arith))
      (read_digits-show_from n n (omega arith)) (length-show_from n n) h

Digit-is_space : (b : ℕ) → Digit b → is_space b ≡ false
Digit-is_space b (lo, hi) = ground arith

trim_end-Digit : (s : Bytes) → All Digit s → trim_end_matches is_space s ≡ s
unfolding trim_end_matches
trim_end-Digit [] h = refl
trim_end-Digit (b ∷ []) (h, hs) = rw (Digit-is_space b h) refl
trim_end-Digit (b ∷ c ∷ s) (h, hs) = rw (trim_end-Digit (c ∷ s) hs) refl

trim_start-Digit : (s : Bytes) → All Digit s → trim_start s ≡ s
unfolding trim_start
trim_start-Digit [] h = refl
trim_start-Digit (b ∷ s) (h, hs) = rw (Digit-is_space b h) refl

-- A number has nothing to trim.
pub trim-show : (n : ℕ) → trim (show n) ≡ show n
unfolding trim
trim-show n =
    ap (trim_end_matches is_space) (trim_start-Digit (show n) (show-Digit n))
    ∙ trim_end-Digit (show n) (show-Digit n)

pub length-show : (n : ℕ) → 1 ≤ length (show n)
unfolding show
length-show n = length-show_from n n
