-- ===== src/Text/Laws.antt =====
-- The laws of splitting and stripping.
use ferricast.Base.{
  ℕ, ◌-◌, ◌≡◌, refl, ap₂, [], ◌∷◌, ◌++◌, none, some, true, false, leb, ◌==◌, ==_iff, arith, length,
  drop, length-append, take-append, drop-append, Bool-cases, inl, inr, le→leb,
}
use ferricast.Text.{Bytes, bytes_eq, strip_prefix, strip_suffix, split_once, split, contains_byte}

pub ==_refl : (a : ℕ) → (a == a) ≡ true
==_refl a = (==_iff a a).1 refl

pub bytes_eq_refl : (s : Bytes) → bytes_eq s s ≡ true
unfolding bytes_eq
bytes_eq_refl [] = refl
bytes_eq_refl (b ∷ bs) = ground (arith, bytes_eq_refl bs)

pub strip_prefix-append : (p s : Bytes) → strip_prefix p (p ++ s) ≡ some s
unfolding strip_prefix
strip_prefix-append [] s = refl
strip_prefix-append (b ∷ bs) s = ground (arith, strip_prefix-append bs s)

pub strip_suffix-append : (s suffix : Bytes) → strip_suffix suffix (s ++ suffix) ≡ some s
unfolding strip_suffix
strip_suffix-append s suffix =
    let n : length (s ++ suffix) - length suffix ≡ length s =
      omega (arith, length-append s suffix) in
    let fits : leb (length suffix) (length (s ++ suffix)) ≡ true =
      le→leb _ _ (omega (arith, length-append s suffix)) in
    let same : bytes_eq (drop (length (s ++ suffix) - length suffix) (s ++ suffix)) suffix ≡ true =
      rw n (rw (drop-append s suffix) (bytes_eq_refl suffix)) in
    rw fits (rw same (rw n (rw (take-append s suffix) refl)))

-- No byte of the text is `c`.
abbrev pub Lacks : ℕ → Bytes → Type 0
Lacks c s = contains_byte c s ≡ false

pub split_once-append : (c : ℕ) (l r : Bytes) → Lacks c l → split_once c (l ++ c ∷ r) ≡ some (l, r)
unfolding split_once contains_byte
split_once-append c [] r h = ground arith
split_once-append c (b ∷ bs) r h = ground (arith, split_once-append c bs r)

pub split_once-none : (c : ℕ) (s : Bytes) → Lacks c s → split_once c s ≡ none
unfolding split_once contains_byte
split_once-none c [] h = refl
split_once-none c (b ∷ bs) h = ground (arith, split_once-none c bs)

pub split-append : (c : ℕ) (l r : Bytes) → Lacks c l → split c (l ++ c ∷ r) ≡ l ∷ split c r
unfolding split contains_byte
split-append c [] r h = ground arith
split-append c (b ∷ bs) r h = ground (arith, split-append c bs r)

pub split-none : (c : ℕ) (s : Bytes) → Lacks c s → split c s ≡ s ∷ []
unfolding split contains_byte
split-none c [] h = refl
split-none c (b ∷ bs) h = ground (arith, split-none c bs)

pub Lacks-append : (c : ℕ) (l r : Bytes) → Lacks c l → Lacks c r → Lacks c (l ++ r)
unfolding contains_byte
Lacks-append c [] r h k = k
Lacks-append c (b ∷ bs) r h k = ground (arith, Lacks-append c bs r)

pub bytes_eq→≡ : (a b : Bytes) → bytes_eq a b ≡ true → a ≡ b
unfolding bytes_eq
bytes_eq→≡ [] [] h = refl
bytes_eq→≡ [] (b ∷ bs) h = cc
bytes_eq→≡ (a ∷ as') [] h = cc
bytes_eq→≡ (a ∷ as') (b ∷ bs) h = elim (Bool-cases (a == b)) [
  | inl e ↦
      let same : bytes_eq as' bs ≡ true = ground arith in
      ap₂ (λ x xs. x ∷ xs) ((==_iff a b).0 e) (bytes_eq→≡ as' bs same)
  | inr e ↦ absurd (ground arith)
]
