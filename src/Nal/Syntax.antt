-- ===== src/Nal/Syntax.antt =====
-- Readers of syntax structures as the video standards write them: fields of fixed width and
-- Exp-Golomb codes, one after the other. This is a decoder's side, not code of the repository.
use ferricast.Base.{
  ℕ, zero, suc, ◌+◌, ◌-◌, ◌*◌, ◌/◌, ◌%◌, ◌^◌, ◌≡◌, refl, sym, ap, ◌∙◌, List, [], ◌∷◌, ◌++◌,
  append_assoc, ◌==◌, ==_iff, if◌then◌else◌, arith, All, Option, none, some, Bool-cases, inl, inr,
}
use ferricast.Base.Words.{ℤ, pos, negsuc}
use ferricast.Nal.Hevc.{mapped}
use ferricast.Nal.HevcSets.{Element, u, ue, se}
use ferricast.Nal.HevcPayload.{element_bits, ue_bits, HasCode}
use ferricast.Nal.HevcBits.{bits}
use ferricast.Nal.ExpGolomb.{read_bits, read_ue, read_ue-ue_bits, read_bits_low}

-- A reader: `u(n)`, `ue(v)` or `se(v)` and what follows once its value is known; `refuse` at
-- syntax that the reader does not know.
pub data Syntax (A : Type 0) : Type 0 where
  done : A → Syntax A
  refuse : Syntax A
  bits_then : ℕ → (ℕ → Syntax A) → Syntax A
  ue_then : (ℕ → Syntax A) → Syntax A
  se_then : (ℤ → Syntax A) → Syntax A

infixl 5 ◌>>=◌
abbrev pub ◌>>=◌ : {A B : Type 0} → Syntax A → (A → Syntax B) → Syntax B
done a >>= f = f a
refuse >>= f = refuse
bits_then n k >>= f = bits_then n (λ v. k v >>= f)
ue_then k >>= f = ue_then (λ v. k v >>= f)
se_then k >>= f = se_then (λ v. k v >>= f)

abbrev pub field_u : ℕ → Syntax ℕ
field_u n = bits_then n (λ v. done v)

abbrev pub field_ue : Syntax ℕ
field_ue = ue_then (λ v. done v)

abbrev pub field_se : Syntax ℤ
field_se = se_then (λ v. done v)

-- H.265 9.2.2 and H.264 9.1.1: 1, 2, 3, 4 are 1, -1, 2, -2.
abbrev pub unmapped : ℕ → ℤ
unmapped zero = pos 0
unmapped (suc k) = if k % 2 == 0 then pos (suc (k / 2)) else negsuc (k / 2)

unmapped-mapped : (v : ℤ) → unmapped (mapped v) ≡ v
unfolding mapped
unmapped-mapped (pos zero) = refl
unmapped-mapped (pos (suc n)) =
    ap unmapped (let e : suc n * 2 - 1 ≡ suc (n * 2) = omega arith in e)
    ∙ rw (let e : n * 2 % 2 ≡ 0 = omega arith in e)
        (ap (λ (k : ℕ). pos (suc k)) (let e : n * 2 / 2 ≡ n = omega arith in e))
unmapped-mapped (negsuc n) =
    ap unmapped (let e : suc n * 2 ≡ suc (n * 2 + 1) = omega arith in e)
    ∙ rw (let e : (n * 2 + 1) % 2 ≡ 1 = omega arith in e)
        (ap (λ (k : ℕ). negsuc k) (let e : (n * 2 + 1) / 2 ≡ n = omega arith in e))

abbrev pub and_then : {A B : Type 0} → Option A → (A → Option B) → Option B
and_then none f = none
and_then (some a) f = f a

-- A syntax read off bits, with the bits behind it.
unfoldable pub parse : {A : Type 0} → Syntax A → List ℕ → Option (A × List ℕ)
parse (done a) bs = some (a, bs)
parse refuse bs = none
parse (bits_then n k) bs = and_then (read_bits n 0 bs) (λ r. parse (k r.0) r.1)
parse (ue_then k) bs = and_then (read_ue bs) (λ r. parse (k r.0) r.1)
parse (se_then k) bs = and_then (read_ue bs) (λ r. parse (k (unmapped r.0)) r.1)

-- A syntax that goes along a list of elements.
abbrev pub follow : {A : Type 0} → Syntax A → List Element → Option (A × List Element)
follow (done a) es = some (a, es)
follow (bits_then n k) (u v w ∷ es) =
    let next = follow (k (v % 2 ^ n)) es in if n == w then next else none
follow (ue_then k) (ue v ∷ es) = follow (k v) es
follow (se_then k) (se v ∷ es) = follow (k v) es
follow other es = none

taken : {A : Type 0} → Option (A × List Element) → Option A
taken none = none
taken (some (a, es)) = some a

left : {A : Type 0} → List Element → Option (A × List Element) → List Element
left d none = d
left d (some (a, es)) = es

-- The bits of elements that a syntax goes along are read by it.
pub parse-follow :
    {A : Type 0}
    → (s : Syntax A) (es : List Element) (a : A) (rest : List ℕ) → All HasCode es
    → follow s es ≡ some (a, [])
    → parse s (element_bits es ++ rest) ≡ some (a, rest)
unfolding parse element_bits taken left
parse-follow (done b) es a rest c e =
    ap (λ l. some (b, element_bits l ++ rest)) (ap (left []) e)
    ∙ ap (λ o. and_then o (λ x. some (x, rest))) (ap taken e)
parse-follow refuse es a rest c e = cc
parse-follow (bits_then n k) [] a rest c e = cc
parse-follow (bits_then n k) (ue v ∷ es) a rest c e = cc
parse-follow (bits_then n k) (se v ∷ es) a rest c e = cc
parse-follow (bits_then n k) (u v w ∷ es) a rest (c, cs) e = elim (Bool-cases (n == w)) [
  | inl same ↦
      let width : n ≡ w = (==_iff n w).0 same in
      let e' : follow (k (v % 2 ^ n)) es ≡ some (a, []) = rw same at e in
      ap (λ l. and_then (read_bits n 0 l) (λ r. parse (k r.0) r.1))
        (append_assoc (bits w v) (element_bits es) rest
          ∙ ap (λ (m : ℕ). bits m v ++ (element_bits es ++ rest)) (sym width))
      ∙ ap (λ o. and_then o (λ r. parse (k r.0) r.1)) (read_bits_low n v (element_bits es ++ rest))
      ∙ parse-follow (k (v % 2 ^ n)) es a rest cs e'
  | inr other ↦ let e' = rw other at e in cc
]
parse-follow (ue_then k) [] a rest c e = cc
parse-follow (ue_then k) (u v w ∷ es) a rest c e = cc
parse-follow (ue_then k) (se v ∷ es) a rest c e = cc
parse-follow (ue_then k) (ue v ∷ es) a rest (c, cs) e =
    ap (λ l. and_then (read_ue l) (λ r. parse (k r.0) r.1))
      (append_assoc (ue_bits v) (element_bits es) rest)
    ∙ ap (λ o. and_then o (λ r. parse (k r.0) r.1)) (read_ue-ue_bits v (element_bits es ++ rest) c)
    ∙ parse-follow (k v) es a rest cs e
parse-follow (se_then k) [] a rest c e = cc
parse-follow (se_then k) (u v w ∷ es) a rest c e = cc
parse-follow (se_then k) (ue v ∷ es) a rest c e = cc
parse-follow (se_then k) (se v ∷ es) a rest (c, cs) e =
    ap (λ l. and_then (read_ue l) (λ r. parse (k (unmapped r.0)) r.1))
      (append_assoc (ue_bits (mapped v)) (element_bits es) rest)
    ∙ ap (λ o. and_then o (λ r. parse (k (unmapped r.0)) r.1))
        (read_ue-ue_bits (mapped v) (element_bits es ++ rest) c)
    ∙ ap (λ x. parse (k x) (element_bits es ++ rest)) (unmapped-mapped v)
    ∙ parse-follow (k v) es a rest cs e
