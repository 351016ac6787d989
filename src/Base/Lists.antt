-- ===== src/Base/Lists.antt =====
-- Lists measured and indexed by native numbers, under the library's names.
use Prim.Native.Nat.{ℕ, zero, suc, ◌+◌, ◌-◌, ◌≤◌, ◌<◌, min}
use mathlib.Core.Path.{◌≡◌, refl, sym, ap, ◌∙◌}
use mathlib.Core.Bool.{Bool, true, false}
use mathlib.Core.Option.{Option, none, some}
use mathlib.Core.List.{List, [], ◌∷◌, ◌++◌, map}
use native.Mathlib.Omega.{arith}

module _ {ℓ} {A : Type ℓ} where
  abbrev pub length : List A → ℕ
  length [] = 0
  length (x ∷ xs) = suc (length xs)

  abbrev pub get_or : List A → ℕ → A → A
  get_or [] i d = d
  get_or (x ∷ xs) zero d = x
  get_or (x ∷ xs) (suc i) d = get_or xs i d

  abbrev pub take : ℕ → List A → List A
  take zero xs = []
  take (suc n) [] = []
  take (suc n) (x ∷ xs) = x ∷ take n xs

  abbrev pub drop : ℕ → List A → List A
  drop zero xs = xs
  drop (suc n) [] = []
  drop (suc n) (x ∷ xs) = drop n xs

  abbrev pub replicate : ℕ → A → List A
  replicate zero a = []
  replicate (suc n) a = a ∷ replicate n a

  abbrev pub All {κ} : (A → Type κ) → List A → Type κ
  All P [] = Unit {κ}
  All P (x ∷ xs) = P x × All P xs

  pub length-append : (xs ys : List A) → length (xs ++ ys) ≡ length xs + length ys
  length-append [] ys = omega arith
  length-append (x ∷ xs) ys = omega (arith, length-append xs ys)

  pub take-append-drop : (n : ℕ) (xs : List A) → take n xs ++ drop n xs ≡ xs
  take-append-drop zero xs = refl
  take-append-drop (suc n) [] = refl
  take-append-drop (suc n) (x ∷ xs) = ap (λ r. x ∷ r) (take-append-drop n xs)

  pub length-take : (n : ℕ) (xs : List A) → length (take n xs) ≡ min n (length xs)
  length-take zero xs = omega arith
  length-take (suc n) [] = omega arith
  length-take (suc n) (x ∷ xs) = omega (arith, length-take n xs)

  pub length-drop : (n : ℕ) (xs : List A) → length (drop n xs) ≡ length xs - n
  length-drop zero xs = omega arith
  length-drop (suc n) [] = omega arith
  length-drop (suc n) (x ∷ xs) = omega (arith, length-drop n xs)

  pub length-replicate : (n : ℕ) (a : A) → length (replicate n a) ≡ n
  length-replicate zero a = refl
  length-replicate (suc n) a = ap suc (length-replicate n a)

  pub take-append : (xs ys : List A) → take (length xs) (xs ++ ys) ≡ xs
  take-append [] ys = refl
  take-append (x ∷ xs) ys = ap (λ r. x ∷ r) (take-append xs ys)

  pub drop-append : (xs ys : List A) → drop (length xs) (xs ++ ys) ≡ ys
  drop-append [] ys = refl
  drop-append (x ∷ xs) ys = drop-append xs ys

  pub take_all : (n : ℕ) (xs : List A) → length xs ≤ n → take n xs ≡ xs
  take_all zero [] h = refl
  take_all zero (x ∷ xs) h = absurd (omega arith)
  take_all (suc n) [] h = refl
  take_all (suc n) (x ∷ xs) h = ap (λ r. x ∷ r) (take_all n xs (omega arith))

  pub drop_all : (n : ℕ) (xs : List A) → length xs ≤ n → drop n xs ≡ []
  drop_all zero [] h = refl
  drop_all zero (x ∷ xs) h = absurd (omega arith)
  drop_all (suc n) [] h = refl
  drop_all (suc n) (x ∷ xs) h = drop_all n xs (omega arith)

  pub All-append {κ} : (P : A → Type κ) (xs ys : List A) → All P xs → All P ys → All P (xs ++ ys)
  All-append P [] ys h k = k
  All-append P (x ∷ xs) ys (h, hs) k = (h, All-append P xs ys hs k)

pub length-map {ℓ κ} :
    {A : Type ℓ} {B : Type κ} (xs : List A) (f : A → B) → length (map f xs) ≡ length xs
length-map [] f = refl
length-map (x ∷ xs) f = ap suc (length-map xs f)

module _ {ℓ} {A : Type ℓ} where
  pub take_past : (k : ℕ) (xs ys : List A) → take (length xs + k) (xs ++ ys) ≡ xs ++ take k ys
  take_past k [] ys = ap (λ n. take n ys) (let e : 0 + k ≡ k = omega arith in e)
  take_past k (x ∷ xs) ys =
      ap (λ n. take n (x ∷ xs ++ ys))
        (let e : suc (length xs) + k ≡ suc (length xs + k) = omega arith in e)
      ∙ ap (λ r. x ∷ r) (take_past k xs ys)

  pub drop_past : (k : ℕ) (xs ys : List A) → drop (length xs + k) (xs ++ ys) ≡ drop k ys
  drop_past k [] ys = ap (λ n. drop n ys) (let e : 0 + k ≡ k = omega arith in e)
  drop_past k (x ∷ xs) ys =
      ap (λ n. drop n (x ∷ xs ++ ys))
        (let e : suc (length xs) + k ≡ suc (length xs + k) = omega arith in e)
      ∙ drop_past k xs ys

abbrev pub is_empty {ℓ} : {A : Type ℓ} → List A → Bool
is_empty [] = true
is_empty (_ ∷ _) = false

pub is_empty→nil {ℓ} : {A : Type ℓ} (l : List A) → is_empty l ≡ true → l ≡ []
is_empty→nil [] e = refl
is_empty→nil (x ∷ xs) e = cc

module _ {ℓ} {A : Type ℓ} where
  pub drop-nil : (n : ℕ) → drop {A = A} n [] ≡ []
  drop-nil zero = refl
  drop-nil (suc n) = refl

  pub drop-drop : (a k : ℕ) (l : List A) → drop a (drop k l) ≡ drop (k + a) l
  drop-drop a zero l = ap (λ n. drop n l) (let e : a ≡ 0 + a = omega arith in e)
  drop-drop a (suc k) [] = drop-nil a ∙ sym (drop-nil (suc k + a))
  drop-drop a (suc k) (x ∷ xs) =
      drop-drop a k xs
      ∙ ap (λ n. drop n (x ∷ xs)) (let e : suc (k + a) ≡ suc k + a = omega arith in e)

  pub drop_inside : (k : ℕ) (l more : List A) → k ≤ length l → drop k l ++ more ≡ drop k (l ++ more)
  drop_inside zero l more h = refl
  drop_inside (suc k) [] more h = absurd (omega arith)
  drop_inside (suc k) (x ∷ xs) more h = drop_inside k xs more (omega arith)

  -- The last `n` of a list.
  abbrev pub last : ℕ → List A → List A
  last n l = drop (length l - n) l

  pub last-snoc : (n : ℕ) (l : List A) (x : A) → last n (last n l ++ x ∷ []) ≡ last n (l ++ x ∷ [])
  last-snoc n l x =
      let k = length l - n in
      let inside : drop k l ++ x ∷ [] ≡ drop k (l ++ x ∷ []) =
        drop_inside k l (x ∷ []) (omega arith) in
      let a = length (drop k (l ++ x ∷ [])) - n in
      ap (last n) inside
      ∙ drop-drop a k (l ++ x ∷ [])
      ∙ ap (λ i. drop i (l ++ x ∷ []))
          (let e : k + a ≡ length (l ++ x ∷ []) - n =
              omega (arith, length-drop k (l ++ x ∷ []), length-append l (x ∷ [])) in
            e)

module _ {ℓ} {A : Type ℓ} where
  abbrev pub get_elem? : List A → ℕ → Option A
  get_elem? [] i = none
  get_elem? (x ∷ xs) zero = some x
  get_elem? (x ∷ xs) (suc i) = get_elem? xs i

  pub get_elem?_past : (l : List A) (i : ℕ) → length l ≤ i → get_elem? l i ≡ none
  get_elem?_past [] i h = refl
  get_elem?_past (x ∷ xs) zero h = absurd (omega arith)
  get_elem?_past (x ∷ xs) (suc i) h = get_elem?_past xs i (omega arith)

  pub get_elem?-drop : (k : ℕ) (l : List A) (i : ℕ) → get_elem? (drop k l) i ≡ get_elem? l (k + i)
  get_elem?-drop zero l i = ap (get_elem? l) (let e : i ≡ 0 + i = omega arith in e)
  get_elem?-drop (suc k) [] i = refl
  get_elem?-drop (suc k) (x ∷ xs) i =
      get_elem?-drop k xs i
      ∙ ap (get_elem? (x ∷ xs)) (let e : suc (k + i) ≡ suc k + i = omega arith in e)

  pub get_elem?_inside : (l : List A) (i : ℕ) → i < length l → (a : A) × (get_elem? l i ≡ some a)
  get_elem?_inside [] i h = absurd (omega arith)
  get_elem?_inside (x ∷ xs) zero h = (x, refl)
  get_elem?_inside (x ∷ xs) (suc i) h = get_elem?_inside xs i (omega arith)

  pub get_elem?-append :
      (xs ys : List A) (i : ℕ) → i < length xs → get_elem? (xs ++ ys) i ≡ get_elem? xs i
  get_elem?-append [] ys i h = absurd (omega arith)
  get_elem?-append (x ∷ xs) ys zero h = refl
  get_elem?-append (x ∷ xs) ys (suc i) h = get_elem?-append xs ys i (omega arith)

  pub get_elem?-snoc : (xs : List A) (x : A) → get_elem? (xs ++ x ∷ []) (length xs) ≡ some x
  get_elem?-snoc [] x = refl
  get_elem?-snoc (y ∷ ys) x = get_elem?-snoc ys x
