-- ===== src/Hls/Http/Ranges.antt =====
-- What the handler makes of a `Range` header.
use ferricast.Base.{
  ℕ, zero, suc, ◌+◌, ◌-◌, ◌≤◌, ◌<◌, ◌≡◌, refl, ap, ◌∙◌, ◌↔◌, List, [], ◌∷◌, ◌++◌, Option, none,
  some, ltb, leb, arith, length, take, drop, Bool-cases, inl, inr, get_elem?, get_elem?-drop,
}
use ferricast.Base.Words.{u64_max}
use ferricast.Text.{
  Bytes, codes, show, contains_byte, parse_uint, trim, trim_start, trim_end_matches,
}
use ferricast.Text.Laws.{Lacks, Lacks-append, strip_prefix-append, split_once-append}
use ferricast.Text.Numbers.{parse_uint-show, trim-show, length-show}
use ferricast.Hls.Http.Paths.{show-Lacks}
use ferricast.Hls.Http.{Range, range_end, range_bounds, parse_range, resolve_range, last_byte}
use ferricast.Hls.Http.Handler.{sent_interval, slice}

-- The positions that a range asks for in a body.
abbrev pub Asked : Range → ℕ → ℕ → Type 0
Asked (start, none) total i = (start ≤ i) × (i < total)
Asked (start, some last) total i = (start ≤ i) × (i ≤ last) × (i < total)

abbrev pub Covered : Option (ℕ × ℕ) → ℕ → Type 0
Covered none i = ⊥
Covered (some (a, b)) i = (a ≤ i) × (i < b)

resolve_range-Covered :
    (range : Range) (total i : ℕ)
    → Covered (resolve_range (some range) total) i ↔ Asked range total i
unfolding resolve_range
resolve_range-Covered (start, none) total i = ground arith
resolve_range-Covered (start, some last) total i = ground arith

-- An answer for a body of `total` bytes: no interval, or one that is not empty and lies in the body.
abbrev pub IsInterval : ℕ → Option (ℕ × ℕ) → Type 0
IsInterval total none = Unit {0}
IsInterval total (some (a, b)) = (a < b) × (b ≤ total)

-- What is cut out of the body is an interval that is not empty and ends within the body, or there is
-- no interval; and it has a position `i` exactly if the body has it and the range asks for it.
pub resolve_range-IsInterval :
    (range : Range) (total i : ℕ)
    → IsInterval total (resolve_range (some range) total)
      × (Covered (resolve_range (some range) total) i ↔ Asked range total i)
unfolding resolve_range
resolve_range-IsInterval (start, none) total i =
    (ground arith, resolve_range-Covered (start, none) total i)
resolve_range-IsInterval (start, some last) total i =
    (ground arith, resolve_range-Covered (start, some last) total i)

Starts : ℕ → Option (ℕ × ℕ) → Type 0
Starts start none = Unit
Starts start (some (a, b)) = a ≡ start

resolve_range-Starts :
    (start : ℕ) (last : Option ℕ) (total : ℕ)
    → Starts start (resolve_range (some (start, last)) total)
unfolding resolve_range Starts
resolve_range-Starts start last total = elim (Bool-cases (leb total start)) [
  | inl e ↦ rw e tt
  | inr e ↦ elim (Bool-cases (ltb (last_byte last total) start)) [
    | inl e' ↦ rw e (rw e' tt)
    | inr e' ↦ rw e (rw e' refl)
  ]
]

get_elem?-take :
    {A : Type 0} → (n : ℕ) (l : List A) (i : ℕ) → i < n → get_elem? (take n l) i ≡ get_elem? l i
get_elem?-take zero l i h = absurd (omega arith)
get_elem?-take (suc n) [] i h = refl
get_elem?-take (suc n) (x ∷ xs) zero h = refl
get_elem?-take (suc n) (x ∷ xs) (suc i) h = get_elem?-take n xs i (omega arith)

slice-elem :
    (o : Option (ℕ × ℕ)) (start : ℕ) (body : Bytes) (i : ℕ)
    → Starts start o
    → Covered o i
    → get_elem? (slice (sent_interval o (length body)) body) (i - start) ≡ get_elem? body i
unfolding Starts
slice-elem none start body i e x = elim x [ ]
slice-elem (some (a, b)) start body i e (lo, hi) =
    get_elem?-take (b - a) (drop a body) (i - start) (omega (arith, e, lo, hi))
    ∙ get_elem?-drop a body (i - start)
    ∙ ap (get_elem? body) (let q : a + (i - start) ≡ i = omega (arith, e, lo) in q)

-- Every byte of the body that a range asks for is sent, at its distance from the range's start.
pub sent-Asked :
    (start : ℕ) (last : Option ℕ) (body : Bytes) (i : ℕ)
    → Asked (start, last) (length body) i
    → get_elem?
        (slice
          (sent_interval (resolve_range (some (start, last)) (length body)) (length body))
          body)
        (i - start)
      ≡ get_elem? body i
sent-Asked start last body i asked =
    slice-elem (resolve_range (some (start, last)) (length body)) start body i
      (resolve_range-Starts start last (length body))
      ((resolve_range-Covered (start, last) (length body) i).1 asked)

range_end-parsed :
    (s : Bytes) (n : ℕ) → 1 ≤ length s → parse_uint u64_max s ≡ some n → range_end s ≡ some (some n)
unfolding range_end
range_end-parsed [] n some_left e = absurd (omega arith)
range_end-parsed (b ∷ bs) n some_left e = rw e refl

abbrev pub shown_end : Option ℕ → Bytes
shown_end none = []
shown_end (some last) = show last

abbrev pub FitsU64 : Option ℕ → Type 0
FitsU64 none = Unit
FitsU64 (some last) = last ≤ u64_max

range_end-shown : (last : Option ℕ) → FitsU64 last → range_end (trim (shown_end last)) ≡ some last
unfolding range_end trim trim_start trim_end_matches
range_end-shown none h = refl
range_end-shown (some last) h =
    ap range_end (trim-show last)
    ∙ range_end-parsed (show last) last (length-show last) (parse_uint-show u64_max last h)

shown_end-Lacks : (last : Option ℕ) → Lacks 44 (shown_end last)
unfolding contains_byte
shown_end-Lacks none = refl
shown_end-Lacks (some last) = show-Lacks 44 last (λ (lo, hi). omega (arith, lo))

no_comma : (start : ℕ) (last : Option ℕ) → Lacks 44 (show start ++ 45 ∷ shown_end last)
unfolding contains_byte
no_comma start last =
    Lacks-append 44 (show start) (45 ∷ shown_end last)
      (show-Lacks 44 start (λ (lo, hi). omega (arith, lo))) (shown_end-Lacks last)

-- A range as a client writes it: `bytes=<start>-<last>`, or `bytes=<start>-`.
abbrev pub range_value : ℕ → Option ℕ → Bytes
range_value start last = codes "bytes=" ++ (show start ++ 45 ∷ shown_end last)

-- The handler reads back the range that a client writes, with and without an end, where its numbers
-- fit 64 bits.
pub parse_range-value :
    (start : ℕ) (last : Option ℕ)
    → start ≤ u64_max
    → FitsU64 last
    → parse_range (range_value start last) ≡ some (start, last)
unfolding parse_range range_bounds
parse_range-value start last h k =
    rw (strip_prefix-append (codes "bytes=") (show start ++ 45 ∷ shown_end last)) (
      rw (no_comma start last) (
        rw
          (split_once-append 45 (show start) (shown_end last)
            (show-Lacks 45 start (λ (lo, hi). omega (arith, lo))))
          (rw (trim-show start)
            (rw (parse_uint-show u64_max start h) (rw (range_end-shown last k) refl)))))
