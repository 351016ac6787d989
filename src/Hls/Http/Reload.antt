-- ===== src/Hls/Http/Reload.antt =====
-- The blocking reload of the playlist: which queries ask for it, and what the wait ends with.
use ferricast.Base.{
  ℕ, ◌≤◌, ◌≡◌, refl, ap, ◌∙◌, List, [], ◌∷◌, ◌++◌, Option, none, some, Bool, ◌||◌, ◌==◌, arith,
  Bool-cases, inl, inr, length,
}
use ferricast.Base.Words.{u32_max, u64_max}
use ferricast.Text.{Bytes, codes, show, bytes_eq, split_once, split, keep_first, contains_byte}
use ferricast.Text.Laws.{Lacks, split_once-none, split-append, split-none}
use ferricast.Text.Numbers.{parse_uint-show}
use ferricast.Hls.Ring.{SegmentRing, has_reached}
use ferricast.Hls.Http.{◌>>=◌, reload_loop, reload_key, parse_blocking_reload}
use ferricast.Hls.Http.Handler.{wait_for_msn}
use ferricast.Hls.Http.Paths.{show-Lacks}

show-amp : (n : ℕ) → Lacks 38 (show n)
show-amp n = show-Lacks 38 n (λ (lo, hi). omega (arith, lo))

abbrev pub msn_pair : ℕ → Bytes
msn_pair msn = codes "_HLS_msn=" ++ show msn

abbrev pub part_pair : ℕ → Bytes
part_pair part = codes "_HLS_part=" ++ show part

msn_pair-Lacks : (msn : ℕ) → Lacks 38 (msn_pair msn)
unfolding contains_byte
msn_pair-Lacks msn = show-amp msn

part_pair-Lacks : (part : ℕ) → Lacks 38 (part_pair part)
unfolding contains_byte
part_pair-Lacks part = show-amp part

msn_pair-split : (msn : ℕ) → split_once 61 (msn_pair msn) ≡ some (codes "_HLS_msn", show msn)
unfolding split_once
msn_pair-split msn = refl

part_pair-split : (part : ℕ) → split_once 61 (part_pair part) ≡ some (codes "_HLS_part", show part)
unfolding split_once
part_pair-split part = refl

msn_key :
    (msn : ℕ) (found : Option ℕ × Option ℕ)
    → msn ≤ u64_max
    → reload_key (codes "_HLS_msn") (show msn) found ≡ (some msn, found.1)
unfolding bytes_eq
msn_key msn (m, p) h = ap (λ n. (n, p)) (parse_uint-show u64_max msn h)

part_key :
    (part : ℕ) (found : Option ℕ × Option ℕ)
    → part ≤ u32_max
    → reload_key (codes "_HLS_part") (show part) found ≡ (found.0, some part)
unfolding bytes_eq
part_key part (m, p) h = ap (λ n. (m, n)) (parse_uint-show u32_max part h)

-- The queries `_HLS_msn=<msn>&_HLS_part=<part>` and `_HLS_part=<part>&_HLS_msn=<msn>` ask for that
-- segment and that part, and `_HLS_msn=<msn>` for the segment, where the numbers fit their types.
pub parse_blocking_reload-pairs :
    (msn part : ℕ)
    → msn ≤ u64_max
    → part ≤ u32_max
    → (parse_blocking_reload (msn_pair msn ++ 38 ∷ part_pair part) ≡ some (msn, some part))
      × (parse_blocking_reload (part_pair part ++ 38 ∷ msn_pair msn) ≡ some (msn, some part))
      × (parse_blocking_reload (msn_pair msn) ≡ some (msn, none))
unfolding parse_blocking_reload reload_loop
parse_blocking_reload-pairs msn part h k = (
  rw (split-append 38 (msn_pair msn) (part_pair part) (msn_pair-Lacks msn)) (
      rw (split-none 38 (part_pair part) (part_pair-Lacks part)) (
        rw (msn_pair-split msn) (
          rw (msn_key msn (none, none) h)
            (rw (part_pair-split part) (rw (part_key part (some msn, none) k) refl))))),
  rw (split-append 38 (part_pair part) (msn_pair msn) (part_pair-Lacks part)) (
      rw (split-none 38 (msn_pair msn) (msn_pair-Lacks msn)) (
        rw (part_pair-split part) (
          rw (part_key part (none, none) k)
            (rw (msn_pair-split msn) (rw (msn_key msn (none, some part) h) refl))))),
  rw (split-none 38 (msn_pair msn) (msn_pair-Lacks msn))
      (rw (msn_pair-split msn) (rw (msn_key msn (none, none) h) refl)),
)

keep_first-snoc :
    (b : ℕ) (ws : List Bytes) (r : Bytes)
    → 1 ≤ length ws
    → keep_first b (ws ++ r ∷ []) ≡ keep_first b ws ++ r ∷ []
keep_first-snoc b [] r h = absurd (omega arith)
keep_first-snoc b (w ∷ ws) r h = refl

length-keep_first : (b : ℕ) (ws : List Bytes) → 1 ≤ length (keep_first b ws)
length-keep_first b [] = omega arith
length-keep_first b (w ∷ ws) = omega arith

length-split : (c : ℕ) (s : Bytes) → 1 ≤ length (split c s)
unfolding split
length-split c [] = omega arith
length-split c (b ∷ bs) = ground (arith, length-keep_first b (split c bs))

split-snoc : (c : ℕ) (l r : Bytes) → Lacks c r → split c (l ++ c ∷ r) ≡ split c l ++ r ∷ []
unfolding split contains_byte
split-snoc c [] r h = split-append c [] r refl ∙ ap (λ w. [] ∷ w) (split-none c r h)
split-snoc c (b ∷ bs) r h = elim (Bool-cases (b == c)) [
  | inl e ↦ rw e (ap (λ w. [] ∷ w) (split-snoc c bs r h))
  | inr e ↦ rw e (
      ap (keep_first b) (split-snoc c bs r h)
      ∙ keep_first-snoc b (split c bs) r (length-split c bs))
]

bind-none :
    {A B : Type 0} → (o : Option A) (g : A → Option B) → ((a : A) → g a ≡ none) → (o >>= g) ≡ none
bind-none none g h = refl
bind-none (some a) g h = h a

reload_loop-snoc :
    (pairs : List Bytes) (junk : Bytes) (found : Option ℕ × Option ℕ)
    → Lacks 61 junk
    → reload_loop (pairs ++ junk ∷ []) found ≡ none
unfolding reload_loop
reload_loop-snoc [] junk found h = rw (split_once-none 61 junk h) refl
reload_loop-snoc (p ∷ ps) junk found h =
    bind-none (split_once 61 p) _ (λ (k, v). reload_loop-snoc ps junk (reload_key k v found) h)

-- A query that ends in a pair without `=` is not taken for a blocking reload, whatever stands before
-- it.
pub parse_blocking_reload_bare :
    (query junk : Bytes)
    → Lacks 38 junk
    → Lacks 61 junk
    → parse_blocking_reload (query ++ 38 ∷ junk) ≡ none
unfolding parse_blocking_reload
parse_blocking_reload_bare [] junk h k =
    rw (split-snoc 38 [] junk h) (rw (reload_loop-snoc (split 38 []) junk (none, none) k) refl)
parse_blocking_reload_bare (b ∷ bs) junk h k =
    rw (split-snoc 38 (b ∷ bs) junk h)
      (rw (reload_loop-snoc (split 38 (b ∷ bs)) junk (none, none) k) refl)

module _ {F : Type 0} where
  abbrev pub any_reached : SegmentRing F → List (SegmentRing F) → ℕ → Option ℕ → Bool
  any_reached ring [] msn part = has_reached ring msn part
  any_reached ring (next ∷ later) msn part =
      has_reached ring msn part || any_reached next later msn part

  -- The wait succeeds exactly if some state of the ring before the deadline has reached the point
  -- that was asked for, and the state it goes on with has reached it exactly if the wait succeeded.
  pub wait_for_msn-any_reached :
      (ring : SegmentRing F) (later : List (SegmentRing F)) (msn : ℕ) (part : Option ℕ)
      → ((wait_for_msn ring later msn part).0 ≡ any_reached ring later msn part)
        × (has_reached (wait_for_msn ring later msn part).1 msn part
            ≡ (wait_for_msn ring later msn part).0)
  unfolding wait_for_msn
  wait_for_msn-any_reached ring [] msn part = (refl, refl)
  wait_for_msn-any_reached ring (next ∷ later) msn part =
      let (waited, same) = wait_for_msn-any_reached next later msn part in
      elim (Bool-cases (has_reached ring msn part)) [
        | inl e ↦ rw e (refl, e)
        | inr e ↦ rw e (waited, same)
      ]
