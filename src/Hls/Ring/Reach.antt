-- ===== src/Hls/Ring/Reach.antt =====
-- The blocking reload: what `has_reached` answers, and that it stays answered.
use ferricast.Base.{
  ℕ, ◌+◌, ◌-◌, ◌^◌, ◌<◌, ◌≤◌, ◌≡◌, refl, sym, ap, ap₂, ◌∙◌, List, [], ◌∷◌, Option, none, some, Bool,
  true, false, arith, length, drop, length-drop, ltb, ◌==◌, if◌then◌else◌, if_ne, if_lt, if_ge,
  Bool-cases, inl, inr, get_elem?, get_elem?_past, get_elem?_inside, ltb→lt, lt→ltb, le→ltb,
  if_same,
}
use ferricast.Hls.Ring.{
  Segment, SegmentRing, Call, run, new, any_from, has_reached, reached_at, parts_reach,
  before_first,
}
use ferricast.Hls.Ring.Log.{Log, log, empty_log}
use ferricast.Hls.Ring.Refine.{Represents, run-Represents}
use ferricast.Hls.Ring.Lookup.{Numbered, Numbered-drop, IsNumbered, log-IsNumbered, get-Represents}

module _ {F : Type 0} where
  -- The parts of a log from `p` on under a number that is not closed, or closed as `s`.
  abbrev pub part_reached : Log F → ℕ → ℕ → Option (Segment F) → Bool
  part_reached l msn p (some s) = any_from p s.parts
  part_reached l msn p none = if msn == length l.closed then any_from p l.current else false

  -- What a reader may wait for: a number is reached when its segment is closed; a part when the
  -- segment with that number, closed or open, has a part of that index or a later one, or when the
  -- segment is no longer among the last `capacity`.
  abbrev pub reached : ℕ → Log F → ℕ → Option ℕ → Bool
  reached capacity l msn none = ltb msn (length l.closed)
  reached capacity l msn (some p) =
      if ltb msn (length l.closed - capacity)
      then true
      else part_reached l msn p (get_elem? l.closed msn)

  before_first-Numbered :
      (k : ℕ) (l : List (Segment F)) (msn : ℕ)
      → Numbered k l
      → 1 ≤ length l
      → before_first l msn ≡ ltb msn k
  unfolding before_first
  before_first-Numbered k [] msn h some_left = absurd (omega arith)
  before_first-Numbered k (s ∷ ss) msn (h, hs) some_left = ap (ltb msn) h

  before_first_past :
      (k : ℕ) (l : List (Segment F)) (msn : ℕ) → Numbered k l → k ≤ msn → before_first l msn ≡ false
  unfolding before_first
  before_first_past k [] msn h ge = refl
  before_first_past k (s ∷ ss) msn (h, hs) ge = le→ltb msn s.seq (omega arith)

  -- Before the first kept segment everything is reached.
  reached_at_evicted :
      (capacity : ℕ) (l : Log F) (r : SegmentRing F) (msn : ℕ) (part : Option ℕ)
      → 1 ≤ capacity
      → Represents capacity r l
      → IsNumbered l
      → msn < length l.closed - capacity
      → reached_at r msn part none ≡ true
  unfolding reached_at
  reached_at_evicted capacity l r msn part one h v lt =
      let k = length l.closed - capacity in
      if_ne msn r.next_seq (parts_reach r.pending_parts part false) (before_first r.segments msn)
        (λ e. omega (arith, h.next))
      ∙ ap (λ w. before_first w msn) h.window
      ∙ before_first-Numbered (0 + k) (drop k l.closed) msn (Numbered-drop k 0 l.closed v.segments)
          (omega (arith, length-drop k l.closed))
      ∙ lt→ltb msn (0 + k) (omega arith)

  -- A number that is not closed: its parts if it is the open one.
  reached_at_open :
      (capacity : ℕ) (l : Log F) (r : SegmentRing F) (msn : ℕ) (part : Option ℕ)
      → Represents capacity r l
      → IsNumbered l
      → length l.closed ≤ msn
      → reached_at r msn part none
        ≡ (if msn == length l.closed then parts_reach l.current part false else false)
  unfolding reached_at
  reached_at_open capacity l r msn part h v ge =
      let k = length l.closed - capacity in
      ap₂ (λ q w. if msn == q then parts_reach w part false else before_first r.segments msn) h.next
        h.pending
      ∙ ap (λ b. if msn == length l.closed then parts_reach l.current part false else b)
          (ap (λ w. before_first w msn) h.window
            ∙ before_first_past (0 + k) (drop k l.closed) msn
                (Numbered-drop k 0 l.closed v.segments) (omega arith))

  -- The specification in the same three ranges of numbers.
  reached_evicted :
      (capacity : ℕ) (l : Log F) (msn : ℕ) (part : Option ℕ)
      → msn < length l.closed - capacity
      → reached capacity l msn part ≡ true
  reached_evicted capacity l msn none lt = lt→ltb msn (length l.closed) (omega arith)
  reached_evicted capacity l msn (some p) lt =
      if_lt msn (length l.closed - capacity) true (part_reached l msn p (get_elem? l.closed msn)) lt

  reached_closed :
      (capacity : ℕ) (l : Log F) (msn : ℕ) (part : Option ℕ) (s : Segment F)
      → length l.closed - capacity ≤ msn
      → msn < length l.closed
      → get_elem? l.closed msn ≡ some s
      → reached capacity l msn part ≡ parts_reach s.parts part true
  unfolding parts_reach
  reached_closed capacity l msn none s ge lt e = lt→ltb msn (length l.closed) lt
  reached_closed capacity l msn (some p) s ge lt e =
      if_ge msn (length l.closed - capacity) true (part_reached l msn p (get_elem? l.closed msn)) ge
      ∙ ap (part_reached l msn p) e

  reached_open :
      (capacity : ℕ) (l : Log F) (msn : ℕ) (part : Option ℕ)
      → length l.closed ≤ msn
      → reached capacity l msn part
        ≡ (if msn == length l.closed then parts_reach l.current part false else false)
  unfolding parts_reach
  reached_open capacity l msn none ge =
      le→ltb msn (length l.closed) ge ∙ sym (if_same (msn == length l.closed) false)
  reached_open capacity l msn (some p) ge =
      if_ge msn (length l.closed - capacity) true (part_reached l msn p (get_elem? l.closed msn))
        (omega arith)
      ∙ ap (part_reached l msn p) (get_elem?_past l.closed msn ge)

  closed_at :
      (capacity : ℕ) (l : Log F) (r : SegmentRing F) (msn : ℕ) (part : Option ℕ)
      → length l.closed - capacity ≤ msn
      → msn < length l.closed
      → reached_at r msn part (get_elem? l.closed msn) ≡ reached capacity l msn part
  unfolding reached_at
  closed_at capacity l r msn part ge lt =
      let (s, e) = get_elem?_inside l.closed msn lt in
      ap (reached_at r msn part) e ∙ sym (reached_closed capacity l msn part s ge lt e)

  pub has_reached-Represents :
      (capacity : ℕ) (l : Log F) (r : SegmentRing F) (msn : ℕ) (part : Option ℕ)
      → 1 ≤ capacity
      → Represents capacity r l
      → IsNumbered l
      → has_reached r msn part ≡ reached capacity l msn part
  unfolding has_reached
  has_reached-Represents capacity l r msn part one h v =
      let k = length l.closed - capacity in
      ap (reached_at r msn part) (get-Represents capacity r l msn h v)
      ∙ elim (Bool-cases (ltb msn k)) [
        | inl e ↦
            let lt = ltb→lt msn k e in
            ap (reached_at r msn part) (if_lt msn k none (get_elem? l.closed msn) lt)
            ∙ reached_at_evicted capacity l r msn part one h v lt
            ∙ sym (reached_evicted capacity l msn part lt)
        | inr e ↦
            let ge : k ≤ msn = ground arith in
            ap (reached_at r msn part) (if_ge msn k none (get_elem? l.closed msn) ge)
            ∙ elim (Bool-cases (ltb msn (length l.closed))) [
              | inl e' ↦ closed_at capacity l r msn part ge (ltb→lt msn (length l.closed) e')
              | inr e' ↦
                  let past : length l.closed ≤ msn = ground arith in
                  ap (reached_at r msn part) (get_elem?_past l.closed msn past)
                  ∙ reached_at_open capacity l r msn part h v past
                  ∙ sym (reached_open capacity l msn part past)
            ]
      ]

  -- After fewer than 2 ^ 32 calls on a new ring with room for a segment, `has_reached` answers what
  -- the log says, for every number and part.
  pub has_reached-run :
      (capacity : ℕ) (cs : List (Call F)) (msn : ℕ) (part : Option ℕ)
      → 1 ≤ capacity
      → length cs < 2 ^ 32
      → has_reached (run (new capacity) cs) msn part ≡ reached capacity (log empty_log cs) msn part
  has_reached-run capacity cs msn part one h =
      has_reached-Represents capacity (log empty_log cs) (run (new capacity) cs) msn part one
        (run-Represents capacity cs h) (log-IsNumbered cs)
