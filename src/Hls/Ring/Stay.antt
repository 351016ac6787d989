-- ===== src/Hls/Ring/Stay.antt =====
-- A reader that was let through is not held up again by a later call of the segmenter.
use ferricast.Base.{
  ℕ, ◌+◌, ◌-◌, ◌%◌, ◌^◌, ◌<◌, ◌≤◌, ◌≡◌, refl, sym, ap, ◌∙◌, List, [], ◌∷◌, ◌++◌, Option, none, some,
  Bool, true, false, arith, length, length-append, ltb, if_eq, if_ne, if_lt, if_ge, Bool-cases, inl,
  inr, get_elem?, get_elem?_past, get_elem?_inside, get_elem?-append, get_elem?-snoc, ltb→lt,
  lt→ltb, compare_cases,
}
use ferricast.Hls.Ring.{
  Part, Segment, SegmentRing, Call, low_latency, part_flushed, pushed, completed, run, step, new,
  any_from, has_reached, push_pending_part,
}
use ferricast.Hls.Ring.Log.{Log, log_step, log, empty_log, new_part, new_segment}
use ferricast.Hls.Ring.Refine.{run-Represents}
use ferricast.Hls.Ring.Reach.{reached, part_reached, has_reached-run}

module _ {F : Type 0} where
  -- A plain push drops the parts that are pending, so it may only come when there are none.
  abbrev pub DropsNothing : Log F → Call F → Type 0
  DropsNothing l (low_latency t) = Unit
  DropsNothing l (part_flushed d i bytes now) = Unit
  DropsNothing l (pushed d disc bytes now) = l.current ≡ []
  DropsNothing l (completed d disc bytes now) = Unit

  any_from-append :
      (p : ℕ) (xs ys : List (Part F)) → any_from p xs ≡ true → any_from p (xs ++ ys) ≡ true
  unfolding any_from
  any_from-append p [] ys h = cc
  any_from-append p (x ∷ xs) ys h = ground (arith, any_from-append p xs ys)

  -- What a closed log says of a number that is not evicted.
  closes-part_reached :
      (l : Log F) (s : Segment F) (msn p : ℕ)
      → s.parts ≡ l.current
      → part_reached l msn p (get_elem? l.closed msn) ≡ true
      → part_reached
          (record { closed = l.closed ++ s ∷ []; current = [] })
          msn
          p
          (get_elem? (l.closed ++ s ∷ []) msn)
        ≡ true
  closes-part_reached l s msn p e h =
      let l' : Log F = record { closed = l.closed ++ s ∷ []; current = [] } in
      elim (compare_cases msn (length l.closed)) [
        | inl lt ↦
            let (a, found) = get_elem?_inside l.closed msn lt in
            ap (part_reached l' msn p) (get_elem?-append l.closed (s ∷ []) msn lt ∙ found)
            ∙ sym (ap (part_reached l msn p) found)
            ∙ h
        | inr (inl eq) ↦
            ap (part_reached l' msn p)
              (ap (get_elem? (l.closed ++ s ∷ [])) eq ∙ get_elem?-snoc l.closed s)
            ∙ ap (any_from p) e
            ∙ sym (if_eq msn (length l.closed) (any_from p l.current) false eq)
            ∙ sym (ap (part_reached l msn p) (get_elem?_past l.closed msn (omega arith)))
            ∙ h
        | inr (inr gt) ↦
            let no : false ≡ true =
              sym (if_ne msn (length l.closed) (any_from p l.current) false (λ q. omega arith))
              ∙ sym (ap (part_reached l msn p) (get_elem?_past l.closed msn (omega arith)))
              ∙ h in
            cc
      ]

  -- Closing a segment that keeps the open parts.
  closes-reached :
      (capacity : ℕ) (l : Log F) (s : Segment F) (msn : ℕ) (part : Option ℕ)
      → s.parts ≡ l.current
      → reached capacity l msn part ≡ true
      → reached capacity (record { closed = l.closed ++ s ∷ []; current = [] }) msn part ≡ true
  closes-reached capacity l s msn none e h =
      lt→ltb msn (length (l.closed ++ s ∷ []))
        (omega (arith, length-append l.closed (s ∷ []), ltb→lt msn (length l.closed) h))
  closes-reached capacity l s msn (some p) e h =
      let l' : Log F = record { closed = l.closed ++ s ∷ []; current = [] } in
      let k = length l.closed - capacity in
      let k' = length l'.closed - capacity in
      elim (Bool-cases (ltb msn k')) [
        | inl c ↦
            if_lt msn k' true (part_reached l' msn p (get_elem? l'.closed msn)) (ltb→lt msn k' c)
        | inr c ↦
            let ge : k' ≤ msn = ground arith in
            if_ge msn k' true (part_reached l' msn p (get_elem? l'.closed msn)) ge
            ∙ closes-part_reached l s msn p e (
                sym (
                  if_ge msn k true (part_reached l msn p (get_elem? l.closed msn))
                    (omega (arith, length-append l.closed (s ∷ []))))
                ∙ h)
      ]

  flushes-reached :
      (capacity : ℕ) (l : Log F) (x : Part F) (msn : ℕ) (part : Option ℕ)
      → reached capacity l msn part ≡ true
      → reached capacity (record l { current = l.current ++ x ∷ [] }) msn part ≡ true
  flushes-reached capacity l x msn none h = h
  flushes-reached capacity l x msn (some p) h = ground (arith, any_from-append p l.current (x ∷ []))

  log_step-reached :
      (capacity : ℕ) (l : Log F) (c : Call F) (msn : ℕ) (part : Option ℕ)
      → DropsNothing l c
      → reached capacity l msn part ≡ true
      → reached capacity (log_step l c) msn part ≡ true
  unfolding log_step
  log_step-reached capacity l (low_latency t) msn part d h = h
  log_step-reached capacity l (part_flushed dur i bytes now) msn part d h =
      flushes-reached capacity l (new_part l dur i bytes now) msn part h
  log_step-reached capacity l (pushed dur disc bytes now) msn part d h =
      closes-reached capacity l (new_segment l dur disc bytes [] now) msn part (sym d) h
  log_step-reached capacity l (completed dur disc bytes now) msn part d h =
      closes-reached capacity l (new_segment l dur disc bytes l.current now) msn part refl h

  run-snoc :
      (r : SegmentRing F) (cs : List (Call F)) (c : Call F)
      → run r (cs ++ c ∷ []) ≡ step (run r cs) c
  unfolding run
  run-snoc r [] c = refl
  run-snoc r (x ∷ xs) c = run-snoc (step r x) xs c

  log-snoc :
      (l : Log F) (cs : List (Call F)) (c : Call F) → log l (cs ++ c ∷ []) ≡ log_step (log l cs) c
  unfolding log
  log-snoc l [] c = refl
  log-snoc l (x ∷ xs) c = log-snoc (log_step l x) xs c

  -- In a ring with room for a segment, what was reached stays reached at any next call (the calls
  -- together fewer than 2 ^ 32), unless that is a plain push while parts are pending.
  pub has_reached-step :
      (capacity : ℕ) (cs : List (Call F)) (c : Call F) (msn : ℕ) (part : Option ℕ)
      → 1 ≤ capacity
      → length cs + 1 < 2 ^ 32
      → DropsNothing (log empty_log cs) c
      → has_reached (run (new capacity) cs) msn part ≡ true
      → has_reached (step (run (new capacity) cs) c) msn part ≡ true
  has_reached-step capacity cs c msn part one room drops h =
      ap (λ r. has_reached r msn part) (sym (run-snoc (new capacity) cs c))
      ∙ has_reached-run capacity (cs ++ c ∷ []) msn part one
          (omega (arith, length-append cs (c ∷ [])))
      ∙ ap (λ l. reached capacity l msn part) (log-snoc empty_log cs c)
      ∙ log_step-reached capacity (log empty_log cs) c msn part drops
          (sym (has_reached-run capacity cs msn part one (omega arith)) ∙ h)

  any_from-snoc :
      (p : ℕ) (xs : List (Part F)) (x : Part F) → p ≤ x.idx → any_from p (xs ++ x ∷ []) ≡ true
  unfolding any_from
  any_from-snoc p [] x h = ground arith
  any_from-snoc p (y ∷ ys) x h = ground (arith, any_from-snoc p ys x)

  flushed-reached :
      (capacity : ℕ) (l : Log F) (d : F) (i : Bool) (bytes : List ℕ) (now msn idx : ℕ)
      → msn ≡ length l.closed
      → idx ≤ length l.current
      → reached capacity (log_step l (part_flushed d i bytes now)) msn (some idx) ≡ true
  unfolding log_step
  flushed-reached capacity l d i bytes now msn idx e le =
      let x = new_part l d i bytes now in
      let l' : Log F = record l { current = l.current ++ x ∷ [] } in
      if_ge msn (length l.closed - capacity) true (part_reached l' msn idx (get_elem? l.closed msn))
        (omega arith)
      ∙ ap (part_reached l' msn idx) (get_elem?_past l.closed msn (omega arith))
      ∙ if_eq msn (length l.closed) (any_from idx (l.current ++ x ∷ [])) false e
      ∙ any_from-snoc idx l.current x le

  -- The pair that `push_pending_part` answers is reached at once (a ring with room for a segment,
  -- fewer than 2 ^ 32 calls): the woken reader is let through.
  pub push_pending_part-reached :
      (capacity : ℕ) (cs : List (Call F)) (d : F) (i : Bool) (bytes : List ℕ) (now : ℕ)
      → 1 ≤ capacity
      → length cs + 1 < 2 ^ 32
      → let ((msn, idx), r) = push_pending_part (run (new capacity) cs) d i bytes now in
        has_reached r msn (some idx) ≡ true
  unfolding push_pending_part step
  push_pending_part-reached capacity cs d i bytes now one room =
      let r : SegmentRing F = run (new capacity) cs in
      let l : Log F = log empty_log cs in
      let c : Call F = part_flushed d i bytes now in
      let h = run-Represents capacity cs (omega arith) in
      let idx = length r.pending_parts % 2 ^ 32 in
      ap (λ q. has_reached q r.next_seq (some idx)) (sym (run-snoc (new capacity) cs c))
      ∙ has_reached-run capacity (cs ++ c ∷ []) r.next_seq (some idx) one
          (omega (arith, length-append cs (c ∷ [])))
      ∙ ap (λ q. reached capacity q r.next_seq (some idx)) (log-snoc empty_log cs c)
      ∙ flushed-reached capacity l d i bytes now r.next_seq idx h.next
          (omega (arith, ap length h.pending))
