-- ===== src/Hls/Ring/Refine.antt =====
-- The ring implements the log: it holds its last segments.
use ferricast.Base.{
  ℕ, suc, ◌+◌, ◌-◌, ◌%◌, ◌^◌, ◌<◌, ◌≡◌, refl, sym, ap, ap₂, ◌∙◌, subst, List, [], ◌∷◌, ◌++◌, Bool,
  arith, length, drop, length-append, last, last-snoc, drop-nil, ltb, ltb→lt, Bool-cases, inl, inr,
}
use ferricast.Hls.Ring.{
  Part, Segment, SegmentRing, Call, low_latency, part_flushed, pushed, completed, evict, step, run,
  new, enable_low_latency, push_pending_part, push, push_with_parts, complete_pending_segment,
}
use ferricast.Hls.Ring.Log.{Log, log_step, log, empty_log, new_part, new_segment}

module _ {F : Type 0} where
  -- The eviction loop leaves the last `capacity` segments.
  pub evict-last : (capacity : ℕ) (l : List (Segment F)) → evict capacity l ≡ last capacity l
  unfolding evict
  evict-last capacity [] = sym (drop-nil (0 - capacity))
  evict-last capacity (s ∷ ss) = elim (Bool-cases (ltb capacity (suc (length ss)))) [
    | inl e ↦
        (rw e (evict-last capacity ss))
        ∙ ap (λ n. drop n (s ∷ ss))
            (let k : suc (length ss - capacity) ≡ suc (length ss) - capacity =
                omega (arith, ltb→lt capacity (suc (length ss)) e) in
              k)
    | inr e ↦
        rw e
          (ap (λ n. drop n (s ∷ ss)) (let k : 0 ≡ suc (length ss) - capacity = ground arith in k))
  ]

  -- A ring of this capacity holds the end of the log.
  pub record Represents (capacity : ℕ) (r : SegmentRing F) (l : Log F) : Type 0 where
    pub size : r.capacity ≡ capacity
    pub window : r.segments ≡ last capacity l.closed
    pub next : r.next_seq ≡ length l.closed
    pub pending : r.pending_parts ≡ l.current

  new-Represents : (capacity : ℕ) → Represents capacity (new capacity) empty_log
  unfolding new
  new-Represents capacity = record {
    size = refl;
    window = sym (drop-nil (0 - capacity));
    next = refl;
    pending = refl;
  }

  abbrev segment_at : ℕ → F → Bool → List ℕ → List (Part F) → ℕ → Segment F
  segment_at seq d disc bytes parts now = record {
    seq = seq;
    duration_secs = d;
    discontinuity = disc;
    produced_at = now;
    bytes = bytes;
    parts = parts;
  }

  abbrev part_at : ℕ → F → Bool → List ℕ → ℕ → Part F
  part_at idx d i bytes now = record {
    idx = idx;
    duration_secs = d;
    independent = i;
    produced_at = now;
    bytes = bytes;
  }

  push-Represents :
      (capacity : ℕ) (r : SegmentRing F) (l : Log F) (d : F) (disc : Bool) (bytes : List ℕ)
      (parts : List (Part F)) (now : ℕ)
      → r.capacity ≡ capacity
      → r.segments ≡ last capacity l.closed
      → r.next_seq ≡ length l.closed
      → length l.closed + 1 < 2 ^ 64
      → Represents capacity
          (push_with_parts r d disc bytes parts now).1
          (record { closed = l.closed ++ new_segment l d disc bytes parts now ∷ []; current = [] })
  unfolding push_with_parts
  push-Represents capacity r l d disc bytes parts now size window next fits = record {
    size = size;
    window =
        evict-last r.capacity (r.segments ++ segment_at r.next_seq d disc bytes parts now ∷ [])
        ∙ ap₂ last size (ap₂ (λ w q. w ++ segment_at q d disc bytes parts now ∷ []) window next)
        ∙ last-snoc capacity l.closed (new_segment l d disc bytes parts now);
    next = omega (arith, next, length-append l.closed (new_segment l d disc bytes parts now ∷ []));
    pending = refl;
  }

  -- What a log may still grow to: sequence numbers of 64 bits, part indices of 32.
  abbrev Room : Log F → ℕ → Type 0
  Room l calls = (length l.closed + calls < 2 ^ 64) × (length l.current + calls < 2 ^ 32)

  part-Represents :
      (capacity : ℕ) (r : SegmentRing F) (l : Log F) (d : F) (i : Bool) (bytes : List ℕ) (now : ℕ)
      → Represents capacity r l
      → length l.current < 2 ^ 32
      → Represents capacity
          (push_pending_part r d i bytes now).1
          (record l { current = l.current ++ new_part l d i bytes now ∷ [] })
  unfolding push_pending_part
  part-Represents capacity r l d i bytes now h fits = record {
    size = h.size;
    window = h.window;
    next = h.next;
    pending =
        ap₂ (λ ps n. ps ++ part_at n d i bytes now ∷ []) h.pending
          (let e : length r.pending_parts % 2 ^ 32 ≡ length l.current =
              omega (arith, ap length h.pending) in
            e);
  }

  step-Represents :
      (capacity : ℕ) (r : SegmentRing F) (l : Log F) (c : Call F) (calls : ℕ)
      → Represents capacity r l
      → Room l (suc calls)
      → Represents capacity (step r c) (log_step l c) × Room (log_step l c) calls
  unfolding step log_step enable_low_latency push complete_pending_segment
  step-Represents capacity r l (low_latency t) calls h (a, b) = (
    record { size = h.size; window = h.window; next = h.next; pending = h.pending },
    (omega arith, omega arith),
  )
  step-Represents capacity r l (part_flushed d i bytes now) calls h (a, b) = (
    part-Represents capacity r l d i bytes now h (omega arith),
    (omega arith, omega (arith, length-append l.current (new_part l d i bytes now ∷ []))),
  )
  step-Represents capacity r l (pushed d disc bytes now) calls h (a, b) = (
    push-Represents capacity r l d disc bytes [] now h.size h.window h.next (omega arith),
    (omega (arith, length-append l.closed (new_segment l d disc bytes [] now ∷ [])), omega arith),
  )
  step-Represents capacity r l (completed d disc bytes now) calls h (a, b) = (
    subst
        (λ ps.
          Represents capacity
            (push_with_parts (record r { pending_parts = [] }) d disc bytes ps now).1
            (record {
              closed = l.closed ++ new_segment l d disc bytes l.current now ∷ [];
              current = [];
            }))
        (sym h.pending)
        (push-Represents capacity (record r { pending_parts = [] }) l d disc bytes l.current now
          h.size h.window h.next (omega arith)),
    (
      omega (arith, length-append l.closed (new_segment l d disc bytes l.current now ∷ [])),
      omega arith,
    ),
  )

  run_from-Represents :
      (capacity : ℕ) (r : SegmentRing F) (l : Log F) (cs : List (Call F))
      → Represents capacity r l
      → Room l (length cs)
      → Represents capacity (run r cs) (log l cs)
  unfolding run log
  run_from-Represents capacity r l [] h room = h
  run_from-Represents capacity r l (c ∷ cs) h room =
      let (h', room') = step-Represents capacity r l c (length cs) h room in
      run_from-Represents capacity (step r c) (log_step l c) cs h' room'

  -- After any fewer than 2 ^ 32 calls on a new ring it holds the last `capacity` segments of the
  -- log, its next sequence number is the log's length, and its pending parts are the open ones.
  pub run-Represents :
      (capacity : ℕ) (cs : List (Call F))
      → length cs < 2 ^ 32
      → Represents capacity (run (new capacity) cs) (log empty_log cs)
  run-Represents capacity cs h =
      run_from-Represents capacity (new capacity) empty_log cs (new-Represents capacity)
        (omega arith, omega arith)
