-- ===== src/Hls/Ring/Lookup.antt =====
-- What the ring answers to the HTTP handlers, in terms of the log.
use ferricast.Base.{
  ℕ, zero, suc, ◌+◌, ◌-◌, ◌^◌, ◌<◌, ◌≤◌, ◌≡◌, refl, sym, ap, ◌∙◌, subst, List, [], ◌∷◌, ◌++◌,
  Option, none, some, arith, length, drop, ltb, if◌then◌else◌, if_eq, if_ne, if_lt, if_ge,
  Bool-cases, inl, inr, get_elem?, get_elem?-drop, All, All-append, ltb→lt,
}
use ferricast.Hls.Ring.{
  Part, Segment, SegmentRing, Call, low_latency, part_flushed, pushed, completed, run, new, get,
  find_segment, find_part,
}
use ferricast.Hls.Ring.Log.{Log, log_step, log, empty_log, new_part, new_segment}
use ferricast.Hls.Ring.Refine.{Represents, run-Represents}

module _ {F : Type 0} where
  -- Segments with consecutive sequence numbers, parts with consecutive indices.
  abbrev pub Numbered : ℕ → List (Segment F) → Type 0
  Numbered k [] = Unit
  Numbered k (s ∷ ss) = (s.seq ≡ k) × Numbered (suc k) ss

  abbrev pub Indexed : ℕ → List (Part F) → Type 0
  Indexed k [] = Unit
  Indexed k (p ∷ ps) = (p.idx ≡ k) × Indexed (suc k) ps

  Numbered-snoc :
      (k : ℕ) (l : List (Segment F)) (s : Segment F)
      → Numbered k l
      → s.seq ≡ k + length l
      → Numbered k (l ++ s ∷ [])
  Numbered-snoc k [] s h e = (omega arith, tt)
  Numbered-snoc k (x ∷ xs) s (h, hs) e = (h, Numbered-snoc (suc k) xs s hs (omega arith))

  Indexed-snoc :
      (k : ℕ) (l : List (Part F)) (p : Part F)
      → Indexed k l
      → p.idx ≡ k + length l
      → Indexed k (l ++ p ∷ [])
  Indexed-snoc k [] p h e = (omega arith, tt)
  Indexed-snoc k (x ∷ xs) p (h, hs) e = (h, Indexed-snoc (suc k) xs p hs (omega arith))

  pub Numbered-drop : (d k : ℕ) (l : List (Segment F)) → Numbered k l → Numbered (k + d) (drop d l)
  Numbered-drop zero k l h = subst (λ n. Numbered n l) (let e : k ≡ k + 0 = omega arith in e) h
  Numbered-drop (suc d) k [] h = tt
  Numbered-drop (suc d) k (x ∷ xs) (h, hs) =
      subst (λ n. Numbered n (drop d xs)) (let e : suc k + d ≡ k + suc d = omega arith in e)
        (Numbered-drop d (suc k) xs hs)

  pub find_segment-Numbered :
      (k : ℕ) (l : List (Segment F)) (i : ℕ) → Numbered k l → find_segment (k + i) l ≡ get_elem? l i
  unfolding find_segment
  find_segment-Numbered k [] i h = refl
  find_segment-Numbered k (s ∷ ss) zero (h, hs) =
      if_eq s.seq (k + 0) (some s) (find_segment (k + 0) ss) (omega arith)
  find_segment-Numbered k (s ∷ ss) (suc i) (h, hs) =
      if_ne s.seq (k + suc i) (some s) (find_segment (k + suc i) ss) (λ e. omega arith)
      ∙ ap (λ n. find_segment n ss) (let e : k + suc i ≡ suc k + i = omega arith in e)
      ∙ find_segment-Numbered (suc k) ss i hs

  pub find_segment_before :
      (k : ℕ) (l : List (Segment F)) (n : ℕ) → Numbered k l → n < k → find_segment n l ≡ none
  unfolding find_segment
  find_segment_before k [] n h lt = refl
  find_segment_before k (s ∷ ss) n (h, hs) lt =
      if_ne s.seq n (some s) (find_segment n ss) (λ e. omega arith)
      ∙ find_segment_before (suc k) ss n hs (omega arith)

  pub find_part-Indexed :
      (k : ℕ) (l : List (Part F)) (i : ℕ) → Indexed k l → find_part (k + i) l ≡ get_elem? l i
  unfolding find_part
  find_part-Indexed k [] i h = refl
  find_part-Indexed k (p ∷ ps) zero (h, hs) =
      if_eq p.idx (k + 0) (some p) (find_part (k + 0) ps) (omega arith)
  find_part-Indexed k (p ∷ ps) (suc i) (h, hs) =
      if_ne p.idx (k + suc i) (some p) (find_part (k + suc i) ps) (λ e. omega arith)
      ∙ ap (λ n. find_part n ps) (let e : k + suc i ≡ suc k + i = omega arith in e)
      ∙ find_part-Indexed (suc k) ps i hs

  -- Everything in a log is numbered by its place.
  pub record IsNumbered (l : Log F) : Type 0 where
    pub segments : Numbered 0 l.closed
    pub parts : Indexed 0 l.current
    pub inner : All (λ s. Indexed 0 s.parts) l.closed

  log_step-IsNumbered : (l : Log F) (c : Call F) → IsNumbered l → IsNumbered (log_step l c)
  unfolding log_step
  log_step-IsNumbered l (low_latency t) v = v
  log_step-IsNumbered l (part_flushed d i bytes now) v = record {
    segments = v.segments;
    parts = Indexed-snoc 0 l.current (new_part l d i bytes now) v.parts (omega arith);
    inner = v.inner;
  }
  log_step-IsNumbered l (pushed d disc bytes now) v = record {
    segments =
        Numbered-snoc 0 l.closed (new_segment l d disc bytes [] now) v.segments (omega arith);
    parts = tt;
    inner =
        All-append (λ s. Indexed 0 s.parts) l.closed (new_segment l d disc bytes [] now ∷ [])
          v.inner (tt, tt);
  }
  log_step-IsNumbered l (completed d disc bytes now) v = record {
    segments =
        Numbered-snoc 0 l.closed (new_segment l d disc bytes l.current now) v.segments
          (omega arith);
    parts = tt;
    inner =
        All-append (λ s. Indexed 0 s.parts) l.closed (new_segment l d disc bytes l.current now ∷ [])
          v.inner (v.parts, tt);
  }

  log_from-IsNumbered : (l : Log F) (cs : List (Call F)) → IsNumbered l → IsNumbered (log l cs)
  unfolding log
  log_from-IsNumbered l [] v = v
  log_from-IsNumbered l (c ∷ cs) v =
      log_from-IsNumbered (log_step l c) cs (log_step-IsNumbered l c v)

  pub log-IsNumbered : (cs : List (Call F)) → IsNumbered (log empty_log cs)
  log-IsNumbered cs =
      log_from-IsNumbered empty_log cs (record { segments = tt; parts = tt; inner = tt })

  -- The segment with number `seq` in a log of which only the last `capacity` are kept.
  abbrev pub kept : ℕ → Log F → ℕ → Option (Segment F)
  kept capacity l seq =
      if ltb seq (length l.closed - capacity) then none else get_elem? l.closed seq

  pub get-Represents :
      (capacity : ℕ) (r : SegmentRing F) (l : Log F) (seq : ℕ)
      → Represents capacity r l
      → IsNumbered l
      → get r seq ≡ kept capacity l seq
  unfolding get
  get-Represents capacity r l seq h v =
      let k = length l.closed - capacity in
      let tail : Numbered (0 + k) (drop k l.closed) = Numbered-drop k 0 l.closed v.segments in
      ap (find_segment seq) h.window ∙ elim (Bool-cases (ltb seq k)) [
        | inl e ↦
            find_segment_before (0 + k) (drop k l.closed) seq tail (omega (arith, ltb→lt seq k e))
            ∙ sym (if_lt seq k none (get_elem? l.closed seq) (ltb→lt seq k e))
        | inr e ↦
            let ge : k ≤ seq = ground arith in
            ap (λ n. find_segment n (drop k l.closed))
              (let q : seq ≡ 0 + k + (seq - k) = omega arith in q)
            ∙ find_segment-Numbered (0 + k) (drop k l.closed) (seq - k) tail
            ∙ get_elem?-drop k l.closed (seq - k)
            ∙ ap (get_elem? l.closed) (let q : k + (seq - k) ≡ seq = omega arith in q)
            ∙ sym (if_ge seq k none (get_elem? l.closed seq) ge)
      ]

  -- A number finds the segment that was closed under it while that is among the last `capacity`,
  -- and nothing before or after, in a ring after fewer than 2 ^ 32 calls.
  pub get-run :
      (capacity : ℕ) (cs : List (Call F)) (seq : ℕ)
      → length cs < 2 ^ 32
      → get (run (new capacity) cs) seq ≡ kept capacity (log empty_log cs) seq
  get-run capacity cs seq h =
      get-Represents capacity (run (new capacity) cs) (log empty_log cs) seq
        (run-Represents capacity cs h) (log-IsNumbered cs)
