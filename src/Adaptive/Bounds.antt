-- ===== src/Adaptive/Bounds.antt =====
-- The controller's bounds, and when it panics.
use ferricast.Base.{
  ℕ, ◌*◌, ◌≤◌, ◌<◌, ◌≡◌, refl, ◌≢◌, ◌↔◌, min, Option, none, some, List, [], ◌∷◌, arith,
}
use ferricast.Base.Words.{Run, returns, panics, Returns, u32_max, >>=-Returns, Returns-mono}
use ferricast.Adaptive.{
  AdaptiveBitrateState, new, next_pressure, record_pressure, drop_to_floor,
  observe_link_capacity_kbps, Event, pressure, fatal, capacity, step, run_events, after_run,
}

-- The target lies between the floor and the ceiling, and the smoothed pressure is at most 200 %.
pub record IsValid (s : AdaptiveBitrateState) : Type 0 where
  pub above_floor : s.floor_kbps ≤ s.target_kbps
  pub below_ceiling : s.target_kbps ≤ s.ceiling_kbps
  pub is_u32 : s.ceiling_kbps ≤ u32_max
  pub pressure_small : s.pressure_pct_x100 ≤ 20000

pub new-IsValid : (kbps : ℕ) → 500 ≤ kbps → kbps ≤ u32_max → IsValid (new kbps)
unfolding new
new-IsValid kbps h w = ground arith

pub next_pressure-le : (prev sample : ℕ) → prev ≤ 20000 → next_pressure prev sample ≤ 20000
unfolding next_pressure
next_pressure-le prev sample h = omega arith

pub record_pressure-IsValid :
    (s : AdaptiveBitrateState) (sample now : ℕ)
    → IsValid s
    → IsValid (record_pressure s sample now).1
unfolding record_pressure
record_pressure-IsValid s sample now v = ground arith

pub drop_to_floor-IsValid :
    (s : AdaptiveBitrateState) (now : ℕ) → IsValid s → IsValid (drop_to_floor s now).1
unfolding drop_to_floor
drop_to_floor-IsValid s now v = ground arith

-- A call that answers `Some(t)` has stored `t`, a new target within the bounds, and the time; one
-- that answers `None` has kept both. Floor and ceiling are never written.
abbrev pub Moved : AdaptiveBitrateState → ℕ → Option ℕ → AdaptiveBitrateState → Type 0
Moved s now (some t) s' =
    (s'.target_kbps ≡ t)
    × (t ≢ s.target_kbps)
    × (s.floor_kbps ≤ t)
    × (t ≤ s.ceiling_kbps)
    × (s'.last_adjust_ns ≡ now)
    × (s'.floor_kbps ≡ s.floor_kbps)
    × (s'.ceiling_kbps ≡ s.ceiling_kbps)
Moved s now none s' =
    (s'.target_kbps ≡ s.target_kbps)
    × (s'.last_adjust_ns ≡ s.last_adjust_ns)
    × (s'.floor_kbps ≡ s.floor_kbps)
    × (s'.ceiling_kbps ≡ s.ceiling_kbps)

-- `record_pressure` on a valid state: an answer `Some(t)` says that `t` is the stored target, that
-- it is new, within the bounds and stored with the current time; an answer `None` says that the
-- target and its time are as before. Floor and ceiling stay.
pub record_pressure-Moved :
    (s : AdaptiveBitrateState) (sample now : ℕ)
    → IsValid s
    → let (answer, s') = record_pressure s sample now in Moved s now answer s'
unfolding record_pressure
record_pressure-Moved s sample now v = ground arith

-- `observe_link_capacity_kbps` on a valid state returns (its clamp does not panic), the state is
-- valid again, and the answer tells whether the target moved.
pub observe_link_capacity-Returns :
    (s : AdaptiveBitrateState) (measured now : ℕ)
    → IsValid s
    → Returns (λ r. IsValid r.1 × Moved s now r.0 r.1) (observe_link_capacity_kbps s measured now)
unfolding observe_link_capacity_kbps
observe_link_capacity-Returns s measured now v = ground arith

-- With the ceiling below the floor (a stream configured under 500 kbps), every measurement below
-- twice the target panics, and no other does.
pub observe_link_capacity_panics :
    (s : AdaptiveBitrateState) (measured now : ℕ)
    → s.ceiling_kbps < s.floor_kbps
    → (observe_link_capacity_kbps s measured now ≡ panics)
      ↔ (measured < min (s.target_kbps * 2) u32_max)
unfolding observe_link_capacity_kbps
observe_link_capacity_panics s measured now h = ground arith

-- A valid state with the bounds of `s`.
pub record Keeps (s s' : AdaptiveBitrateState) : Type 0 where
  pub valid : IsValid s'
  pub same_floor : s'.floor_kbps ≡ s.floor_kbps
  pub same_ceiling : s'.ceiling_kbps ≡ s.ceiling_kbps

Moved-Keeps :
    (s : AdaptiveBitrateState) (now : ℕ) (answer : Option ℕ) (s' : AdaptiveBitrateState)
    → IsValid s'
    → Moved s now answer s'
    → Keeps s s'
Moved-Keeps s now none s' v m = ground arith
Moved-Keeps s now (some t) s' v m = ground arith

Keeps-trans : (s t u : AdaptiveBitrateState) → Keeps s t → Keeps t u → Keeps s u
Keeps-trans s t u h k = ground arith

after_run-Keeps :
    (s : AdaptiveBitrateState) (now : ℕ) (r : Run (Option ℕ × AdaptiveBitrateState))
    → Returns (λ p. IsValid p.1 × Moved s now p.0 p.1) r
    → Returns (Keeps s) (after_run r)
unfolding after_run
after_run-Keeps s now (returns (answer, s')) h = Moved-Keeps s now answer s' h.0 h.1
after_run-Keeps s now panics h = h

step-Keeps : (s : AdaptiveBitrateState) (e : Event) → IsValid s → Returns (Keeps s) (step s e)
unfolding step drop_to_floor
step-Keeps s (pressure sample now) v =
    Moved-Keeps s now _ _ (record_pressure-IsValid s sample now v)
      (record_pressure-Moved s sample now v)
step-Keeps s (fatal now) v = ground (arith, drop_to_floor-IsValid s now v)
step-Keeps s (capacity measured now) v =
    after_run-Keeps s now _ (observe_link_capacity-Returns s measured now v)

-- From a valid state no sequence of events panics; the state at its end is valid again, and has
-- the floor and the ceiling that it had.
pub run_events-Keeps :
    (s : AdaptiveBitrateState) (es : List Event) → IsValid s → Returns (Keeps s) (run_events s es)
unfolding run_events
run_events-Keeps s [] v = record { valid = v; same_floor = refl; same_ceiling = refl }
run_events-Keeps s (e ∷ es) v =
    >>=-Returns (Keeps s) (Keeps s) (step s e) (λ s'. run_events s' es) (step-Keeps s e v)
      λ s' k.
        Returns-mono (Keeps s') (Keeps s) (run_events s' es) (λ u. Keeps-trans s s' u k)
          (run_events-Keeps s' es k.valid)
