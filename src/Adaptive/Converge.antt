-- ===== src/Adaptive/Converge.antt =====
-- Sustained pressure brings the target to its floor, sustained slack to its ceiling.
use ferricast.Base.{ℕ, ◌+◌, ◌*◌, ◌-◌, ◌<◌, ◌≤◌, ◌≡◌, ◌∙◌, ◌≢◌, arith, List, [], ◌∷◌}
use ferricast.Base.{All, length}
use native.Mathlib.Decide.{dec_le}
use ferricast.Adaptive.{AdaptiveBitrateState, record_pressure, min_adjust_interval_ns}
use ferricast.Adaptive.Bounds.{IsValid, record_pressure-IsValid}

-- Calls of `record_pressure`, each with its sample and its time.
unfoldable pub sampled : List (ℕ × ℕ) → AdaptiveBitrateState → AdaptiveBitrateState
sampled [] s = s
sampled ((sample, now) ∷ calls) s = sampled calls (record_pressure s sample now).1

-- The times of the calls, each at least an interval after the one before, the first from `now` on.
abbrev pub Spaced : ℕ → List (ℕ × ℕ) → Type 0
Spaced now [] = Unit {0}
Spaced now ((sample, t) ∷ calls) = (now ≤ t) × Spaced (t + min_adjust_interval_ns) calls

abbrev pub SamplesAbove : ℕ → List (ℕ × ℕ) → Type 0
SamplesAbove least = All (λ call. least ≤ call.0)

abbrev pub SamplesBelow : ℕ → List (ℕ × ℕ) → Type 0
SamplesBelow most = All (λ call. call.0 ≤ most)

-- No call from `now` on is held back by the cool-down.
pub record Ready (now : ℕ) (s : AdaptiveBitrateState) : Type 0 where
  pub valid : IsValid s
  pub started : now ≢ 0
  pub cooled : s.last_adjust_ns + min_adjust_interval_ns ≤ now

record_pressure-last_adjust :
    (s : AdaptiveBitrateState) (sample now : ℕ)
    → s.last_adjust_ns ≤ now
    → (record_pressure s sample now).1.last_adjust_ns ≤ now
unfolding record_pressure
record_pressure-last_adjust s sample now h = ground arith

record_pressure-Ready :
    (s : AdaptiveBitrateState) (sample now : ℕ)
    → Ready now s
    → Ready (now + min_adjust_interval_ns) (record_pressure s sample now).1
record_pressure-Ready s sample now r = record {
  valid = record_pressure-IsValid s sample now r.valid;
  started = omega arith;
  cooled = omega (arith, record_pressure-last_adjust s sample now (omega arith));
}

Ready-later : (s : AdaptiveBitrateState) (now t : ℕ) → Ready now s → now ≤ t → Ready t s
Ready-later s now t r h = record {
  valid = r.valid;
  started = omega (arith, r.started);
  cooled = omega (arith, r.cooled);
}

-- While the pressure is high each sample of 100 % or more keeps it so, and lowers the target.
record_pressure_down :
    (s : AdaptiveBitrateState) (sample now : ℕ)
    → Ready now s
    → 100 ≤ sample
    → 7000 ≤ s.pressure_pct_x100
    → let s' = (record_pressure s sample now).1 in
      (7000 ≤ s'.pressure_pct_x100)
      × (s'.target_kbps - s'.floor_kbps ≤ s.target_kbps - s.floor_kbps - 1)
      × (s'.floor_kbps ≡ s.floor_kbps)
unfolding record_pressure
record_pressure_down s sample now r h p = ground arith

sampled_down :
    (calls : List (ℕ × ℕ)) (now : ℕ) (s : AdaptiveBitrateState)
    → Ready now s
    → Spaced now calls
    → SamplesAbove 100 calls
    → 7000 ≤ s.pressure_pct_x100
    → s.target_kbps - s.floor_kbps ≤ length calls
    → (sampled calls s).target_kbps ≡ s.floor_kbps
unfolding sampled
sampled_down [] now s r gap h p le = omega (arith, r.valid.above_floor)
sampled_down ((sample, t) ∷ calls) now s r (later, gap) (h, hs) p le =
    let r' = Ready-later s now t r later in
    let (p', le', floor) = record_pressure_down s sample t r' h p in
    sampled_down calls (t + min_adjust_interval_ns) (record_pressure s sample t).1
      (record_pressure-Ready s sample t r') gap hs p' (omega arith)
    ∙ floor

-- Below 70 % a sample of 100 % or more raises the pressure by at least 3.75 %.
record_pressure_climbs :
    (s : AdaptiveBitrateState) (sample now : ℕ)
    → IsValid s
    → 100 ≤ sample
    → s.pressure_pct_x100 < 7000
    → let s' = (record_pressure s sample now).1 in
      (s.pressure_pct_x100 + 375 ≤ s'.pressure_pct_x100)
      × (s'.floor_kbps ≡ s.floor_kbps)
      × (s'.ceiling_kbps ≡ s.ceiling_kbps)
unfolding record_pressure
record_pressure_climbs s sample now v h p = ground arith

sampled_up_to_pressure :
    (calls : List (ℕ × ℕ)) (k now : ℕ) (s : AdaptiveBitrateState)
    → Ready now s
    → Spaced now calls
    → SamplesAbove 100 calls
    → 7000 ≤ s.pressure_pct_x100 + 375 * k
    → k + (s.ceiling_kbps - s.floor_kbps) ≤ length calls
    → (sampled calls s).target_kbps ≡ s.floor_kbps
unfolding sampled
sampled_up_to_pressure [] k now s r gap h p le =
    omega (arith, r.valid.above_floor, r.valid.below_ceiling)
sampled_up_to_pressure ((sample, t) ∷ calls) k now s r (later, gap) (h, hs) p le =
    elim (dec_le 7000 s.pressure_pct_x100) [
      | yes high ↦
          sampled_down ((sample, t) ∷ calls) now s r (later, gap) (h, hs) high
            (omega (arith, r.valid.above_floor, r.valid.below_ceiling))
      | no low ↦
          let r' = Ready-later s now t r later in
          let (up, floor, ceiling) = record_pressure_climbs s sample t r.valid h (omega arith) in
          sampled_up_to_pressure calls (k - 1) (t + min_adjust_interval_ns)
            (record_pressure s sample t).1 (record_pressure-Ready s sample t r') gap hs
            (omega arith) (omega arith)
          ∙ floor
    ]

-- Sustained pressure: from a valid state, at a time `now` other than 0 when the cool-down is over,
-- calls with samples of 100 % or more, none before `now` and each at least the interval after the
-- one before, bring the target to the floor, if there are at least 19 more of them than kbps
-- between floor and ceiling.
pub sampled-floor :
    (calls : List (ℕ × ℕ)) (now : ℕ) (s : AdaptiveBitrateState)
    → Ready now s
    → Spaced now calls
    → SamplesAbove 100 calls
    → 19 + (s.ceiling_kbps - s.floor_kbps) ≤ length calls
    → (sampled calls s).target_kbps ≡ s.floor_kbps
sampled-floor calls now s r gap h le =
    sampled_up_to_pressure calls 19 now s r gap h (omega arith) le

-- While the pressure is low each sample of 35 % or less keeps it so, and raises the target by 200
-- kbps or to the ceiling.
record_pressure_up :
    (s : AdaptiveBitrateState) (sample now : ℕ)
    → Ready now s
    → sample ≤ 35
    → s.pressure_pct_x100 < 3600
    → let s' = (record_pressure s sample now).1 in
      (s'.pressure_pct_x100 < 3600)
      × (s'.ceiling_kbps - s'.target_kbps ≤ s.ceiling_kbps - s.target_kbps - 200)
      × (s'.ceiling_kbps ≡ s.ceiling_kbps)
unfolding record_pressure
record_pressure_up s sample now r h p = ground arith

-- Sustained slack: from a valid state whose smoothed pressure is below 36 %, at a time `now` other
-- than 0 when the cool-down is over, calls with samples of at most 35 %, none before `now` and each
-- at least the interval after the one before, bring the target to the ceiling, if 200 kbps for
-- each call reach it.
pub sampled-ceiling :
    (calls : List (ℕ × ℕ)) (now : ℕ) (s : AdaptiveBitrateState)
    → Ready now s
    → Spaced now calls
    → SamplesBelow 35 calls
    → s.pressure_pct_x100 < 3600
    → s.ceiling_kbps ≤ s.target_kbps + 200 * length calls
    → (sampled calls s).target_kbps ≡ s.ceiling_kbps
unfolding sampled
sampled-ceiling [] now s r gap h p le = omega (arith, r.valid.below_ceiling)
sampled-ceiling ((sample, t) ∷ calls) now s r (later, gap) (h, hs) p le =
    let r' = Ready-later s now t r later in
    let (p', le', ceiling) = record_pressure_up s sample t r' h p in
    sampled-ceiling calls (t + min_adjust_interval_ns) (record_pressure s sample t).1
      (record_pressure-Ready s sample t r') gap hs p' (omega arith)
    ∙ ceiling
