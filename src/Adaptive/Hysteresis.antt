-- ===== src/Adaptive/Hysteresis.antt =====
-- The cool-down between two adjustments.
use ferricast.Base.{ℕ, ◌+◌, ◌<◌, ◌≡◌, ◌≢◌, none, some, arith}
use ferricast.Adaptive.{AdaptiveBitrateState, record_pressure, min_adjust_interval_ns}

record_pressure-moved :
    (s : AdaptiveBitrateState) (sample t : ℕ) {target : ℕ} {s' : AdaptiveBitrateState}
    → record_pressure s sample t ≡ (some target, s')
    → (s'.target_kbps ≡ target) × (s'.last_adjust_ns ≡ t)
unfolding record_pressure
record_pressure-moved s sample t e = ground arith

record_pressure-cooling :
    (s : AdaptiveBitrateState) (sample now : ℕ)
    → s.last_adjust_ns ≢ 0
    → now < s.last_adjust_ns + min_adjust_interval_ns
    → let (answer, s') = record_pressure s sample now in
      (answer ≡ none) × (s'.target_kbps ≡ s.target_kbps) × (s'.last_adjust_ns ≡ s.last_adjust_ns)
unfolding record_pressure
record_pressure-cooling s sample now h lt = ground arith

-- After `record_pressure` has moved the target at a time `t` that is not 0, every call at a time less than the
-- interval later answers `None` and leaves the target alone, whatever it samples.
pub record_pressure_cools :
    (s : AdaptiveBitrateState) (sample t : ℕ) {target : ℕ} {s' : AdaptiveBitrateState}
    → record_pressure s sample t ≡ (some target, s')
    → t ≢ 0
    → (sample' now : ℕ) → now < t + min_adjust_interval_ns
    → let (answer, s'') = record_pressure s' sample' now in
      (answer ≡ none) × (s''.target_kbps ≡ target) × (s''.last_adjust_ns ≡ t)
record_pressure_cools s sample t {target} {s'} e h sample' now lt =
    ground (arith, record_pressure-moved s sample t e, record_pressure-cooling s' sample' now)
