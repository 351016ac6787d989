-- ===== src/Adaptive/Tests.antt =====
-- Runs of the controller at concrete values, and its theorems there.
use ferricast.Base.{ℕ, List, [], ◌∷◌, zero, suc, ◌+◌, ◌*◌, ◌≤◌, ap, length, arith}
use ferricast.Base.{◌*◌, ◌<◌, ◌≡◌, refl, ◌↔◌, min, none, some, List, [], ◌∷◌, arith}
use ferricast.Base.Words.{returns, panics, Returns, u32_max}
use ferricast.Adaptive.{
  AdaptiveBitrateState, new, record_pressure, observe_link_capacity_kbps, Event, pressure, fatal,
  capacity, run_events, min_adjust_interval_ns,
}
use ferricast.Adaptive.Bounds.{
  IsValid, Moved, Keeps, observe_link_capacity-Returns, observe_link_capacity_panics,
  run_events-Keeps,
}
use ferricast.Adaptive.Hysteresis.{record_pressure_cools}
use ferricast.Adaptive.Converge.{
  Spaced, SamplesAbove, SamplesBelow, Ready, sampled, sampled-floor, sampled-ceiling,
}

-- Slack after a downshift, with the cool-down over.
abbrev recovering : AdaptiveBitrateState
recovering = record {
  target_kbps = 1000;
  ceiling_kbps = 3000;
  floor_kbps = 500;
  pressure_pct_x100 = 800;
  last_adjust_ns = 0;
}

-- A stream that was configured below the floor.
abbrev tiny : AdaptiveBitrateState
tiny = record {
  target_kbps = 300;
  ceiling_kbps = 300;
  floor_kbps = 500;
  pressure_pct_x100 = 0;
  last_adjust_ns = 0;
}

abbrev raised : AdaptiveBitrateState
raised = record recovering { target_kbps = 1200; pressure_pct_x100 = 825; last_adjust_ns = 7 }

recovering-IsValid : IsValid recovering
recovering-IsValid = omega arith

recovering-Ready : Ready min_adjust_interval_ns recovering
recovering-Ready = omega arith

new-tiny : new 300 ≡ tiny
unfolding new
new-tiny = refl

record_pressure-recovering : record_pressure recovering 10 7 ≡ (some 1200, raised)
unfolding record_pressure
record_pressure-recovering = refl

observe_tight_link :
    observe_link_capacity_kbps (new 2500) 3000 9
    ≡ returns (some 2100, record (new 2500) { target_kbps = 2100; last_adjust_ns = 9 })
unfolding new observe_link_capacity_kbps
observe_tight_link = refl

observe_link_capacity-Returns_example :
    Returns
      (λ r. IsValid r.1 × Moved recovering 9 r.0 r.1)
      (observe_link_capacity_kbps recovering 1500 9)
observe_link_capacity-Returns_example =
    observe_link_capacity-Returns recovering 1500 9 recovering-IsValid

observe_link_capacity_panics_example :
    (observe_link_capacity_kbps tiny 400 9 ≡ panics) ↔ (400 < min (300 * 2) u32_max)
observe_link_capacity_panics_example = observe_link_capacity_panics tiny 400 9 (omega arith)

abbrev session : List Event
session = pressure 95 1 ∷ capacity 1200 2 ∷ fatal 3 ∷ pressure 10 5_000_000_000 ∷ []

run_events-Keeps_example : Returns (Keeps recovering) (run_events recovering session)
run_events-Keeps_example = run_events-Keeps recovering session recovering-IsValid

record_pressure_cools_example :
    let (answer, s) = record_pressure raised 100 4_000_000_006 in
    (answer ≡ none) × (s.target_kbps ≡ 1200) × (s.last_adjust_ns ≡ 7)
record_pressure_cools_example =
    record_pressure_cools recovering 10 7 record_pressure-recovering (omega arith) 100 4_000_000_006
      (omega arith)

-- `n` calls with one sample, an interval apart.
evenly : ℕ → ℕ → ℕ → List (ℕ × ℕ)
evenly zero sample t = []
evenly (suc n) sample t = (sample, t) ∷ evenly n sample (t + min_adjust_interval_ns)

evenly-Spaced : (n sample t : ℕ) → Spaced t (evenly n sample t)
unfolding evenly
evenly-Spaced zero sample t = tt
evenly-Spaced (suc n) sample t = (omega arith, evenly-Spaced n sample (t + min_adjust_interval_ns))

evenly-SamplesAbove :
    (n least sample t : ℕ) → least ≤ sample → SamplesAbove least (evenly n sample t)
unfolding evenly
evenly-SamplesAbove zero least sample t h = tt
evenly-SamplesAbove (suc n) least sample t h =
    (h, evenly-SamplesAbove n least sample (t + min_adjust_interval_ns) h)

evenly-SamplesBelow : (n most sample t : ℕ) → sample ≤ most → SamplesBelow most (evenly n sample t)
unfolding evenly
evenly-SamplesBelow zero most sample t h = tt
evenly-SamplesBelow (suc n) most sample t h =
    (h, evenly-SamplesBelow n most sample (t + min_adjust_interval_ns) h)

length-evenly : (n sample t : ℕ) → length (evenly n sample t) ≡ n
unfolding evenly
length-evenly zero sample t = refl
length-evenly (suc n) sample t = ap suc (length-evenly n sample (t + min_adjust_interval_ns))

-- One call of another kind, a second late, and then calls without a pause.
abbrev after : ℕ
after = 2 * min_adjust_interval_ns + 1_000_000_000

abbrev pressed : List (ℕ × ℕ)
pressed = (150, min_adjust_interval_ns + 1_000_000_000) ∷ evenly 2518 100 after

abbrev relaxed : List (ℕ × ℕ)
relaxed = (0, min_adjust_interval_ns + 1_000_000_000) ∷ evenly 9 35 after

sampled-floor_example : (sampled pressed recovering).target_kbps ≡ 500
sampled-floor_example =
    sampled-floor pressed min_adjust_interval_ns recovering recovering-Ready
      (omega arith, evenly-Spaced 2518 100 after)
      (omega arith, evenly-SamplesAbove 2518 100 100 after (omega arith))
      (omega (arith, length-evenly 2518 100 after))

sampled-ceiling_example : (sampled relaxed recovering).target_kbps ≡ 3000
sampled-ceiling_example =
    sampled-ceiling relaxed min_adjust_interval_ns recovering recovering-Ready
      (omega arith, evenly-Spaced 9 35 after)
      (omega arith, evenly-SamplesBelow 9 35 35 after (omega arith)) (omega arith)
      (omega (arith, length-evenly 9 35 after))
