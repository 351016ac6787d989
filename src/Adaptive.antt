-- ===== src/Adaptive.antt =====
-- crates/core/src/adaptive.rs: the bitrate controller that the HLS server and the encoder share.
-- An atomic cell is a field; each operation runs alone (there is one updater). The clock
-- `monotonic_ns` is the argument `now`.
pub mod Bounds
pub mod Hysteresis
pub mod Converge
mod Tests
use ferricast.Base.{
  ℕ, ◌+◌, ◌-◌, ◌*◌, ◌/◌, ◌%◌, ◌^◌, min, max, Bool, not, ◌&&◌, Option, none, some, List, [], ◌∷◌,
}
use ferricast.Base.{ltb, leb, ◌==◌, if◌then◌else◌}
use ferricast.Base.Words.{sat_mul32, sat_add32, Run, returns, panics, ◌>>=◌}

pub record AdaptiveBitrateState : Type 0 where
  pub target_kbps : ℕ
  pub ceiling_kbps : ℕ
  pub floor_kbps : ℕ
  pub pressure_pct_x100 : ℕ
  pub last_adjust_ns : ℕ

abbrev pub min_adjust_interval_ms : ℕ
min_adjust_interval_ms = 4000

abbrev pub min_adjust_interval_ns : ℕ
min_adjust_interval_ns = min_adjust_interval_ms * 1_000_000

abbrev pub pressure_down_pct : ℕ
pressure_down_pct = 70

abbrev pub pressure_up_pct : ℕ
pressure_up_pct = 35

abbrev pub downshift_num : ℕ
downshift_num = 3

abbrev pub downshift_den : ℕ
downshift_den = 4

abbrev pub upshift_kbps : ℕ
upshift_kbps = 200

pub new : ℕ → AdaptiveBitrateState
new initial_kbps = record {
  target_kbps = initial_kbps;
  ceiling_kbps = initial_kbps;
  floor_kbps = 500;
  pressure_pct_x100 = 0;
  last_adjust_ns = 0;
}

-- 7/8 history and 1/8 new sample. The sum is a plain `u32` addition, so it wraps.
pub next_pressure : ℕ → ℕ → ℕ
next_pressure prev sample_pct =
    ((sat_mul32 prev 7 + sat_mul32 (min sample_pct 200) 100) % 2 ^ 32) / 8

-- The cool-down test: an adjustment was made less than the interval ago.
pub cooling : ℕ → ℕ → Bool
cooling last now = not (last == 0) && ltb (now - last) min_adjust_interval_ns

-- The target that the pressure asks for; `none` where the code returns without a move.
pub wanted_target : AdaptiveBitrateState → ℕ → Option ℕ
wanted_target s ema =
    if leb pressure_down_pct (ema / 100)
    then some (max (sat_mul32 s.target_kbps downshift_num / downshift_den) s.floor_kbps)
    else if leb (ema / 100) pressure_up_pct && ltb s.target_kbps s.ceiling_kbps
    then some (min (sat_add32 s.target_kbps upshift_kbps) s.ceiling_kbps)
    else none

-- Store a new target with its time, unless it is the old one.
pub move_to : AdaptiveBitrateState → ℕ → ℕ → Option ℕ × AdaptiveBitrateState
move_to s new_target now =
    if new_target == s.target_kbps
    then (none, s)
    else (some new_target, record s { target_kbps = new_target; last_adjust_ns = now })

move_to_wanted : AdaptiveBitrateState → Option ℕ → ℕ → Option ℕ × AdaptiveBitrateState
move_to_wanted s none now = (none, s)
move_to_wanted s (some t) now = move_to s t now

pub record_pressure : AdaptiveBitrateState → ℕ → ℕ → Option ℕ × AdaptiveBitrateState
unfolding next_pressure cooling wanted_target move_to move_to_wanted
record_pressure s sample_pct now =
    let ema = next_pressure s.pressure_pct_x100 sample_pct in
    let s' = record s { pressure_pct_x100 = ema } in
    if cooling s.last_adjust_ns now
    then (none, s')
    else move_to_wanted s' (wanted_target s' ema) now

pub drop_to_floor : AdaptiveBitrateState → ℕ → ℕ × AdaptiveBitrateState
drop_to_floor s now = (s.floor_kbps, record s { target_kbps = s.floor_kbps; last_adjust_ns = now })

-- `Ord::clamp` panics where its bounds are crossed.
pub clamp : ℕ → ℕ → ℕ → Run ℕ
clamp x lo hi = if leb lo hi then returns (min (max x lo) hi) else panics

move_to_clamped : AdaptiveBitrateState → Run ℕ → ℕ → Run (Option ℕ × AdaptiveBitrateState)
move_to_clamped s panics now = panics
move_to_clamped s (returns t) now = returns (move_to s t now)

-- A panic comes before any store, so it leaves the state as it was.
pub observe_link_capacity_kbps :
    AdaptiveBitrateState → ℕ → ℕ → Run (Option ℕ × AdaptiveBitrateState)
unfolding move_to move_to_clamped clamp
observe_link_capacity_kbps s measured now =
    if leb (sat_mul32 s.target_kbps 2) measured
    then returns (none, s)
    else if leb s.target_kbps measured
    then move_to_clamped s (clamp ((measured * 7 / 10) % 2 ^ 32) s.floor_kbps s.ceiling_kbps) now
    else move_to_clamped s (clamp measured s.floor_kbps s.ceiling_kbps) now

pub pressure_pct : AdaptiveBitrateState → ℕ
pressure_pct s = s.pressure_pct_x100 / 100

-- The calls of the producers, each with its time.
pub data Event : Type 0 where
  pressure : ℕ → ℕ → Event
  fatal : ℕ → Event
  capacity : ℕ → ℕ → Event

after_run : Run (Option ℕ × AdaptiveBitrateState) → Run AdaptiveBitrateState
after_run (returns (o, s)) = returns s
after_run panics = panics

pub step : AdaptiveBitrateState → Event → Run AdaptiveBitrateState
unfolding after_run
step s (pressure sample now) = returns (record_pressure s sample now).1
step s (fatal now) = returns (drop_to_floor s now).1
step s (capacity measured now) = after_run (observe_link_capacity_kbps s measured now)

pub run_events : AdaptiveBitrateState → List Event → Run AdaptiveBitrateState
run_events s [] = returns s
run_events s (e ∷ es) = step s e >>= λ s'. run_events s' es
