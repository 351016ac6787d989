-- ===== src/Hls/Stats.antt =====
-- crates/hls/src/stats.rs: what the handlers record of each segment GET. `G` stands for `f64`, and
-- `average` for the mean of the samples; `duration_since` is zero where the time went back.
pub mod Probe
mod Tests
use ferricast.Base.{
  ℕ, zero, suc, ◌+◌, ◌-◌, List, [], ◌∷◌, ◌++◌, Option, none, some, Bool, true, false, not, ◌&&◌,
  ltb, ◌==◌, if◌then◌else◌, length,
}
use ferricast.Base.Words.{sat_add32}

pub record Inner (G : Type 0) : Type 0 where
  pub last_segment_get_at : Option ℕ
  pub last_fetched_seq : Option ℕ
  pub segment_get_count : ℕ
  pub probe_samples_mbps : List G
  pub probe_done : Bool

pub record SegmentGetTelemetry (G : Type 0) : Type 0 where
  pub inter_request_gap : Option ℕ
  pub prev_seq : Option ℕ
  pub count_so_far : ℕ
  pub probe_avg_mbps : Option G

abbrev pub probe_samples : ℕ
probe_samples = 3

-- One delivered segment: its number, the measured speed, and when it was done.
pub record Delivered (G : Type 0) : Type 0 where
  pub seq : ℕ
  pub mbps : G
  pub completed_at : ℕ

abbrev gap : Option ℕ → ℕ → Option ℕ
gap none now = none
gap (some t) now = some (now - t)

module _ {G : Type 0} where
  unfoldable pub new_stats : Inner G
  new_stats = record {
    last_segment_get_at = none;
    last_fetched_seq = none;
    segment_get_count = 0;
    probe_samples_mbps = [];
    probe_done = false;
  }

module _ {G : Type 0} (average : List G → G) where
  -- The samples after a GET, whether the probe is done, and its answer.
  unfoldable pub probe : Inner G → G → List G × Bool × Option G
  probe g mbps =
      let samples = g.probe_samples_mbps ++ mbps ∷ [] in
      if not g.probe_done && ltb (length g.probe_samples_mbps) probe_samples
      then (if length samples == probe_samples
          then (samples, true, some (average samples))
          else (samples, g.probe_done, none))
      else (g.probe_samples_mbps, g.probe_done, none)

  unfoldable pub record_segment_get : Inner G → Delivered G → SegmentGetTelemetry G × Inner G
  record_segment_get g d =
      let (samples, done, probe_avg) = probe g d.mbps in
      let count = sat_add32 g.segment_get_count 1 in
      (
        record {
          inter_request_gap = gap g.last_segment_get_at d.completed_at;
          prev_seq = g.last_fetched_seq;
          count_so_far = count;
          probe_avg_mbps = probe_avg;
        },
        record {
          last_segment_get_at = some d.completed_at;
          last_fetched_seq = some d.seq;
          segment_get_count = count;
          probe_samples_mbps = samples;
          probe_done = done;
        },
      )
