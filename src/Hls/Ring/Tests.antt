-- ===== src/Hls/Ring/Tests.antt =====
-- The ring at concrete values: durations in milliseconds.
use ferricast.Base.{ℕ, ◌≡◌, refl, List, [], ◌∷◌, some, true, false, arith}
use ferricast.Hls.Ring.{
  SegmentRing, Call, low_latency, part_flushed, completed, run, step, new, get, has_reached,
  push_pending_part, enable_low_latency, push_with_parts, complete_pending_segment, evict,
  find_segment, any_from,
}
use ferricast.Hls.Ring.Log.{log, empty_log}
use ferricast.Hls.Ring.Refine.{Represents, run-Represents}
use ferricast.Hls.Ring.Lookup.{kept, get-run}
use ferricast.Hls.Ring.Reach.{reached, has_reached-run}
use ferricast.Hls.Ring.Stay.{has_reached-step}

abbrev calls : List (Call ℕ)
calls =
    low_latency 300
    ∷ part_flushed 300 true (1 ∷ []) 10
    ∷ part_flushed 280 false (2 ∷ []) 20
    ∷ completed 580 false (1 ∷ 2 ∷ []) 30
    ∷ part_flushed 300 true (3 ∷ []) 40
    ∷ []

abbrev ring : SegmentRing ℕ
ring = run (new 1) calls

-- The second part of the finished segment is there.
reached_part : has_reached ring 0 (some 1) ≡ true
unfolding run step new enable_low_latency push_pending_part complete_pending_segment push_with_parts
    evict has_reached get find_segment any_from
reached_part = refl

run-Represents_example : Represents 1 ring (log empty_log calls)
run-Represents_example = run-Represents 1 calls (omega arith)

get-run_example : get ring 0 ≡ kept 1 (log empty_log calls) 0
get-run_example = get-run 1 calls 0 (omega arith)

has_reached-run_example : has_reached ring 0 (some 1) ≡ reached 1 (log empty_log calls) 0 (some 1)
has_reached-run_example = has_reached-run 1 calls 0 (some 1) (omega arith) (omega arith)

has_reached-step_example :
    has_reached (step ring (completed 300 false (3 ∷ []) 50)) 0 (some 1) ≡ true
has_reached-step_example =
    has_reached-step 1 calls (completed 300 false (3 ∷ []) 50) 0 (some 1) (omega arith)
      (omega arith) tt reached_part
