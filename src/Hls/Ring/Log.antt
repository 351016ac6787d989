-- ===== src/Hls/Ring/Log.antt =====
-- What the ring promises, without a capacity: all segments that were closed, numbered from 0, and
-- the parts of the one that is open.
use ferricast.Base.{ℕ, List, [], ◌∷◌, ◌++◌, Bool, length}
use ferricast.Hls.Ring.{Part, Segment, Call, low_latency, part_flushed, pushed, completed}

pub record Log (F : Type 0) : Type 0 where
  pub closed : List (Segment F)
  pub current : List (Part F)

module _ {F : Type 0} where
  abbrev pub new_part : Log F → F → Bool → List ℕ → ℕ → Part F
  new_part l d i bytes now = record {
    idx = length l.current;
    duration_secs = d;
    independent = i;
    produced_at = now;
    bytes = bytes;
  }

  abbrev pub new_segment : Log F → F → Bool → List ℕ → List (Part F) → ℕ → Segment F
  new_segment l d disc bytes parts now = record {
    seq = length l.closed;
    duration_secs = d;
    discontinuity = disc;
    produced_at = now;
    bytes = bytes;
    parts = parts;
  }

  unfoldable pub log_step : Log F → Call F → Log F
  log_step l (low_latency t) = l
  log_step l (part_flushed d i bytes now) = record l {
    current = l.current ++ new_part l d i bytes now ∷ [];
  }
  log_step l (pushed d disc bytes now) = record {
    closed = l.closed ++ new_segment l d disc bytes [] now ∷ [];
    current = [];
  }
  log_step l (completed d disc bytes now) = record {
    closed = l.closed ++ new_segment l d disc bytes l.current now ∷ [];
    current = [];
  }

  unfoldable pub log : Log F → List (Call F) → Log F
  log l [] = l
  log l (c ∷ cs) = log (log_step l c) cs

  abbrev pub empty_log : Log F
  empty_log = record { closed = []; current = [] }
