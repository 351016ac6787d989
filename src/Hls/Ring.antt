-- ===== src/Hls/Ring.antt =====
-- crates/hls/src/ring.rs: the ring of finished segments and their LL-HLS parts. `F` stands for
-- `f32`, whose values the ring only stores. `Instant::now()` is the argument `now`, and `notified`
-- counts the calls of `notify_waiters`.
pub mod Log
pub mod Refine
pub mod Lookup
pub mod Reach
pub mod Stay
mod Tests
use ferricast.Base.{
  ℕ, zero, suc, ◌+◌, ◌%◌, ◌^◌, List, [], ◌∷◌, ◌++◌, Option, none, some, Bool, true, false, not,
  ◌&&◌, ltb, leb, ◌==◌, if◌then◌else◌, length, is_empty,
}
use ferricast.Base.Words.{sat_add32}

pub record Part (F : Type 0) : Type 0 where
  pub idx : ℕ
  pub duration_secs : F
  pub independent : Bool
  pub produced_at : ℕ
  pub bytes : List ℕ

pub record Segment (F : Type 0) : Type 0 where
  pub seq : ℕ
  pub duration_secs : F
  pub discontinuity : Bool
  pub produced_at : ℕ
  pub bytes : List ℕ
  pub parts : List (Part F)

pub record SegmentRing (F : Type 0) : Type 0 where
  pub capacity : ℕ
  pub segments : List (Segment F)
  pub next_seq : ℕ
  pub discontinuity_seq : ℕ
  pub pending_parts : List (Part F)
  pub part_target_secs : Option F
  pub notified : ℕ

-- The calls of the segmenter, each with its time.
pub data Call (F : Type 0) : Type 0 where
  low_latency : F → Call F
  part_flushed : F → Bool → List ℕ → ℕ → Call F
  pushed completed : F → Bool → List ℕ → ℕ → Call F

module _ {F : Type 0} where
  unfoldable pub new : ℕ → SegmentRing F
  new capacity = record {
    capacity = capacity;
    segments = [];
    next_seq = 0;
    discontinuity_seq = 0;
    pending_parts = [];
    part_target_secs = none;
    notified = 0;
  }

  unfoldable pub enable_low_latency : SegmentRing F → F → SegmentRing F
  enable_low_latency r part_target_secs = record r { part_target_secs = some part_target_secs }

  -- The answer is the pair of sequence number and part index.
  unfoldable pub push_pending_part : SegmentRing F → F → Bool → List ℕ → ℕ → (ℕ × ℕ) × SegmentRing F
  push_pending_part r duration_secs independent bytes now =
      let idx = length r.pending_parts % 2 ^ 32 in
      let part : Part F = record {
        idx = idx;
        duration_secs = duration_secs;
        independent = independent;
        produced_at = now;
        bytes = bytes;
      } in
      (
        (r.next_seq, idx),
        record r { pending_parts = r.pending_parts ++ part ∷ []; notified = suc r.notified },
      )

  -- `while segments.len() > capacity { segments.pop_front() }`
  unfoldable pub evict : ℕ → List (Segment F) → List (Segment F)
  evict capacity [] = []
  evict capacity (s ∷ ss) =
      let rest = evict capacity ss in if ltb capacity (length (s ∷ ss)) then rest else s ∷ ss

  unfoldable pub push_with_parts :
      SegmentRing F → F → Bool → List ℕ → List (Part F) → ℕ → ℕ × SegmentRing F
  push_with_parts r duration_secs discontinuity bytes parts now =
      let restarts = discontinuity && not (is_empty r.segments) in
      let segment : Segment F = record {
        seq = r.next_seq;
        duration_secs = duration_secs;
        discontinuity = discontinuity;
        produced_at = now;
        bytes = bytes;
        parts = parts;
      } in
      (
        r.next_seq,
        record r {
          discontinuity_seq =
              if restarts then sat_add32 r.discontinuity_seq 1 else r.discontinuity_seq;
          next_seq = (r.next_seq + 1) % 2 ^ 64;
          segments = evict r.capacity (r.segments ++ segment ∷ []);
          pending_parts = [];
          notified = suc r.notified;
        },
      )

  unfoldable pub push : SegmentRing F → F → Bool → List ℕ → ℕ → ℕ × SegmentRing F
  push r duration_secs discontinuity bytes now =
      push_with_parts r duration_secs discontinuity bytes [] now

  -- `mem::take` leaves an empty list behind.
  unfoldable pub complete_pending_segment :
      SegmentRing F → F → Bool → List ℕ → ℕ → ℕ × SegmentRing F
  complete_pending_segment r duration_secs discontinuity bytes now =
      let taken = record r { pending_parts = [] } in
      push_with_parts taken duration_secs discontinuity bytes r.pending_parts now

  unfoldable pub find_segment : ℕ → List (Segment F) → Option (Segment F)
  find_segment seq [] = none
  find_segment seq (s ∷ ss) = if s.seq == seq then some s else find_segment seq ss

  unfoldable pub find_part : ℕ → List (Part F) → Option (Part F)
  find_part idx [] = none
  find_part idx (p ∷ ps) = if p.idx == idx then some p else find_part idx ps

  -- `iter().any(|x| x.idx >= p)`
  unfoldable pub any_from : ℕ → List (Part F) → Bool
  any_from p [] = false
  any_from p (x ∷ xs) = if leb p x.idx then true else any_from p xs

  unfoldable pub get : SegmentRing F → ℕ → Option (Segment F)
  get r seq = find_segment seq r.segments

  part_of : SegmentRing F → ℕ → ℕ → Option (Segment F) → Option (Part F)
  part_of r seq idx (some seg) = find_part idx seg.parts
  part_of r seq idx none = if seq == r.next_seq then find_part idx r.pending_parts else none

  unfoldable pub get_part : SegmentRing F → ℕ → ℕ → Option (Part F)
  unfolding part_of
  get_part r seq idx = part_of r seq idx (get r seq)

  -- A finished segment is reached as such, and in a part where it has one from there on.
  parts_reach : List (Part F) → Option ℕ → Bool → Bool
  parts_reach parts none whole = whole
  parts_reach parts (some p) whole = any_from p parts

  before_first : List (Segment F) → ℕ → Bool
  before_first [] msn = false
  before_first (first ∷ _) msn = ltb msn first.seq

  reached_at : SegmentRing F → ℕ → Option ℕ → Option (Segment F) → Bool
  unfolding parts_reach before_first
  reached_at r msn part (some seg) = parts_reach seg.parts part true
  reached_at r msn part none =
      if msn == r.next_seq
      then parts_reach r.pending_parts part false
      else before_first r.segments msn

  unfoldable pub has_reached : SegmentRing F → ℕ → Option ℕ → Bool
  unfolding reached_at
  has_reached r msn part = reached_at r msn part (get r msn)

  unfoldable pub step : SegmentRing F → Call F → SegmentRing F
  step r (low_latency t) = enable_low_latency r t
  step r (part_flushed d i bytes now) = (push_pending_part r d i bytes now).1
  step r (pushed d disc bytes now) = (push r d disc bytes now).1
  step r (completed d disc bytes now) = (complete_pending_segment r d disc bytes now).1

  unfoldable pub run : SegmentRing F → List (Call F) → SegmentRing F
  run r [] = r
  run r (c ∷ cs) = run (step r c) cs
