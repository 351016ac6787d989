-- ===== src/Hls/Segmenter.antt =====
-- crates/hls/src/segmenter.rs: `run_from_frames` as a machine that takes one event at a time, in the
-- order in which the loop's `select!` receives them. The clock is read once for an event, in
-- nanoseconds, and `secs` is `as_secs_f32`. The burst of `try_recv` is a run of audio events.
pub mod Prefix
pub mod Modes
pub mod Step
pub mod Bodies
pub mod Whole
mod Tests
use ferricast.Base.{
  ℕ, zero, suc, ◌+◌, ◌-◌, ◌*◌, ◌/◌, ◌^◌, List, [], ◌∷◌, ◌++◌, Option, none, some, Bool, true, false,
  not, ◌&&◌, ltb, leb, if◌then◌else◌, min, is_empty,
}
use ferricast.Base.Words.{u64_max}
use ferricast.Frame.{EncodedFrame, AudioFrame}
use ferricast.MpegTs.Muxer
use ferricast.MpegTs.Muxer.{
  MpegTs, default, with_silent_audio, with_external_audio, config, add_frame, add_audio_frame,
  drain, start_segment,
}
use ferricast.Hls.Ring.{
  SegmentRing, enable_low_latency, push_pending_part, push, complete_pending_segment,
}

-- What `run_from_frames` takes of `HlsConfig`: the two targets as durations, that of the parts with
-- the seconds the ring is told.
pub record SegmenterConfig (F : Type 0) : Type 0 where
  pub segment_target : ℕ
  pub part_target : Option (ℕ × F)
  pub inject_silent_audio : Bool

-- What is received: a frame, or that the channel has closed. Video has the time of the clock, audio
-- the wall clock in microseconds.
pub data SegEvent : Type 0 where
  video : Option EncodedFrame → ℕ → SegEvent
  audio : Option AudioFrame → ℕ → SegEvent

-- A segment that is being filled.
pub record Filling : Type 0 where
  pub started : ℕ
  pub part_start : ℕ
  pub first_part_of_segment : Bool
  pub local_parts : List (List ℕ)

pub data Phase : Type 0 where
  waiting ended : Phase
  filling : Filling → Phase

pub record Segmenter (F : Type 0) : Type 0 where
  pub muxer : MpegTs
  pub ring : SegmentRing F
  pub video_wall_anchor : Option ℕ
  pub phase : Phase

abbrev pub max_audio_staleness_us : ℕ
max_audio_staleness_us = 300000

unfoldable pub to_90k : ℕ → ℕ
to_90k pts_us = min (pts_us * 9) u64_max / 100

unfoldable pub push_frame : MpegTs → EncodedFrame → ℕ → MpegTs
push_frame m encoded pts_us = add_frame m encoded (to_90k pts_us) (to_90k pts_us)

-- A refusal is only logged.
abbrev pub logged : MpegTs → Muxer.Result → MpegTs
logged m (Muxer.ok m') = m'
logged m (Muxer.err e) = m

unfoldable pub push_audio_frame : MpegTs → AudioFrame → Option ℕ → ℕ → MpegTs
push_audio_frame m frame none now = m
push_audio_frame m frame (some anchor) now =
    if ltb max_audio_staleness_us (now - frame.timestamp_us)
    then m
    else logged m (add_audio_frame m frame.bytes (to_90k (frame.timestamp_us - anchor)))

abbrev pub origin_of : Option ℕ → ℕ → ℕ
origin_of none first = first
origin_of (some anchor) first = anchor

abbrev pub concat : List (List ℕ) → List ℕ
concat [] = []
concat (p ∷ ps) = p ++ concat ps

module _ {F : Type 0} where
  -- The first frame of a segment, with the time at which it starts.
  unfoldable pub open_segment : Segmenter F → EncodedFrame → ℕ → Segmenter F
  open_segment s first now =
      let origin = origin_of s.video_wall_anchor first.timestamp_us in
      record s {
        muxer = push_frame s.muxer first (first.timestamp_us - origin);
        video_wall_anchor = some origin;
        phase = filling (record {
          started = now;
          part_start = now;
          first_part_of_segment = true;
          local_parts = [];
        });
      }

  abbrev pub part_due : Option (ℕ × F) → Filling → ℕ → Bool
  part_due none o now = false
  part_due (some (pt, s)) o now = leb pt (now - o.part_start)

  abbrev pub fill : Segmenter F × Filling → Segmenter F
  fill (s, o) = record s { phase = filling o }

  -- The top of the loop.
  unfoldable pub next_segment : Segmenter F → Segmenter F
  next_segment s = record s { muxer = start_segment s.muxer; phase = waiting }

module _ {F : Type 0} (secs : ℕ → F) (cfg : SegmenterConfig F) where
  -- What is drained goes out as a part, unless it is nothing.
  unfoldable pub push_part : Segmenter F → Filling → ℕ → Segmenter F × Filling
  push_part s o now =
      let (part, muxer) = drain s.muxer in
      let ring =
        (push_pending_part s.ring (secs (now - o.part_start)) o.first_part_of_segment part now).1 in
      if is_empty part then (record s { muxer = muxer }, o) else (
        record s { muxer = muxer; ring = ring },
        record o {
          local_parts = o.local_parts ++ part ∷ [];
          first_part_of_segment = false;
          part_start = now;
        },
      )

  -- After a video frame: a part, when its time has come.
  unfoldable pub flush_part : Segmenter F → Filling → ℕ → Segmenter F
  flush_part s o now =
      let flushed = fill (push_part s o now) in
      if part_due cfg.part_target o now then flushed else fill (s, o)

  -- The end of a segment: a last part and all parts as the body, or one drain as the body.
  unfoldable pub close_parts : Segmenter F × Filling → ℕ → Segmenter F
  close_parts (s, o) now = record s {
    ring =
        (complete_pending_segment s.ring (secs (now - o.started)) false (concat o.local_parts)
          now).1;
  }

  unfoldable pub close_plain : Segmenter F → Filling → ℕ → Segmenter F
  close_plain s o now =
      let (body, muxer) = drain s.muxer in
      record s { muxer = muxer; ring = (push s.ring (secs (now - o.started)) false body now).1 }

  abbrev pub close_by : Option (ℕ × F) → Segmenter F → Filling → ℕ → Segmenter F
  close_by none s o now = close_plain s o now
  close_by (some pt) s o now = close_parts (push_part s o now) now

  unfoldable pub close_segment : Segmenter F → Filling → ℕ → Segmenter F
  close_segment s o now = close_by cfg.part_target s o now

  unfoldable pub video_filling : Segmenter F → Filling → EncodedFrame → ℕ → Segmenter F
  video_filling s o encoded now =
      let cut = open_segment (next_segment (close_segment s o now)) encoded now in
      let pts_us = encoded.timestamp_us - origin_of s.video_wall_anchor encoded.timestamp_us in
      let pushed = flush_part (record s { muxer = push_frame s.muxer encoded pts_us }) o now in
      if encoded.is_keyframe && leb cfg.segment_target (now - o.started) then cut else pushed

  unfoldable pub audio_filling : Segmenter F → Filling → AudioFrame → ℕ → Segmenter F
  audio_filling s o frame now = record s {
    muxer = push_audio_frame s.muxer frame s.video_wall_anchor now;
    phase = filling o;
  }

  -- The event in the phase that the machine is in.
  unfoldable pub step_in : Segmenter F → Phase → SegEvent → Segmenter F
  step_in s ended e = record s { phase = ended }
  step_in s waiting (video none now) = record s { phase = ended }
  step_in s waiting (video (some f) now) =
      if f.is_keyframe then open_segment s f now else record s { phase = waiting }
  step_in s waiting (audio a now) = record s { phase = waiting }
  step_in s (filling o) (video none now) = record (close_segment s o now) { phase = ended }
  step_in s (filling o) (video (some f) now) = video_filling s o f now
  step_in s (filling o) (audio none now) = record s { phase = filling o }
  step_in s (filling o) (audio (some a) now) = audio_filling s o a now

  unfoldable pub step : Segmenter F → SegEvent → Segmenter F
  step s e = step_in s s.phase e

  unfoldable pub run : Segmenter F → List SegEvent → Segmenter F
  run s [] = s
  run s (e ∷ es) = run (step s e) es

  abbrev pub target_told : Option (ℕ × F) → SegmentRing F → SegmentRing F
  target_told none ring = ring
  target_told (some (pt, s)) ring = enable_low_latency ring s

  abbrev pub configured : Muxer.Result → SegmentRing F → Option (Segmenter F)
  configured (Muxer.err e) ring = none
  configured (Muxer.ok m) ring = some (record {
    muxer = start_segment m;
    ring = target_told cfg.part_target ring;
    video_wall_anchor = none;
    phase = waiting;
  })

  -- Up to the first turn of the loop; without parameter sets there is none.
  unfoldable pub start : List ℕ → Bool → SegmentRing F → Option (Segmenter F)
  start parameter_sets external_audio ring =
      configured
        (config
          (with_external_audio
            (with_silent_audio default (cfg.inject_silent_audio && not external_audio))
            external_audio)
          parameter_sets)
        ring

  abbrev run_started : Option (Segmenter F) → List SegEvent → Option (Segmenter F)
  run_started none es = none
  run_started (some s) es = some (run s es)

  unfoldable pub run_from_frames :
      List ℕ → Bool → SegmentRing F → List SegEvent → Option (Segmenter F)
  run_from_frames parameter_sets external_audio ring es =
      run_started (start parameter_sets external_audio ring) es
