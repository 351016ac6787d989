-- ===== src/Hls/Segmenter/Step.antt =====
-- One event on the machine with parts and the one without.
use ferricast.Base.{
  ℕ, ◌-◌, ◌≡◌, refl, sym, ap, ap₂, ◌∙◌, subst, List, [], ◌∷◌, ◌++◌, append-nil, none, some, Bool,
  true, false, ◌&&◌, leb, if◌then◌else◌,
}
use ferricast.Frame.{EncodedFrame, AudioFrame}
use ferricast.MpegTs.Muxer.{MpegTs, drain, start_segment}
use ferricast.Hls.Ring.{SegmentRing, push, push_with_parts, complete_pending_segment}
use ferricast.Hls.Segmenter.{
  SegmenterConfig, SegEvent, video, audio, Filling, Phase, waiting, ended, filling, Segmenter,
  push_frame, push_audio_frame, origin_of, concat, open_segment, push_part, part_due, flush_part,
  close_parts, close_plain, close_segment, next_segment, video_filling, audio_filling, step_in,
  step, run,
}
use ferricast.Hls.Segmenter.Prefix.{behind, push_frame-behind, push_audio_frame-behind}
use ferricast.Hls.Segmenter.Modes.{
  SameRing, SamePhase, Same, Cut, push_part-Cut, push_with_parts-SameRing, if_elim,
}

abbrev with_out : MpegTs → List ℕ → MpegTs
with_out m out = record m { out = out }

module _ {F : Type 0} where
  abbrev pub without_parts : SegmenterConfig F → SegmenterConfig F
  without_parts cfg = record cfg { part_target = none }

  abbrev pub with_parts : SegmenterConfig F → ℕ × F → SegmenterConfig F
  with_parts cfg pt = record cfg { part_target = some pt }

  both :
      {x y x' y' : Segmenter F}
      → (b : Bool) → Same x x'
      → Same y y'
      → Same (if b then x else y) (if b then x' else y')
  both true h h' = h
  both false h h' = h'

  if_both :
      (k a b : Bool) (x y x' y' : Segmenter F)
      → a ≡ b
      → Same x x'
      → Same y y'
      → Same (if k && a then x else y) (if k && b then x' else y')
  if_both k a b x y x' y' e h h' =
      subst (λ z. Same (if k && a then x else y) (if k && z then x' else y')) e (both (k && a) h h')

  -- Both at the end of a segment.
  record Closed (c l : Segmenter F) : Type 0 where
    rings : SameRing c.ring l.ring
    anchor_eq : c.video_wall_anchor ≡ l.video_wall_anchor
    muxers : c.muxer ≡ l.muxer

  open_segment-Same :
      (c l : Segmenter F) (f : EncodedFrame) (now : ℕ)
      → Closed c l
      → Same (open_segment c f now) (open_segment l f now)
  unfolding open_segment
  open_segment-Same c l f now h = record {
    rings = h.rings;
    anchor_eq = ap (λ a. some (origin_of a f.timestamp_us)) h.anchor_eq;
    phases = (
      refl,
      ap₂ (λ m a. push_frame m f (f.timestamp_us - origin_of a f.timestamp_us)) h.muxers
          h.anchor_eq,
    );
  }

module _ {F : Type 0} (secs : ℕ → F) (cfg : SegmenterConfig F) (pt : ℕ × F) where
  abbrev classic : SegmenterConfig F
  classic = without_parts cfg

  abbrev low : SegmenterConfig F
  low = with_parts cfg pt

  close_parts-Closed :
      (c l : Segmenter F) (o o' : Filling) (p : Segmenter F × Filling) (now : ℕ)
      → c.video_wall_anchor ≡ l.video_wall_anchor
      → o.started ≡ o'.started
      → Cut c l o' p
      → Closed (close_plain secs classic c o now) (close_parts secs low p now)
  unfolding close_plain close_parts drain push complete_pending_segment
  close_parts-Closed c l o o' p now anchors started cut =
      let body : concat p.1.local_parts ≡ c.muxer.out = sym (
        ap (λ m. m.out) cut.muxers
        ∙ ap (λ out. concat p.1.local_parts ++ out) cut.drained
        ∙ append-nil (concat p.1.local_parts)) in
      let taken : SegmentRing F = record p.0.ring { pending_parts = [] } in
      record {
        rings =
            subst
              (λ n.
                SameRing
                  (push_with_parts c.ring (secs (now - o.started)) false c.muxer.out [] now).1
                  (push_with_parts taken (secs (now - n)) false (concat p.1.local_parts)
                    p.0.ring.pending_parts now).1)
              (started ∙ sym cut.started_eq)
              (push_with_parts-SameRing c.ring taken (secs (now - o.started)) c.muxer.out
                (concat p.1.local_parts) [] p.0.ring.pending_parts now
                (record {
                  capacity_eq = cut.rings.capacity_eq;
                  segments_eq = cut.rings.segments_eq;
                  next_eq = cut.rings.next_eq;
                  discontinuity_eq = cut.rings.discontinuity_eq;
                })
                body);
        anchor_eq = anchors ∙ sym cut.anchor_eq;
        muxers = ap (λ m. with_out m []) cut.muxers ∙ ap (with_out p.0.muxer) (sym cut.drained);
      }

  close_segment-Closed :
      (c l : Segmenter F) (o o' : Filling) (now : ℕ)
      → SameRing c.ring l.ring
      → c.video_wall_anchor ≡ l.video_wall_anchor
      → o.started ≡ o'.started
      → c.muxer ≡ behind (concat o'.local_parts) l.muxer
      → Closed (close_segment secs classic c o now) (close_segment secs low l o' now)
  unfolding close_segment
  close_segment-Closed c l o o' now rings anchors started muxers =
      close_parts-Closed c l o o' (push_part secs low l o' now) now anchors started
        (push_part-Cut secs low c l o' now rings muxers)

  flush_part-Same :
      (c l : Segmenter F) (o o' : Filling) (now : ℕ)
      → SameRing c.ring l.ring
      → c.video_wall_anchor ≡ l.video_wall_anchor
      → o.started ≡ o'.started
      → c.muxer ≡ behind (concat o'.local_parts) l.muxer
      → Same (flush_part secs classic c o now) (flush_part secs low l o' now)
  unfolding flush_part
  flush_part-Same c l o o' now rings anchors started muxers =
      let cut = push_part-Cut secs low c l o' now rings muxers in
      if_elim (Same (flush_part secs classic c o now)) (part_due low.part_target o' now) _ _
        (λ due. record {
          rings = cut.rings;
          anchor_eq = anchors ∙ sym cut.anchor_eq;
          phases = (started ∙ sym cut.started_eq, cut.muxers);
        })
        (λ early. record { rings = rings; anchor_eq = anchors; phases = (started, muxers) })

  video_filling-Same :
      (c l : Segmenter F) (o o' : Filling) (f : EncodedFrame) (now : ℕ)
      → SameRing c.ring l.ring
      → c.video_wall_anchor ≡ l.video_wall_anchor
      → o.started ≡ o'.started
      → c.muxer ≡ behind (concat o'.local_parts) l.muxer
      → Same (video_filling secs classic c o f now) (video_filling secs low l o' f now)
  unfolding video_filling next_segment
  video_filling-Same c l o o' f now rings anchors started muxers =
      let closed = close_segment-Closed c l o o' now rings anchors started muxers in
      if_both f.is_keyframe (leb cfg.segment_target (now - o.started))
        (leb cfg.segment_target (now - o'.started)) _ _ _ _
        (ap (λ n. leb cfg.segment_target (now - n)) started)
        (open_segment-Same (next_segment (close_segment secs classic c o now))
          (next_segment (close_segment secs low l o' now)) f now
          (record {
            rings = closed.rings;
            anchor_eq = closed.anchor_eq;
            muxers = ap start_segment closed.muxers;
          }))
        (flush_part-Same _ _ o o' now rings anchors started (
          ap₂ (λ m a. push_frame m f (f.timestamp_us - origin_of a f.timestamp_us)) muxers anchors
          ∙ push_frame-behind (concat o'.local_parts) l.muxer f _))

  audio_filling-Same :
      (c l : Segmenter F) (o o' : Filling) (f : AudioFrame) (now : ℕ)
      → SameRing c.ring l.ring
      → c.video_wall_anchor ≡ l.video_wall_anchor
      → o.started ≡ o'.started
      → c.muxer ≡ behind (concat o'.local_parts) l.muxer
      → Same (audio_filling secs classic c o f now) (audio_filling secs low l o' f now)
  unfolding audio_filling
  audio_filling-Same c l o o' f now rings anchors started muxers = record {
    rings = rings;
    anchor_eq = anchors;
    phases = (
      started,
      ap₂ (λ m a. push_audio_frame m f a now) muxers anchors
          ∙ push_audio_frame-behind (concat o'.local_parts) l.muxer f l.video_wall_anchor now,
    );
  }

  step_in-Same :
      (c l : Segmenter F) (p p' : Phase) (e : SegEvent)
      → SameRing c.ring l.ring
      → c.video_wall_anchor ≡ l.video_wall_anchor
      → SamePhase c.muxer p l.muxer p'
      → Same (step_in secs classic c p e) (step_in secs low l p' e)
  unfolding step_in
  step_in-Same c l ended ended e rings anchors same = record {
    rings = rings;
    anchor_eq = anchors;
    phases = tt;
  }
  step_in-Same c l waiting waiting (video none now) rings anchors same = record {
    rings = rings;
    anchor_eq = anchors;
    phases = tt;
  }
  step_in-Same c l waiting waiting (video (some f) now) rings anchors same =
      both f.is_keyframe
        (open_segment-Same c l f now (record { rings = rings; anchor_eq = anchors; muxers = same }))
        (record { rings = rings; anchor_eq = anchors; phases = same })
  step_in-Same c l waiting waiting (audio a now) rings anchors same = record {
    rings = rings;
    anchor_eq = anchors;
    phases = same;
  }
  step_in-Same c l (filling o) (filling o') (video none now) rings anchors (started, muxers) =
      let closed = close_segment-Closed c l o o' now rings anchors started muxers in
      record { rings = closed.rings; anchor_eq = closed.anchor_eq; phases = tt }
  step_in-Same c l (filling o) (filling o') (video (some f) now) rings anchors (started, muxers) =
      video_filling-Same c l o o' f now rings anchors started muxers
  step_in-Same c l (filling o) (filling o') (audio none now) rings anchors same = record {
    rings = rings;
    anchor_eq = anchors;
    phases = same;
  }
  step_in-Same c l (filling o) (filling o') (audio (some a) now) rings anchors (started, muxers) =
      audio_filling-Same c l o o' a now rings anchors started muxers
  step_in-Same c l waiting ended e rings anchors same = elim same [ ]
  step_in-Same c l waiting (filling o') e rings anchors same = elim same [ ]
  step_in-Same c l ended waiting e rings anchors same = elim same [ ]
  step_in-Same c l ended (filling o') e rings anchors same = elim same [ ]
  step_in-Same c l (filling o) waiting e rings anchors same = elim same [ ]
  step_in-Same c l (filling o) ended e rings anchors same = elim same [ ]

  pub run-Same :
      (c l : Segmenter F) (es : List SegEvent)
      → Same c l
      → Same (run secs classic c es) (run secs low l es)
  unfolding run step
  run-Same c l [] h = h
  run-Same c l (e ∷ es) h =
      run-Same (step_in secs classic c c.phase e) (step_in secs low l l.phase e) es
        (step_in-Same c l c.phase l.phase e h.rings h.anchor_eq h.phases)
