-- ===== src/Hls/Segmenter/Whole.antt =====
-- With parts, every segment's body is its parts in a row.
use ferricast.Base.{
  ℕ, ◌-◌, ◌≡◌, refl, sym, ap, ◌∙◌, List, [], ◌∷◌, ◌++◌, Option, none, some, Bool, ◌&&◌, ltb, leb,
  All, All-append, is_empty, length,
}
use ferricast.Frame.{EncodedFrame}
use ferricast.MpegTs.Muxer.{drain, config}
use ferricast.Hls.Ring.{
  Part, Segment, SegmentRing, new, enable_low_latency, push_pending_part, push_with_parts,
  complete_pending_segment, evict,
}
use ferricast.Hls.Segmenter.{
  SegmenterConfig, SegEvent, video, audio, Filling, Phase, waiting, ended, filling, Segmenter,
  concat, open_segment, push_part, part_due, flush_part, close_parts, close_segment, next_segment,
  video_filling, audio_filling, step_in, step, run, start, run_from_frames, push_frame, origin_of,
}
use ferricast.Hls.Segmenter.Modes.{if_elim}
use ferricast.Hls.Segmenter.Step.{with_parts}

module _ {F : Type 0} where
  abbrev pub bodies : List (Part F) → List (List ℕ)
  bodies [] = []
  bodies (p ∷ ps) = p.bytes ∷ bodies ps

  -- The body of a segment is the bytes of its parts in order.
  abbrev pub IsWhole : Segment F → Type 0
  IsWhole s = s.bytes ≡ concat (bodies s.parts)

  bodies-snoc :
      (ps : List (Part F)) (p : Part F) → bodies (ps ++ p ∷ []) ≡ bodies ps ++ p.bytes ∷ []
  bodies-snoc [] p = refl
  bodies-snoc (q ∷ qs) p = ap (λ r. q.bytes ∷ r) (bodies-snoc qs p)

  evict-All :
      (P : Segment F → Type 0) (capacity : ℕ) (ss : List (Segment F))
      → All P ss
      → All P (evict capacity ss)
  unfolding evict
  evict-All P capacity [] h = tt
  evict-All P capacity (s ∷ ss) (h, hs) =
      if_elim (All P) (ltb capacity (length (s ∷ ss))) _ _ (λ e. evict-All P capacity ss hs)
        (λ e. (h, hs))

  -- The parts pending in the ring are those that the segment has been cut into so far; between
  -- segments there are none.
  Pending : List (Part F) → Phase → Type 0
  Pending ps waiting = ps ≡ []
  Pending ps ended = Unit
  Pending ps (filling o) = bodies ps ≡ o.local_parts

  record Kept (ring : SegmentRing F) (phase : Phase) : Type 0 where
    whole : All IsWhole ring.segments
    pending : Pending ring.pending_parts phase

  module _ (secs : ℕ → F) (cfg : SegmenterConfig F) where
    Filled : Segmenter F × Filling → Type 0
    Filled (s, o) = All IsWhole s.ring.segments × (bodies s.ring.pending_parts ≡ o.local_parts)

    push_part-Filled :
        (s : Segmenter F) (o : Filling) (now : ℕ)
        → Filled (s, o)
        → Filled (push_part secs cfg s o now)
    unfolding push_part push_pending_part drain Filled
    push_part-Filled s o now (h, e) =
        if_elim Filled (is_empty s.muxer.out) _ _ (λ x. (h, e))
          (λ x. (h, bodies-snoc s.ring.pending_parts _ ∙ ap (λ l. l ++ s.muxer.out ∷ []) e))

    close_parts-IsWhole :
        (p : Segmenter F × Filling) (now : ℕ)
        → Filled p
        → All IsWhole (close_parts secs cfg p now).ring.segments
          × ((close_parts secs cfg p now).ring.pending_parts ≡ [])
    unfolding close_parts complete_pending_segment push_with_parts Filled
    close_parts-IsWhole (s, o) now (h, e) = (
      evict-All IsWhole s.ring.capacity _
          (All-append IsWhole s.ring.segments _ h (ap concat (sym e), tt)),
      refl,
    )

  module _ (secs : ℕ → F) (cfg : SegmenterConfig F) (pt : ℕ × F) where
    abbrev low : SegmenterConfig F
    low = with_parts cfg pt

    open_segment-Kept :
        (s : Segmenter F) (f : EncodedFrame) (now : ℕ)
        → All IsWhole s.ring.segments
        → s.ring.pending_parts ≡ []
        → Kept (open_segment s f now).ring (open_segment s f now).phase
    unfolding open_segment Pending
    open_segment-Kept s f now h e = record { whole = h; pending = ap bodies e }

    flush_part-Kept :
        (s : Segmenter F) (o : Filling) (now : ℕ)
        → Filled secs low (s, o)
        → Kept (flush_part secs low s o now).ring (flush_part secs low s o now).phase
    unfolding flush_part Filled Pending
    flush_part-Kept s o now (h, e) =
        let (h', e') = push_part-Filled secs low s o now (h, e) in
        if_elim (λ (t : Segmenter F). Kept t.ring t.phase) (part_due low.part_target o now) _ _
          (λ due. record { whole = h'; pending = e' }) (λ early. record { whole = h; pending = e })

    video_filling-Kept :
        (s : Segmenter F) (o : Filling) (f : EncodedFrame) (now : ℕ)
        → Filled secs low (s, o)
        → Kept (video_filling secs low s o f now).ring (video_filling secs low s o f now).phase
    unfolding video_filling close_segment next_segment Filled
    video_filling-Kept s o f now h =
        let (whole, none_left) =
          close_parts-IsWhole secs low (push_part secs low s o now) now
            (push_part-Filled secs low s o now h) in
        let pushed : Segmenter F = record s {
          muxer =
              push_frame s.muxer f (f.timestamp_us - origin_of s.video_wall_anchor f.timestamp_us);
        } in
        if_elim (λ (t : Segmenter F). Kept t.ring t.phase)
          (f.is_keyframe && leb cfg.segment_target (now - o.started))
          (open_segment (next_segment (close_segment secs low s o now)) f now)
          (flush_part secs low pushed o now)
          (λ x.
            open_segment-Kept (next_segment (close_segment secs low s o now)) f now whole none_left)
          (λ x. flush_part-Kept pushed o now h)

    step_in-Kept :
        (s : Segmenter F) (p : Phase) (e : SegEvent)
        → Kept s.ring p
        → Kept (step_in secs low s p e).ring (step_in secs low s p e).phase
    unfolding step_in Pending Filled audio_filling close_segment
    step_in-Kept s ended e k = record { whole = k.whole; pending = tt }
    step_in-Kept s waiting (video none now) k = record { whole = k.whole; pending = tt }
    step_in-Kept s waiting (video (some f) now) k =
        if_elim (λ (t : Segmenter F). Kept t.ring t.phase) f.is_keyframe _ _
          (λ key. open_segment-Kept s f now k.whole k.pending)
          (λ other. record { whole = k.whole; pending = k.pending })
    step_in-Kept s waiting (audio a now) k = record { whole = k.whole; pending = k.pending }
    step_in-Kept s (filling o) (video none now) k =
        let (whole, none_left) =
          close_parts-IsWhole secs low (push_part secs low s o now) now
            (push_part-Filled secs low s o now (k.whole, k.pending)) in
        record { whole = whole; pending = tt }
    step_in-Kept s (filling o) (video (some f) now) k =
        video_filling-Kept s o f now (k.whole, k.pending)
    step_in-Kept s (filling o) (audio none now) k = record { whole = k.whole; pending = k.pending }
    step_in-Kept s (filling o) (audio (some a) now) k = record {
      whole = k.whole;
      pending = k.pending;
    }

    run-Kept :
        (s : Segmenter F) (es : List SegEvent)
        → Kept s.ring s.phase
        → Kept (run secs low s es).ring (run secs low s es).phase
    unfolding run step
    run-Kept s [] k = k
    run-Kept s (e ∷ es) k = run-Kept (step_in secs low s s.phase e) es (step_in-Kept s s.phase e k)

    -- The ring of a machine that has started.
    abbrev pub AllWhole : Option (Segmenter F) → Type 0
    AllWhole none = Unit
    AllWhole (some s) = All IsWhole s.ring.segments

    -- With parts published, every segment that a run from a new ring leaves in the ring has as its
    -- body exactly the bytes of its parts, in order.
    pub run_from_frames-AllWhole :
        (parameter_sets : List ℕ) (external_audio : Bool) (capacity : ℕ) (es : List SegEvent)
        → AllWhole (run_from_frames secs low parameter_sets external_audio (new capacity) es)
    unfolding run_from_frames start config enable_low_latency new Pending
    run_from_frames-AllWhole [] external_audio capacity es = tt
    run_from_frames-AllWhole (b ∷ bs) external_audio capacity es =
        (run-Kept _ es (record { whole = tt; pending = refl })).whole
