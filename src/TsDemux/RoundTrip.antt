-- ===== src/TsDemux/RoundTrip.antt =====
-- What the receiver demuxes of a segment that the sender muxed.
use ferricast.Base.{
  ℕ, ◌-◌, ◌≤◌, ◌≡◌, refl, ap, ◌∙◌, sym, List, [], ◌∷◌, ◌++◌, append_assoc, append-nil, false,
  length, drop, none, some, arith, if◌then◌else◌, is_empty, Bool-cases, inl, inr,
}
use native.Mathlib.Nat.{le_refl}
use ferricast.Frame.{h264}
use ferricast.MpegTs.{pid_pmt, pcr_pts_offset}
use ferricast.MpegTs.Psi.{psi}
use ferricast.TsDemux.Tables.{with_streams, push_loop-psi}
use ferricast.MpegTs.Pes.{build_access_unit}
use ferricast.MpegTs.Muxer.{MpegTs, drain}
use ferricast.MpegTs.Muxer.Frames.{
  Timed, video_packets, add_frames, stream, IsFresh, out-add_frames_empty, out-add_frames_segment,
  stream-sent, stream-skipped,
}
use ferricast.TsDemux.{
  TsDemuxer, DemuxedPacket, video, new, flush, flush_video, flush_audio, push_video, or_zero,
}
use ferricast.TsDemux.Packets.{push_loop, push}
use ferricast.TsDemux.Pes.{emit_video}
use ferricast.TsDemux.Feed.{KnowsVideo, push_loop_fuel}
use ferricast.TsDemux.Start.{micros, started, started-KnowsVideo, push_loop-build_pes}

-- A demuxed access unit.
abbrev pub video_frame : List ℕ → ℕ → DemuxedPacket
video_frame bytes pts = video (record {
  codec = h264;
  bytes = bytes;
  timestamp_us = pts;
  is_keyframe = false;
  duration_us = none;
  pts_dts = (pts, pts);
})

-- The access units that arrive: one for each frame with data, in order, each with its delimiter
-- and, on a keyframe, the parameter sets, and with its PTS in microseconds.
abbrev pub delivered : List ℕ → List Timed → List DemuxedPacket
delivered ps [] = []
delivered ps ((frame, pts, dts) ∷ frames) =
    if is_empty frame.bytes
    then delivered ps frames
    else video_frame (build_access_unit ps frame.is_keyframe frame.bytes) (micros pts)
      ∷ delivered ps frames

-- The demuxer in the video stream, with no audio in flight.
record InVideo (d : TsDemuxer) : Type 0 where
  pub knows : KnowsVideo d
  pub codec : d.info.video_codec ≡ some h264
  pub silent : d.audio_pes.buf ≡ []

-- What has been emitted, and what is in flight.
abbrev in_flight : TsDemuxer → List DemuxedPacket
in_flight d =
    if is_empty d.video_pes.buf
    then []
    else video_frame d.video_pes.buf (or_zero d.video_pes.pts_us) ∷ []

abbrev all_of : TsDemuxer → List DemuxedPacket
all_of d = d.out ++ in_flight d

out-emit_video : (d : TsDemuxer) → InVideo d → (emit_video d).out ≡ all_of d
unfolding emit_video push_video
out-emit_video d v = elim (Bool-cases (is_empty d.video_pes.buf)) [
  | inl e ↦ rw e (sym (append-nil d.out))
  | inr e ↦ rw (e, v.codec)
]

all_of-started :
    (d : TsDemuxer) (b : ℕ) (bs : List ℕ) (pts : ℕ)
    → InVideo d
    → all_of (started d (b ∷ bs) pts) ≡ all_of d ++ (video_frame (b ∷ bs) (micros pts) ∷ [])
all_of-started d b bs pts v =
    ap (λ l. l ++ (video_frame (b ∷ bs) (micros pts) ∷ [])) (out-emit_video d v)

emit_video-codec : (d : TsDemuxer) → InVideo d → (emit_video d).info.video_codec ≡ some h264
unfolding emit_video push_video
emit_video-codec d v = elim (Bool-cases (is_empty d.video_pes.buf)) [
  | inl e ↦ rw e v.codec
  | inr e ↦ rw (e, v.codec)
]

emit_video-silent : (d : TsDemuxer) → InVideo d → (emit_video d).audio_pes.buf ≡ []
unfolding emit_video push_video
emit_video-silent d v = elim (Bool-cases (is_empty d.video_pes.buf)) [
  | inl e ↦ rw e v.silent
  | inr e ↦ rw (e, v.codec) v.silent
]

started-InVideo :
    (d : TsDemuxer) (bytes : List ℕ) (pts : ℕ) → InVideo d → InVideo (started d bytes pts)
started-InVideo d bytes pts v = record {
  knows = started-KnowsVideo d bytes pts v.knows;
  codec = emit_video-codec d v;
  silent = emit_video-silent d v;
}

out-flush : (d : TsDemuxer) → InVideo d → (flush d).out ≡ all_of d
unfolding flush flush_video flush_audio push_video
out-flush d v = elim (Bool-cases (is_empty d.video_pes.buf)) [
  | inl e ↦ rw (e, v.silent) (sym (append-nil d.out))
  | inr e ↦ rw (e, v.codec, v.silent)
]

-- The demuxer has taken in the frames.
record TookIn (d d' : TsDemuxer) (frames : List DemuxedPacket) : Type 0 where
  pub all : all_of d' ≡ all_of d ++ frames
  pub inside : InVideo d'

push_loop-nil : (f : ℕ) (d : TsDemuxer) → push_loop f d [] ≡ d
push_loop-nil f d = push_loop_fuel f 0 d [] (omega arith) (omega arith) ∙ unfold push_loop in refl

TookIn-nothing : (f : ℕ) (d : TsDemuxer) → InVideo d → TookIn d (push_loop f d []) []
TookIn-nothing f d v =
    rw (push_loop-nil f d) (record { all = sym (append-nil (all_of d)); inside = v })

TookIn-started :
    (d : TsDemuxer) (b : ℕ) (bs : List ℕ) (pts : ℕ) (frames : List DemuxedPacket) (d' : TsDemuxer)
    → InVideo d
    → TookIn (started d (b ∷ bs) pts) d' frames
    → TookIn d d' (video_frame (b ∷ bs) (micros pts) ∷ frames)
TookIn-started d b bs pts frames d' v t = record {
  all =
      t.all
      ∙ ap (λ l. l ++ frames) (all_of-started d b bs pts v)
      ∙ append_assoc (all_of d) (video_frame (b ∷ bs) (micros pts) ∷ []) frames;
  inside = t.inside;
}

push_loop-stream :
    (ps : List ℕ) (cc f : ℕ) (d : TsDemuxer) (frames : List Timed)
    → InVideo d
    → length (stream ps cc frames) ≤ f
    → TookIn d (push_loop f d (stream ps cc frames)) (delivered ps frames)
unfolding build_access_unit
push_loop-stream ps cc f d [] v h = unfold stream in TookIn-nothing f d v
push_loop-stream ps cc f d ((frame, pts, dts) ∷ frames) v h =
    elim (Bool-cases (is_empty frame.bytes)) [
      | inl e ↦
          let s = stream-skipped ps cc frame pts dts frames e in
          rw (s, e) (push_loop-stream ps cc f d frames v (omega (arith, ap length s)))
      | inr e ↦
          let (packets, cc') = video_packets ps cc frame pts dts in
          let later = stream ps cc' frames in
          let au = build_access_unit ps frame.is_keyframe frame.bytes in
          let s = stream-sent ps cc frame pts dts frames e in
          let fed =
            push_loop-build_pes f d cc 0 (drop 1 au) pts dts frame.is_keyframe
              (dts - pcr_pts_offset) later v.knows (omega (arith, ap length s)) in
          rw (s, e, fed)
            (TookIn-started d 0 (drop 1 au) pts (delivered ps frames) _ v (
              push_loop-stream ps cc' (length later) (started d au pts) frames
                (started-InVideo d au pts v) (le_refl _)))
    ]

-- The demuxer behind the tables of a segment without audio.
abbrev tuned : TsDemuxer
tuned = with_streams (record new { pmt_pid = some pid_pmt }) false

tuned-InVideo : InVideo tuned
unfolding new
tuned-InVideo = record {
  knows = record { pmt = refl; video = refl; known = refl };
  codec = refl;
  silent = refl;
}

all_of-tuned : all_of tuned ≡ []
unfolding new
all_of-tuned = refl

out-push_segment :
    (ps : List ℕ) (cc cc_pat cc_pmt : ℕ) (frames : List Timed)
    → (flush (push new (psi cc_pat cc_pmt false ++ stream ps cc frames))).out ≡ delivered ps frames
out-push_segment ps cc cc_pat cc_pmt frames =
    let s = stream ps cc frames in
    let t = push_loop-stream ps cc (length s) tuned frames tuned-InVideo (le_refl _) in
    unfold push in
    ap (λ d. (flush d).out) (push_loop-psi _ new cc_pat cc_pmt false s (le_refl _))
    ∙ out-flush (push_loop (length s) tuned s) t.inside
    ∙ t.all
    ∙ ap (λ l. l ++ delivered ps frames) all_of-tuned

push_nothing : (flush (push new [])).out ≡ []
unfolding push push_loop new flush flush_video flush_audio
push_nothing = refl

-- A fresh segment of a muxer without audio, drained after any calls of `add_frame` and fed to a new
-- demuxer, gives after a flush exactly the access units of the frames with data, in order, each
-- with its PTS in microseconds (of the 33 bits that a PES header holds). Every access unit is
-- whole: the delimiter, on a keyframe the parameter sets, and the frame's data.
pub push-add_frames :
    (m : MpegTs) (frames : List Timed)
    → IsFresh m
    → (flush (push new (drain (add_frames m frames)).0)).out ≡ delivered m.parameter_sets frames
unfolding drain
push-add_frames m [] f = unfold add_frames in rw f.drained push_nothing
push-add_frames m ((frame, pts, dts) ∷ frames) f = elim (Bool-cases (is_empty frame.bytes)) [
  | inl e ↦ rw (out-add_frames_empty m frame pts dts frames e, e) (push-add_frames m frames f)
  | inr e ↦
      ap (λ l. (flush (push new l)).out) (out-add_frames_segment m frame pts dts frames f e)
      ∙ out-push_segment m.parameter_sets m.cc_video m.cc_pat m.cc_pmt ((frame, pts, dts) ∷ frames)
]
