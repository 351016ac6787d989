-- ===== src/MpegTs/Muxer/Frames.antt =====
-- A segment of video frames: what `add_frame` appends, call by call.
use ferricast.Base.{
  ℕ, ◌-◌, ◌≡◌, refl, ap, ◌∙◌, sym, List, [], ◌∷◌, ◌++◌, append-nil, append_assoc, true, false, some,
  if◌then◌else◌, is_empty, inl, inr, Bool-cases,
}
use ferricast.Frame.{EncodedFrame}
use ferricast.MpegTs.{pid_video, pcr_pts_offset}
use ferricast.MpegTs.Psi.{psi}
use ferricast.MpegTs.Pes.{build_pes, build_access_unit}
use ferricast.MpegTs.Packet.{write_pes_to_ts}
use ferricast.MpegTs.Muxer.{
  MpegTs, add_frame, ensure_psi, emit_pat, emit_pmt, write_video, inject_silence, audio_advertised,
}

-- A call of `add_frame`: the frame, its PTS and its DTS.
abbrev pub Timed : Type 0
Timed = EncodedFrame × ℕ × ℕ

unfoldable pub add_frames : MpegTs → List Timed → MpegTs
add_frames m [] = m
add_frames m ((frame, pts, dts) ∷ frames) = add_frames (add_frame m frame pts dts) frames

-- The packets of one access unit.
abbrev pub video_packets : List ℕ → ℕ → EncodedFrame → ℕ → ℕ → List ℕ × ℕ
video_packets ps cc frame pts dts =
    write_pes_to_ts pid_video cc
      (build_pes (build_access_unit ps frame.is_keyframe frame.bytes) pts dts) frame.is_keyframe
      (some (dts - pcr_pts_offset))

-- What the frames add to a segment whose tables are out: nothing for a frame without data.
unfoldable pub stream : List ℕ → ℕ → List Timed → List ℕ
stream ps cc [] = []
stream ps cc ((frame, pts, dts) ∷ frames) =
    let (packets, cc') = video_packets ps cc frame pts dts in
    let skipped = stream ps cc frames in
    let sent = packets ++ stream ps cc' frames in if is_empty frame.bytes then skipped else sent

-- A muxer with its tables out and no audio.
pub record IsVideoOnly (m : MpegTs) : Type 0 where
  pub tables_out : m.psi_emitted ≡ true
  pub no_silence : m.inject_silent_audio ≡ false
  pub no_external : m.has_external_audio ≡ false

pub add_frame-empty :
    (m : MpegTs) (frame : EncodedFrame) (pts dts : ℕ)
    → is_empty frame.bytes ≡ true
    → add_frame m frame pts dts ≡ m
unfolding add_frame
add_frame-empty m frame pts dts e = rw e

pub add_frame-video :
    (m : MpegTs) (frame : EncodedFrame) (pts dts : ℕ)
    → is_empty frame.bytes ≡ false
    → IsVideoOnly m
    → add_frame m frame pts dts ≡ write_video m frame pts dts
unfolding add_frame inject_silence ensure_psi audio_advertised write_video
add_frame-video m frame pts dts e v = rw (e, v.tables_out, v.no_silence, v.no_external)

pub write_video-IsVideoOnly :
    (m : MpegTs) (frame : EncodedFrame) (pts dts : ℕ)
    → IsVideoOnly m
    → IsVideoOnly (write_video m frame pts dts)
unfolding write_video
write_video-IsVideoOnly m frame pts dts v = record {
  tables_out = v.tables_out;
  no_silence = v.no_silence;
  no_external = v.no_external;
}

pub stream-sent :
    (ps : List ℕ) (cc : ℕ) (frame : EncodedFrame) (pts dts : ℕ) (frames : List Timed)
    → is_empty frame.bytes ≡ false
    → let (packets, cc') = video_packets ps cc frame pts dts in
      stream ps cc ((frame, pts, dts) ∷ frames) ≡ packets ++ stream ps cc' frames
unfolding stream
stream-sent ps cc frame pts dts frames e = rw e

pub stream-skipped :
    (ps : List ℕ) (cc : ℕ) (frame : EncodedFrame) (pts dts : ℕ) (frames : List Timed)
    → is_empty frame.bytes ≡ true
    → stream ps cc ((frame, pts, dts) ∷ frames) ≡ stream ps cc frames
unfolding stream
stream-skipped ps cc frame pts dts frames e = rw e

out-write_video :
    (m : MpegTs) (frame : EncodedFrame) (pts dts : ℕ) (frames : List Timed)
    → let (packets, cc') = video_packets m.parameter_sets m.cc_video frame pts dts in
      let m' = write_video m frame pts dts in
      m'.out ++ stream m'.parameter_sets m'.cc_video frames
      ≡ m.out ++ (packets ++ stream m.parameter_sets cc' frames)
unfolding write_video
out-write_video m frame pts dts frames =
    let (packets, cc') = video_packets m.parameter_sets m.cc_video frame pts dts in
    append_assoc m.out packets (stream m.parameter_sets cc' frames)

-- Behind the tables, the calls append the packets of the frames, and nothing else.
pub out-add_frames :
    (m : MpegTs) (frames : List Timed)
    → IsVideoOnly m
    → (add_frames m frames).out ≡ m.out ++ stream m.parameter_sets m.cc_video frames
unfolding add_frames
out-add_frames m [] v = unfold stream in sym (append-nil m.out)
out-add_frames m ((frame, pts, dts) ∷ frames) v = elim (Bool-cases (is_empty frame.bytes)) [
  | inl e ↦
      ap (λ m'. (add_frames m' frames).out) (add_frame-empty m frame pts dts e)
      ∙ out-add_frames m frames v
      ∙ ap (λ l. m.out ++ l)
          (sym (stream-skipped m.parameter_sets m.cc_video frame pts dts frames e))
  | inr e ↦
      ap (λ m'. (add_frames m' frames).out) (add_frame-video m frame pts dts e v)
      ∙ out-add_frames (write_video m frame pts dts) frames
          (write_video-IsVideoOnly m frame pts dts v)
      ∙ out-write_video m frame pts dts frames
      ∙ ap (λ l. m.out ++ l) (sym (stream-sent m.parameter_sets m.cc_video frame pts dts frames e))
]

ensure_psi-ensure_psi : (m : MpegTs) → ensure_psi (ensure_psi m) ≡ ensure_psi m
unfolding ensure_psi
ensure_psi-ensure_psi m = elim (Bool-cases m.psi_emitted) [ inl e ↦ rw e | inr e ↦ rw e ]

-- A frame with data begins the segment: the tables are put out first.
pub add_frame-ensure_psi :
    (m : MpegTs) (frame : EncodedFrame) (pts dts : ℕ)
    → is_empty frame.bytes ≡ false
    → add_frame m frame pts dts ≡ add_frame (ensure_psi m) frame pts dts
unfolding add_frame
add_frame-ensure_psi m frame pts dts e = rw (e, ensure_psi-ensure_psi m)

-- A fresh segment of a muxer without audio.
pub record IsFresh (m : MpegTs) : Type 0 where
  pub tables_due : m.psi_emitted ≡ false
  pub drained : m.out ≡ []
  pub no_silence : m.inject_silent_audio ≡ false
  pub no_external : m.has_external_audio ≡ false

ensure_psi-IsVideoOnly : (m : MpegTs) → IsFresh m → IsVideoOnly (ensure_psi m)
unfolding ensure_psi emit_pat emit_pmt
ensure_psi-IsVideoOnly m f =
    rw f.tables_due
      (record { tables_out = refl; no_silence = f.no_silence; no_external = f.no_external })

ensure_psi-segment :
    (m : MpegTs) (frames : List Timed)
    → IsFresh m
    → let m' = ensure_psi m in
      m'.out ++ stream m'.parameter_sets m'.cc_video frames
      ≡ psi m.cc_pat m.cc_pmt false ++ stream m.parameter_sets m.cc_video frames
unfolding ensure_psi emit_pat emit_pmt audio_advertised
ensure_psi-segment m frames f = rw (f.tables_due, f.drained, f.no_silence, f.no_external)

pub out-add_frames_empty :
    (m : MpegTs) (frame : EncodedFrame) (pts dts : ℕ) (frames : List Timed)
    → is_empty frame.bytes ≡ true
    → (add_frames m ((frame, pts, dts) ∷ frames)).out ≡ (add_frames m frames).out
unfolding add_frames
out-add_frames_empty m frame pts dts frames e =
    ap (λ m'. (add_frames m' frames).out) (add_frame-empty m frame pts dts e)

-- A segment that begins with a frame with data is the tables and then the packets of the frames.
pub out-add_frames_segment :
    (m : MpegTs) (frame : EncodedFrame) (pts dts : ℕ) (frames : List Timed)
    → IsFresh m
    → is_empty frame.bytes ≡ false
    → (add_frames m ((frame, pts, dts) ∷ frames)).out
      ≡ psi m.cc_pat m.cc_pmt false
        ++ stream m.parameter_sets m.cc_video ((frame, pts, dts) ∷ frames)
out-add_frames_segment m frame pts dts frames f e =
    unfold add_frames in
    ap (λ m'. (add_frames m' frames).out) (add_frame-ensure_psi m frame pts dts e)
    ∙ unfold add_frames in
      out-add_frames (ensure_psi m) ((frame, pts, dts) ∷ frames) (ensure_psi-IsVideoOnly m f)
      ∙ ensure_psi-segment m ((frame, pts, dts) ∷ frames) f
