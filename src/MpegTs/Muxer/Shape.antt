-- ===== src/MpegTs/Muxer/Shape.antt =====
-- The muxer's invariant: whole packets in the output, continuity counters of four bits.
use ferricast.Base.{
  ℕ, zero, suc, ◌-◌, ◌<◌, ◌≤◌, ◌≡◌, refl, List, [], ◌∷◌, ◌++◌, Bool, true, false, not, ◌||◌, none,
  some, if◌then◌else◌, arith, length, is_empty, ltb, Bool-cases, inl, inr,
}
use ferricast.Base.Words.{sat_add64}
use ferricast.Frame.{EncodedFrame}
use ferricast.MpegTs.{
  pid_pat, pid_pmt, pid_audio, pid_video, pcr_pts_offset, silent_inject_lag_90k,
  silent_inject_max_per_frame, silent_aac_frame, aac_frame_ticks_90k,
}
use ferricast.MpegTs.Pes.{build_audio_pes}
use ferricast.MpegTs.Psi.{build_pat_section, build_pmt_section}
use ferricast.MpegTs.Muxer.{
  MpegTs, Result, ok, err, default, config, add_audio_frame, add_frame, drain, start_segment,
  ensure_psi, emit_pat, emit_pmt, audio_advertised, write_audio, write_video, inject_loop,
  inject_silence, or_else, is_stale,
}
use ferricast.MpegTs.Packet.Alignment.{
  IsAligned, done, IsAligned-append, write_pes_to_ts-IsAligned, write_psi_packet-IsAligned,
}

pub record IsValid (m : MpegTs) : Type 0 where
  pub aligned : IsAligned m.out
  pub pat_counter : m.cc_pat < 16
  pub pmt_counter : m.cc_pmt < 16
  pub video_counter : m.cc_video < 16
  pub audio_counter : m.cc_audio < 16

-- Appending whole packets to the output.
IsAligned-out :
    (m : MpegTs) {bytes : List ℕ} → IsValid m → IsAligned bytes → IsAligned (m.out ++ bytes)
IsAligned-out m v h = IsAligned-append v.aligned h

length-pat_section : length build_pat_section ≤ 183
unfolding build_pat_section
length-pat_section = omega arith

length-pmt_section : (a : Bool) → length (build_pmt_section a) ≤ 183
unfolding build_pmt_section
length-pmt_section false = omega arith
length-pmt_section true = omega arith

emit_pat-IsValid : (m : MpegTs) → IsValid m → IsValid (emit_pat m)
unfolding emit_pat
emit_pat-IsValid m v =
    let (h, c) =
      write_psi_packet-IsAligned pid_pat m.cc_pat build_pat_section length-pat_section
        v.pat_counter in
    record {
      aligned = IsAligned-append v.aligned h;
      pat_counter = c;
      pmt_counter = v.pmt_counter;
      video_counter = v.video_counter;
      audio_counter = v.audio_counter;
    }

emit_pmt-IsValid : (m : MpegTs) → IsValid m → IsValid (emit_pmt m)
unfolding emit_pmt
emit_pmt-IsValid m v =
    let a = audio_advertised m in
    let (h, c) =
      write_psi_packet-IsAligned pid_pmt m.cc_pmt (build_pmt_section a) (length-pmt_section a)
        v.pmt_counter in
    record {
      aligned = IsAligned-append v.aligned h;
      pat_counter = v.pat_counter;
      pmt_counter = c;
      video_counter = v.video_counter;
      audio_counter = v.audio_counter;
    }

if-IsValid : (b : Bool) (m n : MpegTs) → IsValid m → IsValid n → IsValid (if b then m else n)
if-IsValid true m n v w = v
if-IsValid false m n v w = w

-- The invariant is about the output and the counters alone.
same-IsValid :
    (m n : MpegTs)
    → n.out ≡ m.out
    → n.cc_pat ≡ m.cc_pat
    → n.cc_pmt ≡ m.cc_pmt
    → n.cc_video ≡ m.cc_video
    → n.cc_audio ≡ m.cc_audio
    → IsValid m
    → IsValid n
same-IsValid m n o p q r s v = record {
  aligned = rw o v.aligned;
  pat_counter = omega arith;
  pmt_counter = omega arith;
  video_counter = omega arith;
  audio_counter = omega arith;
}

ensure_psi-IsValid : (m : MpegTs) → IsValid m → IsValid (ensure_psi m)
unfolding ensure_psi
ensure_psi-IsValid m v = if-IsValid m.psi_emitted m _ v (
    same-IsValid (emit_pmt (emit_pat m)) _ refl refl refl refl refl
      (emit_pmt-IsValid (emit_pat m) (emit_pat-IsValid m v)))

write_audio-IsValid :
    (m : MpegTs) (payload : List ℕ) (pts : ℕ) → IsValid m → IsValid (write_audio m payload pts)
unfolding write_audio
write_audio-IsValid m payload pts v =
    let (h, c) =
      write_pes_to_ts-IsAligned pid_audio m.cc_audio (build_audio_pes payload pts) false none
        v.audio_counter in
    record {
      aligned = IsAligned-append v.aligned h;
      pat_counter = v.pat_counter;
      pmt_counter = v.pmt_counter;
      video_counter = v.video_counter;
      audio_counter = c;
    }

write_video-IsValid :
    (m : MpegTs) (frame : EncodedFrame) (pts dts : ℕ)
    → IsValid m
    → IsValid (write_video m frame pts dts)
unfolding write_video
write_video-IsValid m frame pts dts v =
    let (h, c) =
      write_pes_to_ts-IsAligned pid_video m.cc_video _ frame.is_keyframe
        (some (dts - pcr_pts_offset)) v.video_counter in
    record {
      aligned = IsAligned-append v.aligned h;
      pat_counter = v.pat_counter;
      pmt_counter = v.pmt_counter;
      video_counter = c;
      audio_counter = v.audio_counter;
    }

inject_loop-IsValid :
    (rounds lag : ℕ) (m : MpegTs) (apts : ℕ) → IsValid m → IsValid (inject_loop rounds lag m apts).0
unfolding inject_loop
inject_loop-IsValid zero lag m apts v = v
inject_loop-IsValid (suc rounds) lag m apts v = elim (Bool-cases (ltb apts lag)) [
  | inl e ↦ rw e (
      inject_loop-IsValid rounds lag (write_audio m silent_aac_frame apts)
        (sat_add64 apts aac_frame_ticks_90k) (write_audio-IsValid m silent_aac_frame apts v))
  | inr e ↦ rw e v
]

inject_silence-IsValid : (m : MpegTs) (pts : ℕ) → IsValid m → IsValid (inject_silence m pts)
unfolding inject_silence
inject_silence-IsValid m pts v = if-IsValid (not (audio_advertised m)) m _ v (
    if-IsValid
      (ltb (or_else m.audio_pts_90k (pts - silent_inject_lag_90k)) (pts - silent_inject_lag_90k)) _
      _
      (same-IsValid _ _ refl refl refl refl refl (
        inject_loop-IsValid silent_inject_max_per_frame (pts - silent_inject_lag_90k) m
          (or_else m.audio_pts_90k (pts - silent_inject_lag_90k)) v))
      (same-IsValid m _ refl refl refl refl refl v))

-- `add_frame` keeps the invariant: whatever it appends are whole packets.
pub add_frame-IsValid :
    (m : MpegTs) (frame : EncodedFrame) (pts dts : ℕ)
    → IsValid m
    → IsValid (add_frame m frame pts dts)
unfolding add_frame
add_frame-IsValid m frame pts dts v = if-IsValid (is_empty frame.bytes) m _ v (
    inject_silence-IsValid _ pts
      (write_video-IsValid (ensure_psi m) frame pts dts (ensure_psi-IsValid m v)))

-- The state behind a call that may fail; a failing call leaves the muxer as it was.
abbrev pub after : MpegTs → Result → MpegTs
after m (ok m') = m'
after m (err e) = m

after-if :
    (P : MpegTs → Type 0) (m : MpegTs) (b : Bool) (r s : Result)
    → P (after m r)
    → P (after m s)
    → P (after m (if b then r else s))
after-if P m true r s h k = h
after-if P m false r s h k = k

pub add_audio_frame-IsValid :
    (m : MpegTs) (payload : List ℕ) (pts : ℕ)
    → IsValid m
    → IsValid (after m (add_audio_frame m payload pts))
unfolding add_audio_frame
add_audio_frame-IsValid m payload pts v = after-if IsValid m (not m.has_external_audio) _ _ v (
    after-if IsValid m (is_empty payload || is_stale m.audio_pts_90k pts) _ _ v (
      same-IsValid (write_audio (ensure_psi m) payload pts) _ refl refl refl refl refl
        (write_audio-IsValid (ensure_psi m) payload pts (ensure_psi-IsValid m v))))

-- The calls of the segmenter, in any order.
pub data Call : Type 0 where
  configures : List ℕ → Call
  video_frame : EncodedFrame → ℕ → ℕ → Call
  audio_frame : List ℕ → ℕ → Call
  drains : Call
  starts_segment : Call

pub step : MpegTs → Call → MpegTs
step m (configures ps) = after m (config m ps)
step m (video_frame frame pts dts) = add_frame m frame pts dts
step m (audio_frame payload pts) = after m (add_audio_frame m payload pts)
step m drains = (drain m).1
step m starts_segment = start_segment m

pub run : MpegTs → List Call → MpegTs
run m [] = m
run m (c ∷ cs) = run (step m c) cs

step-IsValid : (m : MpegTs) (c : Call) → IsValid m → IsValid (step m c)
unfolding step config drain start_segment
step-IsValid m (configures []) v = v
step-IsValid m (configures (b ∷ ps)) v = same-IsValid m _ refl refl refl refl refl v
step-IsValid m (video_frame frame pts dts) v = add_frame-IsValid m frame pts dts v
step-IsValid m (audio_frame payload pts) v = add_audio_frame-IsValid m payload pts v
step-IsValid m drains v = record {
  aligned = done;
  pat_counter = v.pat_counter;
  pmt_counter = v.pmt_counter;
  video_counter = v.video_counter;
  audio_counter = v.audio_counter;
}
step-IsValid m starts_segment v = same-IsValid m _ refl refl refl refl refl v

-- After any calls on a muxer in a valid state the output is a sequence of
-- whole packets of 188 bytes with the sync byte first, and every continuity counter has four bits.
pub run-IsValid : (m : MpegTs) (cs : List Call) → IsValid m → IsValid (run m cs)
unfolding run
run-IsValid m [] v = v
run-IsValid m (c ∷ cs) v = run-IsValid (step m c) cs (step-IsValid m c v)

pub default-IsValid : IsValid default
unfolding default
default-IsValid = record {
  aligned = done;
  pat_counter = omega arith;
  pmt_counter = omega arith;
  video_counter = omega arith;
  audio_counter = omega arith;
}
