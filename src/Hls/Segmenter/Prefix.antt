-- ===== src/Hls/Segmenter/Prefix.antt =====
-- The muxer only appends to its output: what stands in front of it makes no difference.
use ferricast.Base.{
  ℕ, zero, suc, ◌-◌, ◌≡◌, refl, sym, ap, ◌∙◌, List, ◌++◌, append_assoc, Option, none, some, Bool,
  true, false, not, ◌||◌, ltb, if◌then◌else◌, is_empty, max, Bool-cases, inl, inr,
}
use ferricast.Base.Words.{sat_add64}
use ferricast.Frame.{EncodedFrame, AudioFrame}
use ferricast.MpegTs.{
  silent_aac_frame, aac_frame_ticks_90k, silent_inject_lag_90k, silent_inject_max_per_frame,
}
use ferricast.MpegTs.Muxer
use ferricast.MpegTs.Muxer.{
  MpegTs, emit_pat, emit_pmt, audio_advertised, ensure_psi, write_audio, write_video, inject_loop,
  inject_silence, add_frame, add_audio_frame, or_else, or_zero, is_stale,
}
use ferricast.Hls.Segmenter.{push_frame, push_audio_frame, logged, max_audio_staleness_us}

abbrev pub behind : List ℕ → MpegTs → MpegTs
behind p m = record m { out = p ++ m.out }

emit_pat-behind : (p : List ℕ) (m : MpegTs) → emit_pat (behind p m) ≡ behind p (emit_pat m)
unfolding emit_pat
emit_pat-behind p m = ap (λ o. record (emit_pat m) { out = o }) (append_assoc p m.out _)

emit_pmt-behind : (p : List ℕ) (m : MpegTs) → emit_pmt (behind p m) ≡ behind p (emit_pmt m)
unfolding emit_pmt audio_advertised
emit_pmt-behind p m = ap (λ o. record (emit_pmt m) { out = o }) (append_assoc p m.out _)

if-behind :
    (b : Bool) (p : List ℕ) (x x' y y' : MpegTs)
    → x ≡ behind p x'
    → y ≡ behind p y'
    → (if b then x else y) ≡ behind p (if b then x' else y')
if-behind true p x x' y y' h k = h
if-behind false p x x' y y' h k = k

tables_sent : MpegTs → MpegTs
tables_sent m = record m { psi_emitted = true }

ensure_psi-behind : (p : List ℕ) (m : MpegTs) → ensure_psi (behind p m) ≡ behind p (ensure_psi m)
unfolding ensure_psi tables_sent
ensure_psi-behind p m =
    if-behind m.psi_emitted p (behind p m) m (tables_sent (emit_pmt (emit_pat (behind p m))))
      (tables_sent (emit_pmt (emit_pat m))) refl
      (ap tables_sent (ap emit_pmt (emit_pat-behind p m) ∙ emit_pmt-behind p (emit_pat m)))

write_audio-behind :
    (p : List ℕ) (m : MpegTs) (payload : List ℕ) (pts : ℕ)
    → write_audio (behind p m) payload pts ≡ behind p (write_audio m payload pts)
unfolding write_audio
write_audio-behind p m payload pts =
    ap (λ o. record (write_audio m payload pts) { out = o }) (append_assoc p m.out _)

write_video-behind :
    (p : List ℕ) (m : MpegTs) (f : EncodedFrame) (pts dts : ℕ)
    → write_video (behind p m) f pts dts ≡ behind p (write_video m f pts dts)
unfolding write_video
write_video-behind p m f pts dts =
    ap (λ o. record (write_video m f pts dts) { out = o }) (append_assoc p m.out _)

inject_loop-behind :
    (p : List ℕ) (rounds lag : ℕ) (m : MpegTs) (apts : ℕ)
    → inject_loop rounds lag (behind p m) apts
      ≡ (behind p (inject_loop rounds lag m apts).0, (inject_loop rounds lag m apts).1)
unfolding inject_loop
inject_loop-behind p zero lag m apts = refl
inject_loop-behind p (suc rounds) lag m apts = elim (Bool-cases (ltb apts lag)) [
  | inl e ↦ rw e (
      ap (λ n. inject_loop rounds lag n (sat_add64 apts aac_frame_ticks_90k))
        (write_audio-behind p m silent_aac_frame apts)
      ∙ inject_loop-behind p rounds lag (write_audio m silent_aac_frame apts)
          (sat_add64 apts aac_frame_ticks_90k))
  | inr e ↦ rw e refl
]

watermark : MpegTs × ℕ → MpegTs
watermark (m, apts) = record m { audio_pts_90k = some apts }

inject_silence-behind :
    (p : List ℕ) (m : MpegTs) (pts : ℕ)
    → inject_silence (behind p m) pts ≡ behind p (inject_silence m pts)
unfolding inject_silence audio_advertised watermark
inject_silence-behind p m pts =
    let lag = pts - silent_inject_lag_90k in
    let start = or_else m.audio_pts_90k lag in
    if-behind (not (audio_advertised m)) p (behind p m) m _ _ refl (
      if-behind (ltb start lag) p _
        (watermark (inject_loop silent_inject_max_per_frame lag m start)) _ _
        (ap watermark (inject_loop-behind p silent_inject_max_per_frame lag m start)) refl)

add_frame-behind :
    (p : List ℕ) (m : MpegTs) (f : EncodedFrame) (pts dts : ℕ)
    → add_frame (behind p m) f pts dts ≡ behind p (add_frame m f pts dts)
unfolding add_frame
add_frame-behind p m f pts dts = if-behind (is_empty f.bytes) p (behind p m) m _ _ refl (
    ap (λ n. inject_silence n pts)
      (ap (λ n. write_video n f pts dts) (ensure_psi-behind p m)
        ∙ write_video-behind p (ensure_psi m) f pts dts)
    ∙ inject_silence-behind p (write_video (ensure_psi m) f pts dts) pts)

pub push_frame-behind :
    (p : List ℕ) (m : MpegTs) (f : EncodedFrame) (pts_us : ℕ)
    → push_frame (behind p m) f pts_us ≡ behind p (push_frame m f pts_us)
unfolding push_frame
push_frame-behind p m f pts_us = add_frame-behind p m f _ _

advance : MpegTs → Option ℕ → MpegTs
advance m mark = record m { audio_pts_90k = mark }

logged_if :
    (a b : Bool) (m x : MpegTs)
    → logged m
        (if a then Muxer.err Muxer.not_external_audio else if b then Muxer.ok m else Muxer.ok x)
      ≡ (if a then m else if b then m else x)
logged_if true b m x = refl
logged_if false true m x = refl
logged_if false false m x = refl

audio-behind :
    (p : List ℕ) (m : MpegTs) (payload : List ℕ) (pts : ℕ)
    → logged (behind p m) (add_audio_frame (behind p m) payload pts)
      ≡ behind p (logged m (add_audio_frame m payload pts))
unfolding add_audio_frame advance
audio-behind p m payload pts =
    let a = not m.has_external_audio in
    let b = is_empty payload || is_stale m.audio_pts_90k pts in
    let mark = some (max (sat_add64 pts aac_frame_ticks_90k) (or_zero m.audio_pts_90k)) in
    let written = write_audio (ensure_psi m) payload pts in
    let written' = write_audio (ensure_psi (behind p m)) payload pts in
    let same : written' ≡ behind p written =
      ap (λ n. write_audio n payload pts) (ensure_psi-behind p m)
      ∙ write_audio-behind p (ensure_psi m) payload pts in
    logged_if a b (behind p m) (advance written' mark)
    ∙ if-behind a p (behind p m) m _ _ refl
        (if-behind b p (behind p m) m _ (advance written mark) refl (ap (λ n. advance n mark) same))
    ∙ ap (behind p) (sym (logged_if a b m (advance written mark)))

pub push_audio_frame-behind :
    (p : List ℕ) (m : MpegTs) (f : AudioFrame) (anchor : Option ℕ) (now : ℕ)
    → push_audio_frame (behind p m) f anchor now ≡ behind p (push_audio_frame m f anchor now)
unfolding push_audio_frame
push_audio_frame-behind p m f none now = refl
push_audio_frame-behind p m f (some anchor) now =
    if-behind (ltb max_audio_staleness_us (now - f.timestamp_us)) p (behind p m) m _ _ refl
      (audio-behind p m f.bytes _)
