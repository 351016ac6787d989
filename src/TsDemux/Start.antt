-- ===== src/TsDemux/Start.antt =====
-- A PES packet of the video stream, from its first packet to its last.
use ferricast.Base.{
  ℕ, suc, ◌+◌, ◌*◌, ◌-◌, ◌/◌, ◌%◌, ◌^◌, ◌≤◌, ◌≡◌, refl, ap, ◌∙◌, min, List, [], ◌∷◌, ◌++◌, Bool,
  true, false, length, take, drop, length-drop, take-append-drop, Option, none, some, arith, le→ltb,
  lt→ltb, le→leb, is_empty, Bool-cases, inl, inr, take_past, drop_past,
}
use native.Mathlib.Nat.{le_refl}
use ferricast.MpegTs.{pid_video}
use ferricast.MpegTs.Timestamp.{encode_ts}
use ferricast.MpegTs.Pes.{build_pes}
use ferricast.MpegTs.Packet.{layout, write_pes_loop, write_pes_to_ts, next_cc}
use ferricast.MpegTs.Packet.Sizes.{payload_len_bounds, payload_len-first_pcr}
use ferricast.TsDemux.{TsDemuxer, push_video}
use ferricast.Frame.{Codec}
use ferricast.TsDemux.Packets.{push_loop}
use ferricast.TsDemux.Pes.{collect_video, emit_video, header_pts, header_body, bad_start}
use ferricast.TsDemux.Clock.{read_ts-encode_ts}
use ferricast.TsDemux.Feed.{KnowsVideo, push_loop-write_pes_loop, push_loop-continued}

-- A time of the muxer as the demuxer passes it on, in microseconds.
abbrev pub micros : ℕ → ℕ
micros pts_90k = pts_90k % 2 ^ 33 * 100 / 9

-- The first 19 bytes, and the payload.
abbrev pes_header : ℕ → ℕ → List ℕ
pes_header pts dts = build_pes [] pts dts

build_pes-header :
    (payload : List ℕ) (pts dts : ℕ) → build_pes payload pts dts ≡ pes_header pts dts ++ payload
unfolding build_pes encode_ts
build_pes-header payload pts dts = refl

length-pes_header : (pts dts : ℕ) → length (pes_header pts dts) ≡ 19
unfolding build_pes encode_ts
length-pes_header pts dts = refl

-- What the demuxer finds in the first chunk of a video PES packet.
header_ok : (c : List ℕ) (pts dts : ℕ) → bad_start (pes_header pts dts ++ c) ≡ false
unfolding build_pes encode_ts bad_start
header_ok c pts dts = rw (le→ltb (length (pes_header pts dts ++ c)) 9 (omega arith))

header_pts-pes_header :
    (c : List ℕ) (pts dts : ℕ) → header_pts (pes_header pts dts ++ c) ≡ some (micros pts)
unfolding build_pes encode_ts header_pts
header_pts-pes_header c pts dts =
    rw (le→leb 14 (length (pes_header pts dts ++ c)) (omega arith))
      (ap (λ t. some (t * 100 / 9)) (read_ts-encode_ts 0b0011 pts (omega arith)))

header_body-pes_header :
    (b : ℕ) (c : List ℕ) (pts dts : ℕ) → header_body (pes_header pts dts ++ (b ∷ c)) ≡ b ∷ c
unfolding build_pes encode_ts header_body
header_body-pes_header b c pts dts =
    rw (lt→ltb 19 (length (pes_header pts dts ++ (b ∷ c))) (omega arith))

-- The demuxer behind a PES start: what was in flight is emitted, and the new packet assembled.
abbrev pub started : TsDemuxer → List ℕ → ℕ → TsDemuxer
started d bytes pts = record (emit_video d) {
  video_pes = record { buf = bytes; pts_us = some (micros pts) };
}

collect_video-start :
    (d : TsDemuxer) (b : ℕ) (c : List ℕ) (pts dts : ℕ)
    → KnowsVideo d
    → collect_video d (pes_header pts dts ++ (b ∷ c)) true ≡ started d (b ∷ c) pts
unfolding collect_video
collect_video-start d b c pts dts k = rw (
  k.known,
  header_ok (b ∷ c) pts dts,
  header_body-pes_header b c pts dts,
  header_pts-pes_header (b ∷ c) pts dts,
)

push_video-KnowsVideo :
    (d : TsDemuxer) (codec : Option Codec) (bytes : List ℕ) (pts : ℕ)
    → KnowsVideo d
    → KnowsVideo (push_video d codec bytes pts)
unfolding push_video
push_video-KnowsVideo d none bytes pts k = k
push_video-KnowsVideo d (some codec) bytes pts k = record {
  pmt = k.pmt;
  video = k.video;
  known = k.known;
}

emit_video-KnowsVideo : (d : TsDemuxer) → KnowsVideo d → KnowsVideo (emit_video d)
unfolding emit_video
emit_video-KnowsVideo d k = elim (Bool-cases (is_empty d.video_pes.buf)) [
  | inl e ↦ rw e cleared
  | inr e ↦ rw e (push_video-KnowsVideo _ d.info.video_codec d.video_pes.buf _ cleared)
]
  where
    cleared : KnowsVideo (record d { video_pes = record { buf = []; pts_us = d.video_pes.pts_us } })
    cleared = record { pmt = k.pmt; video = k.video; known = k.known }

pub started-KnowsVideo :
    (d : TsDemuxer) (bytes : List ℕ) (pts : ℕ) → KnowsVideo d → KnowsVideo (started d bytes pts)
started-KnowsVideo d bytes pts k =
    let e = emit_video-KnowsVideo d k in record { pmt = e.pmt; video = e.video; known = e.known }

push_loop-first :
    (f : ℕ) (d : TsDemuxer) (cc p : ℕ) (ps : List ℕ) (pts : ℕ) (kf : Bool) (pcr : ℕ) (more : List ℕ)
    (x : List ℕ)
    → KnowsVideo d
    → let sent = (layout true kf (some pcr) (length (p ∷ ps))).payload_len in
      collect_video d (take sent (p ∷ ps)) true ≡ started d x pts
      → let packets =
          (write_pes_loop (suc (length ps)) pid_video cc (p ∷ ps) true kf (some pcr)).0 in
        length (packets ++ more) ≤ f
        → push_loop f d (packets ++ more)
          ≡ push_loop (length more) (started d (x ++ drop sent (p ∷ ps)) pts) more
push_loop-first f d cc p ps pts kf pcr more x k first h =
    let pes : List ℕ = p ∷ ps in
    let sent = (layout true kf (some pcr) (length pes)).payload_len in
    let bound = payload_len_bounds true kf (some pcr) (length pes) (omega arith) in
    push_loop-write_pes_loop (length ps) f d cc p ps true kf (some pcr) more k h
    ∙ rw first (
        push_loop-continued (length ps) _ (started d x pts) (next_cc cc) (drop sent pes) kf
          (some pcr) more (started-KnowsVideo d x pts k)
          (omega (arith, length-drop sent pes, bound)) (le_refl _))

-- A video PES packet of the muxer, fed to the demuxer: the packet before it is emitted, and its
-- payload and time are assembled.
pub push_loop-build_pes :
    (f : ℕ) (d : TsDemuxer) (cc b : ℕ) (bs : List ℕ) (pts dts : ℕ) (kf : Bool) (pcr : ℕ)
    (more : List ℕ)
    → KnowsVideo d
    → let packets = (write_pes_to_ts pid_video cc (build_pes (b ∷ bs) pts dts) kf (some pcr)).0 in
      length (packets ++ more) ≤ f
      → push_loop f d (packets ++ more) ≡ push_loop (length more) (started d (b ∷ bs) pts) more
unfolding write_pes_to_ts build_pes encode_ts
push_loop-build_pes f d cc b bs pts dts kf pcr more k h =
    let hs = pes_header pts dts in
    let pes = hs ++ (b ∷ bs) in
    let n = min (length pes) 176 - 20 in
    let sent : (layout true kf (some pcr) (length pes)).payload_len ≡ length hs + suc n =
      payload_len-first_pcr kf pcr (length pes) ∙ omega arith in
    let front : take (length hs + suc n) pes ≡ hs ++ (b ∷ take n bs) =
      take_past (suc n) hs (b ∷ bs) in
    let back : drop (length hs + suc n) pes ≡ drop n bs = drop_past (suc n) hs (b ∷ bs) in
    push_loop-first f d cc 0x00 (drop 1 pes) pts kf pcr more (b ∷ take n bs) k
      (rw (sent, front) (collect_video-start d b (take n bs) pts dts k)) h
    ∙ rw (sent, back)
        (ap (λ (l : List ℕ). push_loop (length more) (started d (b ∷ l) pts) more)
          (take-append-drop n bs))
