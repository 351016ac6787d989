-- ===== src/TsDemux/Feed.antt =====
-- `push` on whole packets, and on the packets of one PES packet of the video stream.
use ferricast.Base.{
  ℕ, zero, suc, ◌+◌, ◌^◌, ◌<◌, ◌≤◌, ◌≡◌, refl, sym, ap, ◌∙◌, List, [], ◌∷◌, ◌++◌, append_assoc,
  Bool, true, false, length, length-take, get_or, All, ◌==◌, Bool-cases, inl, inr, take, drop,
  take-append, drop-append, length-append, length-drop, take-append-drop, Option, arith, le→ltb,
  lt→ltb, append-nil,
}
use native.Mathlib.Decide.{dec_lt}
use native.Mathlib.Nat.{le_refl}
use ferricast.MpegTs.{pid_video}
use ferricast.MpegTs.Packet.{layout, ts_packet, write_pes_loop, next_cc}
use ferricast.MpegTs.Packet.Sizes.{length-ts_packet, payload_len_bounds}
use ferricast.TsDemux.{TsDemuxer}
use ferricast.TsDemux.Packets.{process_packet, dispatch, push_loop, push, is_pid}
use ferricast.TsDemux.Pes.{collect_pes, collect_video, video_known}
use ferricast.TsDemux.Headers.{process_packet-ts_packet}

get_or-take : (n : ℕ) (l : List ℕ) → get_or (take (suc n) l) 0 0 ≡ get_or l 0 0
get_or-take n [] = refl
get_or-take n (b ∷ bs) = refl

-- Every fuel that covers the input of the loop of the demuxer's `push` gives the same state: the
-- loop never stops for want of fuel.
pub push_loop_fuel :
    (f g : ℕ) (d : TsDemuxer) (rest : List ℕ)
    → length rest ≤ f
    → length rest ≤ g
    → push_loop f d rest ≡ push_loop g d rest
unfolding push_loop
push_loop_fuel zero zero d rest p q = refl
push_loop_fuel zero (suc g) d rest p q = rw (lt→ltb (length rest) 188 (omega arith))
push_loop_fuel (suc f) zero d rest p q = rw (lt→ltb (length rest) 188 (omega arith))
push_loop_fuel (suc f) (suc g) d rest p q = elim (dec_lt (length rest) 188) [
  | yes short ↦ rw (lt→ltb (length rest) 188 short)
  | no long ↦ rw (
    le→ltb (length rest) 188 (omega arith),
    push_loop_fuel f g d (drop 1 rest) (omega (arith, length-drop 1 rest))
        (omega (arith, length-drop 1 rest)),
    push_loop_fuel f g (process_packet d (take 188 rest)) (drop 188 rest)
        (omega (arith, length-drop 188 rest)) (omega (arith, length-drop 188 rest)),
  )
]

-- What the loop takes `chunk` for: whole packets, and single bytes that no packet starts at.
pub data Piece : Type 0 where
  junk : ℕ → Piece
  packet : List ℕ → Piece

abbrev pub piece_bytes : List Piece → List ℕ
piece_bytes [] = []
piece_bytes (junk b ∷ pieces) = b ∷ piece_bytes pieces
piece_bytes (packet pkt ∷ pieces) = pkt ++ piece_bytes pieces

abbrev pub IsPiece : Piece → Type 0
IsPiece (junk b) = (b == 0x47) ≡ false
IsPiece (packet pkt) = (length pkt ≡ 188) × ((get_or pkt 0 0 == 0x47) ≡ true)

abbrev pub process_pieces : TsDemuxer → List Piece → TsDemuxer
process_pieces d [] = d
process_pieces d (junk b ∷ pieces) = process_pieces d pieces
process_pieces d (packet pkt ∷ pieces) = process_pieces (process_packet d pkt) pieces

-- `d'` is `d` after the packets of the pieces that the bytes consist of, up to a tail that is too
-- short for a packet.
abbrev pub Scanned : TsDemuxer → List ℕ → TsDemuxer → Type 0
Scanned d bytes d' =
    (pieces : List Piece) × (tail : List ℕ) × (bytes ≡ piece_bytes pieces ++ tail)
    × All IsPiece pieces
    × (length tail < 188)
    × (d' ≡ process_pieces d pieces)

packet-Scanned :
    (d d' : TsDemuxer) (bytes : List ℕ)
    → 188 ≤ length bytes
    → (get_or bytes 0 0 == 0x47) ≡ true
    → Scanned (process_packet d (take 188 bytes)) (drop 188 bytes) d'
    → Scanned d bytes d'
packet-Scanned d d' bytes long sync (pieces, tail, e, valid, short, made) = (
  packet (take 188 bytes) ∷ pieces,
  tail,
  sym (take-append-drop 188 bytes)
      ∙ ap (λ l. take 188 bytes ++ l) e
      ∙ sym (append_assoc (take 188 bytes) (piece_bytes pieces) tail),
  (
    (omega (arith, length-take 188 bytes), ap (λ b. b == 0x47) (get_or-take 187 bytes) ∙ sync),
    valid,
  ),
  short,
  made,
)

push_loop-Scanned :
    (f : ℕ) (d : TsDemuxer) (bytes : List ℕ)
    → length bytes ≤ f
    → Scanned d bytes (push_loop f d bytes)
unfolding push_loop
push_loop-Scanned zero d [] h = ([], [], refl, tt, omega arith, refl)
push_loop-Scanned (suc f) d [] h = ([], [], refl, tt, omega arith, refl)
push_loop-Scanned zero d (b ∷ bs) h = absurd (omega arith)
push_loop-Scanned (suc f) d (b ∷ bs) h = elim (dec_lt (length (b ∷ bs)) 188) [
  | yes short ↦ rw (lt→ltb (length (b ∷ bs)) 188 short) ([], b ∷ bs, refl, tt, short, refl)
  | no long ↦
      let there = le→ltb (length (b ∷ bs)) 188 (omega arith) in
      elim (Bool-cases (b == 0x47)) [
        | inl sync ↦
            let later =
              push_loop-Scanned f (process_packet d (take 188 (b ∷ bs))) (drop 188 (b ∷ bs))
                (omega (arith, length-drop 188 (b ∷ bs))) in
            rw there (rw sync (packet-Scanned d _ (b ∷ bs) (omega arith) sync later))
        | inr other ↦
            let (pieces, tail, e, valid, short, made) = push_loop-Scanned f d bs (omega arith) in
            rw there
              (rw other (junk b ∷ pieces, tail, ap (λ l. b ∷ l) e, (other, valid), short, made))
      ]
]

-- On every chunk `push` ends, and has processed whole packets in their order: the chunk consists of
-- these packets, of 188 bytes from a sync byte on, of single bytes other than the sync byte, which
-- are skipped, and of a tail of fewer than 188 bytes.
pub push-Scanned : (d : TsDemuxer) (chunk : List ℕ) → Scanned d chunk (push d chunk)
unfolding push
push-Scanned d chunk = push_loop-Scanned (length chunk) d chunk (omega arith)

-- One whole packet.
pub push_loop-packet :
    (f : ℕ) (d : TsDemuxer) (tail more : List ℕ)
    → length tail ≡ 187
    → length tail + 1 + length more ≤ f
    → push_loop f d (0x47 ∷ tail ++ more)
      ≡ push_loop (length more) (process_packet d (0x47 ∷ tail)) more
unfolding push_loop
push_loop-packet zero d tail more size h = absurd (omega arith)
push_loop-packet (suc f) d tail more size h =
    let front : take 187 (tail ++ more) ≡ tail = rw size at (take-append tail more) in
    let back : drop 187 (tail ++ more) ≡ more = rw size at (drop-append tail more) in
    rw
      (
        le→ltb (length (0x47 ∷ tail ++ more)) 188 (omega (arith, length-append tail more)),
        front,
        back,
      )
      (push_loop_fuel f (length more) (process_packet d (0x47 ∷ tail)) more (omega arith)
        (omega arith))

-- One packet of the muxer.
pub push_loop-ts_packet :
    (f : ℕ) (d : TsDemuxer) (pid cc : ℕ) (rest : List ℕ) (first kf : Bool) (pcr : Option ℕ)
    (more : List ℕ)
    → pid < 2 ^ 13
    → 1 ≤ length rest
    → length (ts_packet pid cc rest first kf pcr ++ more) ≤ f
    → push_loop f d (ts_packet pid cc rest first kf pcr ++ more)
      ≡ push_loop
          (length more)
          (dispatch d pid (take (layout first kf pcr (length rest)).payload_len rest) first)
          more
unfolding ts_packet
push_loop-ts_packet f d pid cc rest first kf pcr more small pos h =
    let size = length-ts_packet pid cc rest first kf pcr pos in
    push_loop-packet f d _ more (omega arith)
      (omega (arith, length-append (ts_packet pid cc rest first kf pcr) more))
    ∙ ap (λ d'. push_loop (length more) d' more)
        (process_packet-ts_packet d pid cc rest first kf pcr small pos)

-- The demuxer has learnt the muxer's PIDs, and hands the video PID to the video stream.
pub record KnowsVideo (d : TsDemuxer) : Type 0 where
  pub pmt : is_pid pid_video d.pmt_pid ≡ false
  pub video : is_pid pid_video d.video_pid ≡ true
  pub known : video_known d ≡ true

pub dispatch-video :
    (d : TsDemuxer) (payload : List ℕ) (pusi : Bool)
    → KnowsVideo d
    → dispatch d pid_video payload pusi ≡ collect_video d payload pusi
unfolding dispatch collect_pes
dispatch-video d payload pusi k = rw (k.pmt, k.video)

abbrev pub append_video : TsDemuxer → List ℕ → TsDemuxer
append_video d payload = record d {
  video_pes = record d.video_pes { buf = d.video_pes.buf ++ payload };
}

push_loop-nothing :
    (fuel f : ℕ) (d : TsDemuxer) (cc : ℕ) (kf : Bool) (pcr : Option ℕ) (more : List ℕ)
    → length ((write_pes_loop fuel pid_video cc [] false kf pcr).0 ++ more) ≤ f
    → push_loop f d ((write_pes_loop fuel pid_video cc [] false kf pcr).0 ++ more)
      ≡ push_loop (length more) (append_video d []) more
unfolding write_pes_loop
push_loop-nothing fuel f d cc kf pcr more h =
    rw append-nil (push_loop_fuel f (length more) d more h (omega arith))

-- One round of the muxer's loop and of the demuxer's.
pub push_loop-write_pes_loop :
    (fuel f : ℕ) (d : TsDemuxer) (cc b : ℕ) (bs : List ℕ) (first kf : Bool) (pcr : Option ℕ)
    (more : List ℕ)
    → KnowsVideo d
    → length ((write_pes_loop (suc fuel) pid_video cc (b ∷ bs) first kf pcr).0 ++ more) ≤ f
    → let rest : List ℕ = b ∷ bs in
      let sent = (layout first kf pcr (length rest)).payload_len in
      let later = (write_pes_loop fuel pid_video (next_cc cc) (drop sent rest) false kf pcr).0 in
      push_loop f d ((write_pes_loop (suc fuel) pid_video cc rest first kf pcr).0 ++ more)
      ≡ push_loop (length (later ++ more)) (collect_video d (take sent rest) first) (later ++ more)
unfolding write_pes_loop
push_loop-write_pes_loop fuel f d cc b bs first kf pcr more k h =
    let rest : List ℕ = b ∷ bs in
    let sent = (layout first kf pcr (length rest)).payload_len in
    let later = (write_pes_loop fuel pid_video (next_cc cc) (drop sent rest) false kf pcr).0 in
    let pkt = ts_packet pid_video cc rest first kf pcr in
    let shape = append_assoc pkt later more in
    ap (λ l. push_loop f d l) shape
    ∙ push_loop-ts_packet f d pid_video cc rest first kf pcr (later ++ more) (omega arith)
        (omega arith) (omega (arith, ap length shape))
    ∙ ap (λ d'. push_loop (length (later ++ more)) d' (later ++ more))
        (dispatch-video d (take sent rest) first k)

collect_video-continued :
    (d : TsDemuxer) (payload : List ℕ)
    → KnowsVideo d
    → collect_video d payload false ≡ append_video d payload
unfolding collect_video
collect_video-continued d payload k = rw k.known

append_video-append_video :
    (d : TsDemuxer) (a b : List ℕ) → append_video (append_video d a) b ≡ append_video d (a ++ b)
append_video-append_video d a b =
    ap (λ (l : List ℕ). record d { video_pes = record d.video_pes { buf = l } })
      (append_assoc d.video_pes.buf a b)

-- The packets after the first only lengthen the buffer.
pub push_loop-continued :
    (fuel f : ℕ) (d : TsDemuxer) (cc : ℕ) (rest : List ℕ) (kf : Bool) (pcr : Option ℕ)
    (more : List ℕ)
    → KnowsVideo d
    → length rest ≤ fuel
    → length ((write_pes_loop fuel pid_video cc rest false kf pcr).0 ++ more) ≤ f
    → push_loop f d ((write_pes_loop fuel pid_video cc rest false kf pcr).0 ++ more)
      ≡ push_loop (length more) (append_video d rest) more
push_loop-continued fuel f d cc [] kf pcr more k le h = push_loop-nothing fuel f d cc kf pcr more h
push_loop-continued zero f d cc (b ∷ bs) kf pcr more k le h = absurd (omega arith)
push_loop-continued (suc fuel) f d cc (b ∷ bs) kf pcr more k le h =
    let rest : List ℕ = b ∷ bs in
    let sent = (layout false kf pcr (length rest)).payload_len in
    let bound = payload_len_bounds false kf pcr (length rest) (omega arith) in
    let d' = append_video d (take sent rest) in
    let k' : KnowsVideo d' = record { pmt = k.pmt; video = k.video; known = k.known } in
    push_loop-write_pes_loop fuel f d cc b bs false kf pcr more k h
    ∙ rw (collect_video-continued d (take sent rest) k) (
        push_loop-continued fuel _ d' (next_cc cc) (drop sent rest) kf pcr more k'
          (omega (arith, length-drop sent rest, bound)) (le_refl _))
    ∙ ap (λ d''. push_loop (length more) d'' more)
        (append_video-append_video d (take sent rest) (drop sent rest)
          ∙ ap (append_video d) (take-append-drop sent rest))
