-- ===== src/TsDemux/Tables.antt =====
-- The demuxer reads the PAT and the PMT that the muxer writes.
use ferricast.Base.{
  ℕ, ◌+◌, ◌≤◌, ◌≡◌, refl, ap, ◌∙◌, List, ◌++◌, append_assoc, Bool, true, false, length,
  length-append, some, arith,
}
use ferricast.Frame.{h264, aac}
use ferricast.MpegTs.{pid_pat, pid_pmt, pid_video, pid_audio}
use ferricast.MpegTs.Psi.{write_psi_packet, build_pat_section, build_pmt_section, psi}
use ferricast.TsDemux.{TsDemuxer, parse_pat, parse_pmt, pat_loop, set_pmt_pid, pmt_loop, add_stream}
use ferricast.TsDemux.Packets.{process_packet, dispatch, push_loop}
use ferricast.TsDemux.Headers.{read_afc}
use ferricast.TsDemux.Feed.{push_loop-packet}

-- A demuxer that has read the PMT of a muxer with or without an audio stream.
abbrev pub with_streams : TsDemuxer → Bool → TsDemuxer
with_streams d false = record d {
  video_pid = some pid_video;
  info = record d.info { video_codec = some h264 };
}
with_streams d true = record d {
  video_pid = some pid_video;
  audio_pid = some pid_audio;
  info = record d.info { video_codec = some h264; audio_codec = some aac };
}

process-pat :
    (d : TsDemuxer) (cc : ℕ)
    → process_packet d (write_psi_packet pid_pat cc build_pat_section).0
      ≡ record d { pmt_pid = some pid_pmt }
unfolding process_packet dispatch write_psi_packet build_pat_section parse_pat pat_loop set_pmt_pid
process-pat d cc = rw (read_afc 1 cc (omega arith))

process-pmt :
    (d : TsDemuxer) (cc : ℕ) (with_audio : Bool)
    → d.pmt_pid ≡ some pid_pmt
    → process_packet d (write_psi_packet pid_pmt cc (build_pmt_section with_audio)).0
      ≡ with_streams d with_audio
unfolding process_packet dispatch write_psi_packet build_pmt_section parse_pmt pmt_loop add_stream
process-pmt d cc false e = rw (read_afc 1 cc (omega arith), e)
process-pmt d cc true e = rw (read_afc 1 cc (omega arith), e)

length-pat : (cc : ℕ) → length (write_psi_packet pid_pat cc build_pat_section).0 ≡ 188
unfolding write_psi_packet build_pat_section
length-pat cc = refl

length-pmt :
    (cc : ℕ) (a : Bool) → length (write_psi_packet pid_pmt cc (build_pmt_section a)).0 ≡ 188
unfolding write_psi_packet build_pmt_section
length-pmt cc false = refl
length-pmt cc true = refl

push_loop-pat :
    (f : ℕ) (d : TsDemuxer) (cc : ℕ) (more : List ℕ)
    → let packet = (write_psi_packet pid_pat cc build_pat_section).0 in
      188 + length more ≤ f
      → push_loop f d (packet ++ more)
        ≡ push_loop (length more) (record d { pmt_pid = some pid_pmt }) more
push_loop-pat f d cc more h =
    unfold write_psi_packet in
    push_loop-packet f d _ more (omega (arith, length-pat cc)) (omega (arith, length-pat cc))
    ∙ ap (λ d'. push_loop (length more) d' more) (process-pat d cc)

push_loop-pmt :
    (f : ℕ) (d : TsDemuxer) (cc : ℕ) (a : Bool) (more : List ℕ)
    → d.pmt_pid ≡ some pid_pmt
    → let packet = (write_psi_packet pid_pmt cc (build_pmt_section a)).0 in
      188 + length more ≤ f
      → push_loop f d (packet ++ more) ≡ push_loop (length more) (with_streams d a) more
push_loop-pmt f d cc a more e h =
    unfold write_psi_packet in
    push_loop-packet f d _ more (omega (arith, length-pmt cc a)) (omega (arith, length-pmt cc a))
    ∙ ap (λ d'. push_loop (length more) d' more) (process-pmt d cc a e)

-- The demuxer learns the PIDs and the codecs from the tables that the muxer puts first.
pub push_loop-psi :
    (f : ℕ) (d : TsDemuxer) (cc_pat cc_pmt : ℕ) (a : Bool) (more : List ℕ)
    → length (psi cc_pat cc_pmt a ++ more) ≤ f
    → push_loop f d (psi cc_pat cc_pmt a ++ more)
      ≡ push_loop (length more) (with_streams (record d { pmt_pid = some pid_pmt }) a) more
push_loop-psi f d cc_pat cc_pmt a more h =
    let pat = (write_psi_packet pid_pat cc_pat build_pat_section).0 in
    let pmt = (write_psi_packet pid_pmt cc_pmt (build_pmt_section a)).0 in
    let shape = append_assoc pat pmt more in
    let size = length-append pmt more in
    let d' = record d { pmt_pid = some pid_pmt } in
    ap (λ l. push_loop f d l) shape
    ∙ push_loop-pat f d cc_pat (pmt ++ more)
        (omega (arith, ap length shape, length-append pat (pmt ++ more), length-pat cc_pat))
    ∙ push_loop-pmt _ d' cc_pmt a more refl (omega (arith, length-pmt cc_pmt a))
