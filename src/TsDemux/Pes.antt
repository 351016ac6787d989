-- ===== src/TsDemux/Pes.antt =====
-- `collect_pes` and `parse_adts_header`: the assembly of PES packets.
use ferricast.Base.{
  ℕ, ◌+◌, ◌*◌, ◌/◌, ◌^◌, List, [], ◌∷◌, ◌++◌, bit_and, bit_or, Option, none, some, Bool, not, ◌&&◌,
  ◌||◌, ltb, leb, ◌==◌, if◌then◌else◌, length, get_or, drop, is_empty,
}
use ferricast.Base.Words.{shr}
use ferricast.TsDemux.{TsDemuxer, push_video, push_audio, is_some, or_zero}

abbrev adts_rates : List ℕ
adts_rates =
    96000 ∷ 88200 ∷ 64000 ∷ 48000 ∷ 44100 ∷ 32000 ∷ 24000 ∷ 22050 ∷ 16000 ∷ 12000 ∷ 11025 ∷ 8000
    ∷ 7350 ∷ 0 ∷ 0 ∷ 0 ∷ []

-- The sample rate and the channel count of the first ADTS header.
unfoldable pub parse_adts_header : List ℕ → Option (ℕ × ℕ)
parse_adts_header buf =
    let at = λ (i : ℕ). get_or buf i 0 in
    let rate = get_or adts_rates (bit_and (shr (at 2) 2) 0x0f) 0 in
    let ch = bit_or (bit_and (at 2) 0x01 * 2 ^ 2) (shr (bit_and (at 3) 0xc0) 6) in
    if ltb (length buf) 7
    then none
    else if not (at 0 == 0xff) || not (bit_and (at 1) 0xf0 == 0xf0)
    then none
    else if rate == 0 || ch == 0
    then none
    else some (rate, ch)

-- The 33-bit time in the five bytes of a PES header, in 90 kHz ticks.
unfoldable pub pts_90khz : ℕ → ℕ → ℕ → ℕ → ℕ → ℕ
pts_90khz p0 p1 p2 p3 p4 =
    bit_or
      (bit_or
        (bit_or (bit_or (bit_and (shr p0 1) 0x7 * 2 ^ 30) (p1 * 2 ^ 22))
          (bit_and (shr p2 1) 0x7f * 2 ^ 15))
        (p3 * 2 ^ 7))
      (bit_and (shr p4 1) 0x7f)

-- The time that a PES header carries, in microseconds.
unfoldable pub header_pts : List ℕ → Option ℕ
header_pts payload =
    let at = λ (i : ℕ). get_or payload i 0 in
    if not (bit_and (at 7) 0x80 == 0) && leb 14 (length payload)
    then some (pts_90khz (at 9) (at 10) (at 11) (at 12) (at 13) * 100 / 9)
    else none

-- The buffer of a PES packet that begins with this payload.
unfoldable pub header_body : List ℕ → List ℕ
header_body payload =
    let payload_offset = 9 + get_or payload 8 0 in
    if ltb payload_offset (length payload) then drop payload_offset payload else []

unfoldable pub bad_start : List ℕ → Bool
bad_start payload =
    ltb (length payload) 9
    || not (get_or payload 0 0 == 0)
    || not (get_or payload 1 0 == 0)
    || not (get_or payload 2 0 == 1)

abbrev pub video_known : TsDemuxer → Bool
video_known d = is_some d.info.video_codec

abbrev pub audio_known : TsDemuxer → Bool
audio_known d = is_some d.info.audio_codec

-- A PES start: the packet in flight is emitted and its buffer cleared.
unfoldable pub emit_video : TsDemuxer → TsDemuxer
emit_video d =
    let cleared = record d { video_pes = record { buf = []; pts_us = d.video_pes.pts_us } } in
    if is_empty d.video_pes.buf
    then cleared
    else push_video cleared d.info.video_codec d.video_pes.buf (or_zero d.video_pes.pts_us)

unfoldable pub emit_audio : TsDemuxer → TsDemuxer
emit_audio d =
    let cleared = record d { audio_pes = record { buf = []; pts_us = d.audio_pes.pts_us } } in
    if is_empty d.audio_pes.buf
    then cleared
    else push_audio cleared d.info.audio_codec d.audio_pes.buf (or_zero d.audio_pes.pts_us)

abbrev set_params : TsDemuxer → Option (ℕ × ℕ) → TsDemuxer
set_params d none = d
set_params d (some (rate, channels)) = record d {
  info = record d.info { audio_sample_rate = rate; audio_channels = channels };
}

-- The codec parameters come from the first ADTS header that is seen.
unfoldable pub sniff : TsDemuxer → TsDemuxer
sniff d =
    if d.info.audio_sample_rate == 0 && leb 7 (length d.audio_pes.buf)
    then set_params d (parse_adts_header d.audio_pes.buf)
    else d

unfoldable pub collect_video : TsDemuxer → List ℕ → Bool → TsDemuxer
collect_video d payload pusi =
    if not (video_known d)
    then d
    else if not pusi
    then record d { video_pes = record d.video_pes { buf = d.video_pes.buf ++ payload } }
    else if bad_start payload
    then emit_video d
    else record (emit_video d) {
      video_pes = record { buf = header_body payload; pts_us = header_pts payload };
    }

unfoldable pub collect_audio : TsDemuxer → List ℕ → Bool → TsDemuxer
collect_audio d payload pusi =
    if not (audio_known d)
    then d
    else if not pusi
    then sniff (record d { audio_pes = record d.audio_pes { buf = d.audio_pes.buf ++ payload } })
    else if bad_start payload
    then emit_audio d
    else sniff (record (emit_audio d) {
      audio_pes = record { buf = header_body payload; pts_us = header_pts payload };
    })

-- `is_video` chooses the stream.
unfoldable pub collect_pes : TsDemuxer → Bool → List ℕ → Bool → TsDemuxer
collect_pes d is_video payload pusi =
    if is_video then collect_video d payload pusi else collect_audio d payload pusi
