-- ===== src/MpegTs/Pes.antt =====
-- The PES packets of a video access unit and of an audio frame, and the access unit itself.
use ferricast.Base.{ℕ, ◌+◌, ◌%◌, ◌^◌, List, [], ◌∷◌, ◌++◌, Bool, if◌then◌else◌, length}
use ferricast.MpegTs.{pes_stream_id_video, pes_stream_id_audio, aud_nal}
use ferricast.MpegTs.Timestamp.{encode_ts}
use ferricast.MpegTs.Psi.{be16_bytes}

unfoldable pub build_pes : List ℕ → ℕ → ℕ → List ℕ
build_pes payload pts_90k dts_90k =
    0x00
      ∷ 0x00
      ∷ 0x01
      ∷ pes_stream_id_video
      ∷ 0x00
      ∷ 0x00
      ∷ 0x84
      ∷ 0xc0
      ∷ 0x0a
      ∷ encode_ts 0b0011 pts_90k
    ++ (encode_ts 0b0001 dts_90k ++ payload)

-- The length field takes 16 bits of the true length.
unfoldable pub build_audio_pes : List ℕ → ℕ → List ℕ
build_audio_pes payload pts_90k =
    let pes_body_len = 3 + 5 + length payload in
    (0x00 ∷ 0x00 ∷ 0x01 ∷ pes_stream_id_audio ∷ be16_bytes (pes_body_len % 2 ^ 16))
    ++ (0x84 ∷ 0x80 ∷ 0x05 ∷ encode_ts 0b0010 pts_90k ++ payload)

-- Delimiter, then the parameter sets on a keyframe, then the slices.
unfoldable pub build_access_unit : List ℕ → Bool → List ℕ → List ℕ
build_access_unit parameter_sets keyframe frame_data =
    aud_nal ++ ((if keyframe then parameter_sets else []) ++ frame_data)
