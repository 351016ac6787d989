-- ===== src/MpegTs/Psi.antt =====
-- The PAT and PMT sections with their CRC, and the packet that carries one.
use ferricast.Base.{
  ℕ, zero, suc, ◌+◌, ◌*◌, ◌-◌, ◌%◌, ◌^◌, List, [], ◌∷◌, ◌++◌, bit_and, bit_or, bit_xor, Bool, true,
  false, ◌==◌, if◌then◌else◌, length, replicate,
}
use ferricast.Base.Words.{u8, shr}
use ferricast.MpegTs.{
  ts_packet_size, sync_byte, pid_pat, pid_pmt, pid_video, pid_audio, stream_type_h264,
  stream_type_aac_adts,
}

-- `u16::to_be_bytes` and `u32::to_be_bytes`.
abbrev pub be16_bytes : ℕ → List ℕ
be16_bytes x = u8 (shr x 8) ∷ u8 x ∷ []

abbrev be32_bytes : ℕ → List ℕ
be32_bytes x = u8 (shr x 24) ∷ u8 (shr x 16) ∷ u8 (shr x 8) ∷ u8 x ∷ []

-- The inner loop: one bit of the CRC register.
unfoldable pub crc_bits : ℕ → ℕ → ℕ
crc_bits zero crc = crc
crc_bits (suc n) crc = crc_bits n (
    if bit_and crc 0x8000_0000 == 0
    then crc * 2 % 2 ^ 32
    else bit_xor (crc * 2 % 2 ^ 32) 0x04c1_1db7)

unfoldable pub crc_from : ℕ → List ℕ → ℕ
unfolding crc_bits
crc_from crc [] = crc
crc_from crc (b ∷ bytes) = crc_from (crc_bits 8 (bit_xor crc (b * 2 ^ 24 % 2 ^ 32))) bytes

unfoldable pub crc32_mpeg2 : List ℕ → ℕ
unfolding crc_from
crc32_mpeg2 bytes = crc_from 0xffff_ffff bytes

-- A section is its body with the CRC of the body behind it.
abbrev pub with_crc : List ℕ → List ℕ
with_crc s = s ++ be32_bytes (crc32_mpeg2 s)

unfoldable pub build_pat_section : List ℕ
unfolding crc32_mpeg2
build_pat_section = with_crc (
    0x00 ∷ be16_bytes (bit_or 0xb000 13)
    ++ be16_bytes 1
    ++ 0xc1 ∷ 0x00 ∷ 0x00 ∷ be16_bytes 1
    ++ be16_bytes (bit_or 0xe000 pid_pmt))

abbrev audio_entry : Bool → List ℕ
audio_entry false = []
audio_entry true = stream_type_aac_adts ∷ be16_bytes (bit_or 0xe000 pid_audio) ++ be16_bytes 0xf000

unfoldable pub build_pmt_section : Bool → List ℕ
unfolding crc32_mpeg2
build_pmt_section with_audio =
    let stream_count = if with_audio then 2 else 1 in
    let section_length = 13 + 5 * stream_count in
    with_crc (
      0x02 ∷ be16_bytes (bit_or 0xb000 section_length)
      ++ be16_bytes 1
      ++ 0xc1 ∷ 0x00 ∷ 0x00 ∷ be16_bytes (bit_or 0xe000 pid_video)
      ++ be16_bytes 0xf000
      ++ stream_type_h264 ∷ be16_bytes (bit_or 0xe000 pid_video)
      ++ be16_bytes 0xf000
      ++ audio_entry with_audio)

-- The packet that is appended to the output, and the next continuity counter.
unfoldable pub write_psi_packet : ℕ → ℕ → List ℕ → List ℕ × ℕ
write_psi_packet pid cc section =
    let head : List ℕ =
      sync_byte
      ∷ bit_or 0x40 (bit_and (u8 (shr pid 8)) 0x1f)
      ∷ u8 (bit_and pid 0xff)
      ∷ bit_or 0x10 (bit_and cc 0x0f)
      ∷ 0x00
      ∷ section in
    (head ++ replicate (ts_packet_size - length head) 0xff, bit_and (u8 (cc + 1)) 0x0f)

-- The two packets at the start of a segment.
abbrev pub psi : ℕ → ℕ → Bool → List ℕ
psi cc_pat cc_pmt with_audio =
    (write_psi_packet pid_pat cc_pat build_pat_section).0
    ++ (write_psi_packet pid_pmt cc_pmt (build_pmt_section with_audio)).0
