-- ===== src/MpegTs/Packet.antt =====
-- `write_psi_packet`'s counterpart for PES packets, `write_pes_to_ts`: a PES packet over as many
-- 188-byte packets as it takes. One round of its loop is `ts_packet`.
pub mod Sizes
pub mod Alignment
use ferricast.Base.{
  ℕ, zero, suc, ◌+◌, ◌*◌, ◌-◌, ◌/◌, ◌%◌, ◌^◌, List, [], ◌∷◌, ◌++◌, bit_and, bit_or, Bool, true,
  false, ◌&&◌, leb, ltb, ◌==◌, if◌then◌else◌, length, replicate, take, drop, min, Option, none,
  some,
}
use ferricast.Base.Words.{u8, shr, shl8}
use ferricast.MpegTs.{ts_packet_size, sync_byte}
use ferricast.MpegTs.Timestamp.{encode_pcr}

abbrev pub payload_space : ℕ
payload_space = ts_packet_size - 4

abbrev pub is_some {ℓ} : {A : Type ℓ} → Option A → Bool
is_some none = false
is_some (some _) = true

-- What the first packet's adaptation field holds besides its length and stuffing: the flags, and
-- the clock reference if there is one.
abbrev pub first_af_body : Bool → Bool → Option ℕ → ℕ
first_af_body first keyframe pcr =
    if first then (if is_some pcr then 7 else if keyframe then 1 else 0) else 0

abbrev pub pcr_bytes : Option ℕ → List ℕ
pcr_bytes none = []
pcr_bytes (some pcr) = encode_pcr pcr

-- The adaptation field of one packet, its length byte first (`[]` is no field), and how much of the
-- PES packet goes behind it.
pub record Layout : Type 0 where
  pub af : List ℕ
  pub payload_len : ℕ
  pub af_present : Bool

-- An adaptation field that only fills the packet up.
unfoldable pub stuffing_af : ℕ → List ℕ
stuffing_af remaining =
    let af_len = payload_space - remaining - 1 in
    af_len ∷ (if leb 1 af_len then 0 ∷ replicate (af_len - 1) 0xff else [])

unfoldable pub layout : Bool → Bool → Option ℕ → ℕ → Layout
layout first keyframe pcr remaining =
    let body = first_af_body first keyframe pcr in
    let max_payload = payload_space - 1 - body in
    let want = min remaining max_payload in
    let stuffing = max_payload - want in
    let flags =
      bit_or (bit_or 0 (if keyframe then 0x40 else 0)) (if is_some pcr then 0x10 else 0) in
    let stuffed : Layout = record {
      af = stuffing_af remaining;
      payload_len = remaining;
      af_present = true;
    } in
    let full : Layout = record { af = []; payload_len = payload_space; af_present = false } in
    if first && ltb 0 body
    then record {
      af = u8 (body + stuffing) ∷ flags ∷ pcr_bytes pcr ++ replicate stuffing 0xff;
      payload_len = want;
      af_present = true;
    }
    else if first && leb payload_space remaining
    then full
    else if first
    then stuffed
    else if ltb remaining payload_space
    then stuffed
    else full

unfoldable pub afc_bits : Bool → Bool → ℕ
afc_bits true true = 0b11
afc_bits true false = 0b10
afc_bits false true = 0b01
afc_bits false false = 0b00

-- The packet that carries the front of `rest`.
unfoldable pub ts_packet : ℕ → ℕ → List ℕ → Bool → Bool → Option ℕ → List ℕ
ts_packet pid cc rest first keyframe pcr =
    let l = layout first keyframe pcr (length rest) in
    let hdr1 = bit_and (u8 (shr pid 8)) 0x1f in
    sync_byte
      ∷ (if first then bit_or hdr1 0x40 else hdr1)
      ∷ u8 (bit_and pid 0xff)
      ∷ bit_or (shl8 (afc_bits l.af_present (ltb 0 l.payload_len)) 4) (bit_and cc 0x0f)
      ∷ l.af
    ++ take l.payload_len rest

abbrev pub next_cc : ℕ → ℕ
next_cc cc = bit_and (u8 (cc + 1)) 0x0f

-- The loop: the list is `pes[offset..]`. A round takes a byte at least.
unfoldable pub write_pes_loop : ℕ → ℕ → ℕ → List ℕ → Bool → Bool → Option ℕ → List ℕ × ℕ
write_pes_loop fuel pid cc [] first keyframe pcr = ([], cc)
write_pes_loop zero pid cc (b ∷ bs) first keyframe pcr = ([], cc)
write_pes_loop (suc fuel) pid cc (b ∷ bs) first keyframe pcr =
    let rest : List ℕ = b ∷ bs in
    let sent = (layout first keyframe pcr (length rest)).payload_len in
    let (more, cc') = write_pes_loop fuel pid (next_cc cc) (drop sent rest) false keyframe pcr in
    (ts_packet pid cc rest first keyframe pcr ++ more, cc')

-- The bytes that are appended to the output, and the next continuity counter.
unfoldable pub write_pes_to_ts : ℕ → ℕ → List ℕ → Bool → Option ℕ → List ℕ × ℕ
write_pes_to_ts pid cc pes keyframe pcr_90k =
    write_pes_loop (length pes) pid cc pes true keyframe pcr_90k
