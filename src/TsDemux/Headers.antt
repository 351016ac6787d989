-- ===== src/TsDemux/Headers.antt =====
-- The demuxer reads the packets that the muxer writes.
use ferricast.Base.{
  ℕ, suc, ◌+◌, ◌*◌, ◌/◌, ◌%◌, ◌^◌, ◌<◌, ◌≤◌, ◌≡◌, refl, ap, ◌∙◌, List, ◌∷◌, ◌++◌, bit_and, bit_or,
  Bool, true, false, not, ◌==◌, ltb, if◌then◌else◌, length, take, drop, Option, arith, drop-append,
  lt→leb, lt→ltb,
}
use ferricast.Base.Words.{u8, shr, shl8}
use ferricast.Base.Bits.{bit_and-low, bit_or-disjoint, all_below, eq_below}
use ferricast.MpegTs.Packet.{Layout, layout, ts_packet, afc_bits}
use ferricast.MpegTs.Packet.Sizes.{IsLayout, full, filled, layout-IsLayout}
use ferricast.TsDemux.{TsDemuxer, be13}
use ferricast.TsDemux.Packets.{process_packet, dispatch}

-- The second header byte: the start flag over the high bits of the PID.
abbrev pub hdr1_byte : Bool → ℕ → ℕ
hdr1_byte first hi = if first then bit_or hi 0x40 else hi

start_flag_set : (hi : ℕ) → hi < 32 → bit_and (bit_or hi 0x40) 0x40 ≡ 0x40
unfolding all_below
start_flag_set = eq_below 32 (λ x. bit_and (bit_or x 0x40) 0x40) (λ x. 0x40) refl

start_flag_clear : (hi : ℕ) → hi < 32 → bit_and hi 0x40 ≡ 0
unfolding all_below
start_flag_clear = eq_below 32 (λ x. bit_and x 0x40) (λ x. 0) refl

pid_bits : (hi : ℕ) → hi < 32 → bit_and (bit_or hi 0x40) 0x1f ≡ hi
unfolding all_below
pid_bits = eq_below 32 (λ x. bit_and (bit_or x 0x40) 0x1f) (λ x. x) refl

pub start_flag :
    (first : Bool) (hi : ℕ) → hi < 32 → not (bit_and (hdr1_byte first hi) 0x40 == 0) ≡ first
start_flag true hi h = rw (start_flag_set hi h)
start_flag false hi h = rw (start_flag_clear hi h)

pub read_pid :
    (first : Bool) (pid : ℕ) → pid < 2 ^ 13 → be13 (hdr1_byte first (pid / 256)) (pid % 256) ≡ pid
read_pid true pid h =
    rw (pid_bits (pid / 256) (omega arith))
      (bit_or-disjoint 8 (pid / 256 * 2 ^ 8) (pid % 256) (omega arith) (omega arith) ∙ omega arith)
read_pid false pid h = rw (bit_and-low 5 (pid / 256)) (
    bit_or-disjoint 8 (pid / 256 % 2 ^ 5 * 2 ^ 8) (pid % 256) (omega arith) (omega arith)
    ∙ omega arith)

abbrev pub afc_byte : ℕ → ℕ → ℕ
afc_byte afc cc = bit_or (shl8 afc 4) (bit_and cc 0x0f)

pub read_afc : (afc cc : ℕ) → afc < 4 → bit_and (shr (afc_byte afc cc) 4) 0x03 ≡ afc
read_afc afc cc h =
    let low : bit_and cc 0x0f ≡ cc % 16 = bit_and-low 4 cc in
    rw
      (
        low,
        bit_or-disjoint 4 (shl8 afc 4) (cc % 16) (omega arith) (omega arith),
        bit_and-low 2 (shr (shl8 afc 4 + cc % 16) 4),
      )
      (omega arith)

drop_header : (n a b c d e : ℕ) (xs : List ℕ) → drop (5 + n) (a ∷ b ∷ c ∷ d ∷ e ∷ xs) ≡ drop n xs
drop_header n a b c d e xs =
    ap (λ k. drop k (a ∷ b ∷ c ∷ d ∷ e ∷ xs))
      (let s : 5 + n ≡ suc (suc (suc (suc (suc n)))) = omega arith in s)

process_layout :
    (d : TsDemuxer) (pid cc : ℕ) (rest : List ℕ) (first : Bool) {l : Layout}
    → pid < 2 ^ 13
    → IsLayout (length rest) l
    → process_packet d (
        0x47
          ∷ hdr1_byte first (pid / 256)
          ∷ (pid % 256)
          ∷ afc_byte (afc_bits l.af_present (ltb 0 l.payload_len)) cc
          ∷ l.af
        ++ take l.payload_len rest)
      ≡ dispatch d pid (take l.payload_len rest) first
unfolding process_packet afc_bits
process_layout d pid cc rest first h (full le) =
    rw (
      read_afc 1 cc (omega arith),
      start_flag first (pid / 256) (omega arith),
      read_pid first pid h,
    )
process_layout d pid cc rest first h (filled n tail p e sum pos le) =
    rw
      (
        lt→ltb 0 p pos,
        read_afc 3 cc (omega arith),
        start_flag first (pid / 256) (omega arith),
        read_pid first pid h,
        lt→leb 188 (5 + n) (omega arith),
        drop_header,
      )
      (rw (← e) (ap (λ c. dispatch d pid c first) (drop-append tail (take p rest))))

-- The demuxer finds in a packet of the muxer (its PID below 2 ^ 13, some of the PES packet left) its
-- PID, its start flag and its part of the PES packet, whatever adaptation field stands between.
pub process_packet-ts_packet :
    (d : TsDemuxer) (pid cc : ℕ) (rest : List ℕ) (first kf : Bool) (pcr : Option ℕ)
    → pid < 2 ^ 13
    → 1 ≤ length rest
    → process_packet d (ts_packet pid cc rest first kf pcr)
      ≡ dispatch d pid (take (layout first kf pcr (length rest)).payload_len rest) first
unfolding ts_packet
process_packet-ts_packet d pid cc rest first kf pcr h pos =
    let hi : bit_and (u8 (shr pid 8)) 0x1f ≡ pid / 256 =
      bit_and-low 5 (u8 (shr pid 8)) ∙ omega arith in
    let lo : u8 (bit_and pid 0xff) ≡ pid % 256 =
      let e : bit_and pid 0xff ≡ pid % 256 = bit_and-low 8 pid in omega (arith, e) in
    rw (hi, lo)
      (process_layout d pid cc rest first h (layout-IsLayout first kf pcr (length rest) pos))
