-- ===== src/MpegTs/Packet/Sizes.antt =====
-- Every packet has 188 bytes, and its adaptation field says how long it is.
use ferricast.Base.{
  ℕ, zero, suc, ◌+◌, ◌*◌, ◌-◌, ◌%◌, ◌<◌, ◌≤◌, ◌≡◌, refl, ◌∙◌, List, [], ◌∷◌, ◌++◌, Bool, true,
  false, leb, if◌then◌else◌, length, replicate, take, drop, min, Option, none, some, arith,
  length-append, length-replicate, length-take, le→ltb, lt→ltb, le→leb, lt→leb,
}
use native.Mathlib.Decide.{dec_le, dec_lt}
use ferricast.Base.Words.{u8}
use ferricast.Base.Bits.{bit_and-low}
use ferricast.MpegTs.Timestamp.{encode_pcr}
use ferricast.MpegTs.Packet.{
  Layout, layout, stuffing_af, ts_packet, write_pes_loop, next_cc, write_pes_to_ts,
}

-- A packet has no adaptation field and 184 bytes of payload, or a field that begins with its own
-- length and fills the packet up. The payload is never empty, and no more than what remains.
pub data IsLayout (remaining : ℕ) : Layout → Type 0 where
  full :
      184 ≤ remaining
      → IsLayout remaining (record { af = []; payload_len = 184; af_present = false })
  filled :
      (n : ℕ) (tail : List ℕ) (p : ℕ)
      → length tail ≡ n
      → n + 1 + p ≡ 184
      → 1 ≤ p
      → p ≤ remaining
      → IsLayout remaining (record { af = n ∷ tail; payload_len = p; af_present = true })

stuffing_af-IsLayout :
    (r : ℕ)
    → 1 ≤ r
    → r < 184
    → IsLayout r (record { af = stuffing_af r; payload_len = r; af_present = true })
unfolding stuffing_af
stuffing_af-IsLayout r h lt =
    let af_len = 184 - r - 1 in
    filled af_len (if leb 1 af_len then 0 ∷ replicate (af_len - 1) 0xff else []) r
      (ground (arith, length-replicate {A = ℕ} (af_len - 1) 0xff)) (omega arith) h (omega arith)

layout_pcr-IsLayout : (kf : Bool) (pcr r : ℕ) → 1 ≤ r → IsLayout r (layout true kf (some pcr) r)
unfolding layout encode_pcr
layout_pcr-IsLayout kf pcr r h =
    filled _ _ (min r 176) (omega (arith, length-replicate {A = ℕ} (176 - min r 176) 255))
      (omega arith) (omega arith) (omega arith)

layout_rai-IsLayout : (r : ℕ) → 1 ≤ r → IsLayout r (layout true true none r)
unfolding layout
layout_rai-IsLayout r h =
    filled _ _ (min r 182) (omega (arith, length-replicate {A = ℕ} (182 - min r 182) 255))
      (omega arith) (omega arith) (omega arith)

layout_plain-IsLayout : (r : ℕ) → 1 ≤ r → IsLayout r (layout true false none r)
unfolding layout
layout_plain-IsLayout r h = elim (dec_le 184 r) [
  | yes p ↦ rw (le→leb 184 r p) (full p)
  | no p ↦ rw (lt→leb 184 r (omega arith)) (stuffing_af-IsLayout r h (omega arith))
]

layout_next-IsLayout :
    (kf : Bool) (pcr : Option ℕ) (r : ℕ) → 1 ≤ r → IsLayout r (layout false kf pcr r)
unfolding layout
layout_next-IsLayout kf pcr r h = elim (dec_lt r 184) [
  | yes p ↦ rw (lt→ltb r 184 p) (stuffing_af-IsLayout r h p)
  | no p ↦ rw (le→ltb r 184 (omega arith)) (full (omega arith))
]

pub layout-IsLayout :
    (first kf : Bool) (pcr : Option ℕ) (r : ℕ) → 1 ≤ r → IsLayout r (layout first kf pcr r)
layout-IsLayout true kf (some pcr) r h = layout_pcr-IsLayout kf pcr r h
layout-IsLayout true true none r h = layout_rai-IsLayout r h
layout-IsLayout true false none r h = layout_plain-IsLayout r h
layout-IsLayout false kf pcr r h = layout_next-IsLayout kf pcr r h

af_payload :
    (l : Layout) (rest : List ℕ)
    → IsLayout (length rest) l
    → length (l.af ++ take l.payload_len rest) ≡ 184
af_payload l rest (full h) = omega (arith, length-take 184 rest)
af_payload l rest (filled n tail p e sum pos le) =
    omega (arith, length-take p rest, length-append tail (take p rest))

-- Each packet of the loop has exactly 188 bytes.
pub length-ts_packet :
    (pid cc : ℕ) (rest : List ℕ) (first kf : Bool) (pcr : Option ℕ)
    → 1 ≤ length rest
    → length (ts_packet pid cc rest first kf pcr) ≡ 188
unfolding ts_packet
length-ts_packet pid cc rest first kf pcr h = omega (
  arith,
  af_payload (layout first kf pcr (length rest)) rest
      (layout-IsLayout first kf pcr (length rest) h),
)

pub payload_len_bounds :
    (first kf : Bool) (pcr : Option ℕ) (r : ℕ)
    → 1 ≤ r
    → let p = (layout first kf pcr r).payload_len in (1 ≤ p) × (p ≤ r) × (p ≤ 184)
payload_len_bounds first kf pcr r h = bounds (layout-IsLayout first kf pcr r h)
  where
    bounds :
        {l : Layout}
        → IsLayout r l
        → (1 ≤ l.payload_len) × (l.payload_len ≤ r) × (l.payload_len ≤ 184)
    bounds (full h) = omega arith
    bounds (filled n tail p e sum pos le) = omega arith

pub next_cc-mod : (cc : ℕ) → cc < 16 → next_cc cc ≡ (cc + 1) % 16
next_cc-mod cc h = bit_and-low 4 (u8 (cc + 1)) ∙ omega arith

-- What a run of the loop writes: `n` packets of 188 bytes, and the counter moved on by `n`.
pub Written : ℕ → List ℕ × ℕ → Type 0
Written cc (bytes, cc') = (n : ℕ) × (length bytes ≡ 188 * n) × (cc' ≡ (cc + n) % 16)

write_pes_loop-Written :
    (fuel pid cc : ℕ) (rest : List ℕ) (first kf : Bool) (pcr : Option ℕ)
    → cc < 16
    → Written cc (write_pes_loop fuel pid cc rest first kf pcr)
unfolding write_pes_loop Written
write_pes_loop-Written fuel pid cc [] first kf pcr h = (0, omega arith, omega arith)
write_pes_loop-Written zero pid cc (b ∷ bs) first kf pcr h = (0, omega arith, omega arith)
write_pes_loop-Written (suc fuel) pid cc (b ∷ bs) first kf pcr h =
    let rest : List ℕ = b ∷ bs in
    let sent = (layout first kf pcr (length rest)).payload_len in
    let step = next_cc-mod cc h in
    let (n, size, counter) =
      write_pes_loop-Written fuel pid (next_cc cc) (drop sent rest) false kf pcr (omega arith) in
    (
      suc n,
      omega (
        arith,
        length-append (ts_packet pid cc rest first kf pcr)
            (write_pes_loop fuel pid (next_cc cc) (drop sent rest) false kf pcr).0,
        length-ts_packet pid cc rest first kf pcr (omega arith),
      ),
      omega arith,
    )

-- From a counter below 16 `write_pes_to_ts` appends whole packets of 188 bytes, and moves the
-- continuity counter on by their number, modulo 16.
pub write_pes_to_ts-Written :
    (pid cc : ℕ) (pes : List ℕ) (kf : Bool) (pcr : Option ℕ)
    → cc < 16
    → Written cc (write_pes_to_ts pid cc pes kf pcr)
unfolding write_pes_to_ts
write_pes_to_ts-Written pid cc pes kf pcr h =
    write_pes_loop-Written (length pes) pid cc pes true kf pcr h

-- The first packet of a video PES packet has room for 176 bytes of it.
pub payload_len-first_pcr :
    (kf : Bool) (pcr r : ℕ) → (layout true kf (some pcr) r).payload_len ≡ min r 176
unfolding layout
payload_len-first_pcr kf pcr r = refl
