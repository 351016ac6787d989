-- ===== src/MpegTs/Packet/Alignment.antt =====
-- The packets that the muxer writes are whole: 188 bytes with the sync byte first.
use ferricast.Base.{
  ℕ, zero, suc, ◌-◌, ◌<◌, ◌≤◌, ◌≡◌, refl, ap, sym, List, [], ◌∷◌, ◌++◌, append_assoc, append-nil,
  Bool, true, false, Option, arith, length, drop, replicate, length-append, length-replicate,
}
use ferricast.MpegTs.{ts_packet_size}
use ferricast.MpegTs.Psi.{write_psi_packet}
use ferricast.MpegTs.Packet.{ts_packet, write_pes_loop, write_pes_to_ts, layout, next_cc}
use ferricast.MpegTs.Packet.Sizes.{length-ts_packet, next_cc-mod}

-- A sequence of packets of 188 bytes, each with its sync byte first.
pub data IsAligned : List ℕ → Type 0 where
  done : IsAligned []
  packet :
      {bytes : List ℕ} (tail rest : List ℕ)
      → bytes ≡ 0x47 ∷ tail ++ rest
      → length tail ≡ 187
      → IsAligned rest
      → IsAligned bytes

pub IsAligned-append : {a b : List ℕ} → IsAligned a → IsAligned b → IsAligned (a ++ b)
IsAligned-append {b = b} done k = k
IsAligned-append {b = b} (packet tail rest e size h) k =
    packet tail (rest ++ b) (rw e (ap (λ l. 0x47 ∷ l) (append_assoc tail rest b))) size
      (IsAligned-append h k)

pub ts_packet-tail :
    (pid cc : ℕ) (rest : List ℕ) (first kf : Bool) (pcr : Option ℕ) (more : List ℕ)
    → 1 ≤ length rest
    → IsAligned more
    → IsAligned (ts_packet pid cc rest first kf pcr ++ more)
unfolding ts_packet
ts_packet-tail pid cc rest first kf pcr more h k =
    let size = length-ts_packet pid cc rest first kf pcr h in
    packet (drop 1 (ts_packet pid cc rest first kf pcr)) more refl (omega (arith, size)) k

pub write_pes_loop-IsAligned :
    (fuel pid cc : ℕ) (rest : List ℕ) (first kf : Bool) (pcr : Option ℕ)
    → cc < 16
    → let (bytes, cc') = write_pes_loop fuel pid cc rest first kf pcr in
      IsAligned bytes × (cc' < 16)
unfolding write_pes_loop
write_pes_loop-IsAligned fuel pid cc [] first kf pcr h = (done, h)
write_pes_loop-IsAligned zero pid cc (b ∷ bs) first kf pcr h = (done, h)
write_pes_loop-IsAligned (suc fuel) pid cc (b ∷ bs) first kf pcr h =
    let rest : List ℕ = b ∷ bs in
    let (aligned, counter) =
      write_pes_loop-IsAligned fuel pid (next_cc cc)
        (drop (layout first kf pcr (length rest)).payload_len rest) false kf pcr
        (omega (arith, next_cc-mod cc h)) in
    (ts_packet-tail pid cc rest first kf pcr _ (omega arith) aligned, counter)

pub write_pes_to_ts-IsAligned :
    (pid cc : ℕ) (pes : List ℕ) (kf : Bool) (pcr : Option ℕ)
    → cc < 16
    → let (bytes, cc') = write_pes_to_ts pid cc pes kf pcr in IsAligned bytes × (cc' < 16)
unfolding write_pes_to_ts
write_pes_to_ts-IsAligned pid cc pes kf pcr h =
    write_pes_loop-IsAligned (length pes) pid cc pes true kf pcr h

-- A section of at most 183 bytes fills one packet.
pub write_psi_packet-IsAligned :
    (pid cc : ℕ) (section : List ℕ)
    → length section ≤ 183
    → cc < 16
    → let (bytes, cc') = write_psi_packet pid cc section in IsAligned bytes × (cc' < 16)
unfolding write_psi_packet
write_psi_packet-IsAligned pid cc section h small =
    let n = ts_packet_size - suc (suc (suc (suc (suc (length section))))) in
    (
      packet (drop 1 (write_psi_packet pid cc section).0) [] (sym (append-nil _))
          (omega (arith, length-append section (replicate n 0xff), length-replicate {A = ℕ} n 0xff))
          done,
      omega (arith, next_cc-mod cc small),
    )
