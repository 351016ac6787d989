-- ===== src/TsDemux/Packets.antt =====
-- `process_packet` and `push`: from bytes to packets, and from packets to the tables and streams.
use ferricast.Base.{
  ℕ, zero, suc, ◌+◌, List, bit_and, Option, none, some, Bool, true, false, not, ◌&&◌, ◌||◌, ltb,
  leb, ◌==◌, if◌then◌else◌, length, get_or, drop, take,
}
use ferricast.Base.Words.{shr}
use ferricast.TsDemux.{TsDemuxer, parse_pat, parse_pmt, be13}
use ferricast.TsDemux.Pes.{collect_pes}

-- `Some(pid) == self.pid`
abbrev pub is_pid : ℕ → Option ℕ → Bool
is_pid pid none = false
is_pid pid (some p) = pid == p

unfoldable pub dispatch : TsDemuxer → ℕ → List ℕ → Bool → TsDemuxer
dispatch d pid payload pusi =
    if pid == 0
    then parse_pat d payload pusi
    else if is_pid pid d.pmt_pid
    then parse_pmt d payload pusi
    else if is_pid pid d.video_pid
    then collect_pes d true payload pusi
    else if is_pid pid d.audio_pid
    then collect_pes d false payload pusi
    else d

unfoldable pub process_packet : TsDemuxer → List ℕ → TsDemuxer
process_packet d pkt =
    let pusi = not (bit_and (get_or pkt 1 0) 0x40 == 0) in
    let pid = be13 (get_or pkt 1 0) (get_or pkt 2 0) in
    let afc = bit_and (shr (get_or pkt 3 0) 4) 0x03 in
    let payload_start = if afc == 3 then 5 + get_or pkt 4 0 else 4 in
    if afc == 2 || (afc == 3 && leb 188 payload_start)
    then d
    else dispatch d pid (drop payload_start pkt) pusi

-- The list is `chunk[i..]`. A round takes a byte at least.
unfoldable pub push_loop : ℕ → TsDemuxer → List ℕ → TsDemuxer
push_loop zero d rest = d
push_loop (suc fuel) d rest =
    let skip = push_loop fuel d (drop 1 rest) in
    let packet = push_loop fuel (process_packet d (take 188 rest)) (drop 188 rest) in
    if ltb (length rest) 188 then d else if not (get_or rest 0 0 == 0x47) then skip else packet

-- The demuxed packets gather in `out`, which the caller drains.
unfoldable pub push : TsDemuxer → List ℕ → TsDemuxer
push d chunk = push_loop (length chunk) d chunk
