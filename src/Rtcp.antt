-- ===== src/Rtcp.antt =====
-- src/rtcp/rtcp.c: sender and receiver reports, NACK and PLI.
pub mod Reports
pub mod Bounds
use libmezia.Prelude.{
  ℕ, zero, suc, ◌+◌, ◌-◌, ◌*◌, ◌/◌, ◌%◌, ◌^◌, List, [], ◌∷◌, ◌++◌, Option, none, some, Bool, true,
  false, ◌&&◌, ◌||◌, not, bit_and, bit_or, ltb, leb, ◌==◌, if◌then◌else◌, nonzero, get_or, set,
  length, drop, take, u8, u16, sub16,
}
use libmezia.Types.{Status, Written}
use libmezia.Wire.{byte_at, read_u16, read_u32, write_u16, write_u32}

-- MEZIA_RTCP_SR, MEZIA_RTCP_RR, MEZIA_RTCP_RTPFB, MEZIA_RTCP_PSFB
abbrev pub pt_sr : ℕ
pt_sr = 200

abbrev pub pt_rr : ℕ
pt_rr = 201

abbrev pub pt_rtpfb : ℕ
pt_rtpfb = 205

abbrev pub pt_psfb : ℕ
pt_psfb = 206

abbrev pub fmt_nack : ℕ
fmt_nack = 1

abbrev pub fmt_pli : ℕ
fmt_pli = 1

abbrev pub max_nack_seqs : ℕ
max_nack_seqs = 64

-- `mezia_rtcp_sr_t`
pub record SenderReport : Type 0 where
  pub sender_ssrc : ℕ
  pub ntp_msw : ℕ
  pub ntp_lsw : ℕ
  pub rtp_timestamp : ℕ
  pub packet_count : ℕ
  pub octet_count : ℕ

-- `mezia_rtcp_rr_t`
pub record ReceiverReport : Type 0 where
  pub sender_ssrc : ℕ
  pub media_ssrc : ℕ
  pub fraction_lost : ℕ
  pub cumulative_lost : ℕ
  pub extended_seq : ℕ
  pub jitter : ℕ
  pub last_sr : ℕ
  pub delay_since_last_sr : ℕ

-- `mezia_rtcp_nack_t`: `seqs` holds the first `seq_count` entries of the array.
pub record Nack : Type 0 where
  pub sender_ssrc : ℕ
  pub media_ssrc : ℕ
  pub seqs : List ℕ

-- `mezia_rtcp_pli_t`
pub record Pli : Type 0 where
  pub sender_ssrc : ℕ
  pub media_ssrc : ℕ

-- `mezia_rtcp_packet_t`: the kind, with the member of that kind; the others are zeroed.
pub data RtcpPacket : Type 0 where
  unknown : RtcpPacket
  sr : SenderReport → RtcpPacket
  rr : ReceiverReport → RtcpPacket
  nack : Nack → RtcpPacket
  pli : Pli → RtcpPacket

abbrev pub refused : Option (List ℕ) → Option ℕ → Written
refused out out_len = record { status = Status.invalid_arg; out = out; out_len = out_len }

-- `need`, then the bytes: too little room answers the size wanted, and writes nothing.
abbrev pub write_fixed : ℕ → List ℕ → ℕ → List ℕ → Written
write_fixed want out room filled =
    if ltb room want
    then record { status = Status.buffer_too_small; out = some out; out_len = some want }
    else record { status = Status.ok; out = some filled; out_len = some want }

unfoldable pub fill_sr : SenderReport → List ℕ → List ℕ
fill_sr r out =
    let head = write_u16 (set (set out 0 0x80) 1 pt_sr) 2 6 in
    let times = write_u32 (write_u32 (write_u32 head 4 r.sender_ssrc) 8 r.ntp_msw) 12 r.ntp_lsw in
    write_u32 (write_u32 (write_u32 times 16 r.rtp_timestamp) 20 r.packet_count) 24 r.octet_count

-- `mezia_rtcp_write_sr`
unfoldable pub write_sr : Option SenderReport → Option (List ℕ) → ℕ → Option ℕ → Written
unfolding fill_sr
write_sr (some r) (some out) room (some n) = write_fixed 28 out room (fill_sr r out)
write_sr r out room n = refused out n

unfoldable pub fill_rr : ReceiverReport → List ℕ → List ℕ
fill_rr r out =
    let head = write_u16 (set (set out 0 0x81) 1 pt_rr) 2 7 in
    let ids = write_u32 (write_u32 head 4 r.sender_ssrc) 8 r.media_ssrc in
    let lost = set ids 12 r.fraction_lost in
    let high = set lost 13 (u8 (bit_and (r.cumulative_lost / 2 ^ 16) 0xff)) in
    let mid = set high 14 (u8 (bit_and (r.cumulative_lost / 2 ^ 8) 0xff)) in
    let low = set mid 15 (u8 (bit_and r.cumulative_lost 0xff)) in
    let seen = write_u32 (write_u32 low 16 r.extended_seq) 20 r.jitter in
    write_u32 (write_u32 seen 24 r.last_sr) 28 r.delay_since_last_sr

-- `mezia_rtcp_write_rr`
unfoldable pub write_rr : Option ReceiverReport → Option (List ℕ) → ℕ → Option ℕ → Written
unfolding fill_rr
write_rr (some r) (some out) room (some n) = write_fixed 32 out room (fill_rr r out)
write_rr r out room n = refused out n

unfoldable pub fill_pli : Pli → List ℕ → List ℕ
fill_pli p out =
    let head = write_u16 (set (set out 0 (u8 (bit_or 0x80 fmt_pli))) 1 pt_psfb) 2 2 in
    write_u32 (write_u32 head 4 p.sender_ssrc) 8 p.media_ssrc

-- `mezia_rtcp_write_pli`
unfoldable pub write_pli : Option Pli → Option (List ℕ) → ℕ → Option ℕ → Written
unfolding fill_pli
write_pli (some p) (some out) room (some n) = write_fixed 12 out room (fill_pli p out)
write_pli p out room n = refused out n

-- The loop over the numbers behind the first: the bit of each, or `none` for one that is not 1 to
-- 16 behind it.
unfoldable pub blp_of : ℕ → List ℕ → ℕ → Option ℕ
blp_of pid [] blp = some blp
blp_of pid (s ∷ rest) blp =
    let delta = sub16 s pid in
    let more = blp_of pid rest (bit_or blp (u16 (2 ^ (delta - 1)))) in
    if delta == 0 || ltb 16 delta then none else more

unfoldable pub fill_nack : Nack → ℕ → ℕ → List ℕ → List ℕ
fill_nack p pid blp out =
    let head = write_u16 (set (set out 0 (u8 (bit_or 0x80 fmt_nack))) 1 pt_rtpfb) 2 3 in
    let ids = write_u32 (write_u32 head 4 p.sender_ssrc) 8 p.media_ssrc in
    write_u16 (write_u16 ids 12 pid) 14 blp

abbrev pub put_nack : Nack → List ℕ → ℕ → ℕ → Option ℕ → Written
put_nack p out n pid none = record { status = Status.unsupported; out = some out; out_len = some n }
put_nack p out n pid (some blp) = record {
  status = Status.ok;
  out = some (fill_nack p pid blp out);
  out_len = some 16;
}

-- The count is checked first, then the room, then each number.
unfoldable pub write_nack_seqs : Nack → List ℕ → List ℕ → ℕ → ℕ → Written
write_nack_seqs p [] out room n = refused (some out) (some n)
write_nack_seqs p (pid ∷ rest) out room n =
    if ltb max_nack_seqs (length (pid ∷ rest))
    then refused (some out) (some n)
    else if ltb room 16
    then record { status = Status.buffer_too_small; out = some out; out_len = some 16 }
    else put_nack p out n pid (blp_of pid rest 0)

-- `mezia_rtcp_write_nack`
unfoldable pub write_nack : Option Nack → Option (List ℕ) → ℕ → Option ℕ → Written
unfolding write_nack_seqs fill_nack
write_nack (some p) (some out) room (some n) = write_nack_seqs p p.seqs out room n
write_nack p out room n = refused out n

-- The inner loop over the bits from `bit` on, `left` of them; the array stops at 64 entries.
unfoldable pub blp_seqs : ℕ → ℕ → ℕ → ℕ → List ℕ → List ℕ
blp_seqs zero bit pid blp seqs = seqs
blp_seqs (suc left) bit pid blp seqs = blp_seqs left (bit + 1) pid blp (
    if ltb (length seqs) max_nack_seqs && nonzero (bit_and blp (u16 (2 ^ bit)))
    then seqs ++ (u16 (pid + bit + 1) ∷ [])
    else seqs)

-- `parse_nack_fci`, with fuel for its rounds of four bytes; the buffer begins at `fci`.
unfoldable pub parse_nack_fci : ℕ → List ℕ → ℕ → ℕ → List ℕ → List ℕ
parse_nack_fci zero d off len seqs = seqs
parse_nack_fci (suc fuel) d off len seqs =
    let pid = read_u16 d off in
    let blp = read_u16 d (off + 2) in
    let rest = parse_nack_fci fuel d (off + 4) len (blp_seqs 16 0 pid blp (seqs ++ (pid ∷ []))) in
    if leb (off + 4) len && ltb (length seqs) max_nack_seqs then rest else seqs

abbrev pub read_sr : List ℕ → SenderReport
read_sr d = record {
  sender_ssrc = read_u32 d 4;
  ntp_msw = read_u32 d 8;
  ntp_lsw = read_u32 d 12;
  rtp_timestamp = read_u32 d 16;
  packet_count = read_u32 d 20;
  octet_count = read_u32 d 24;
}

abbrev pub read_rr : List ℕ → ReceiverReport
read_rr d = record {
  sender_ssrc = read_u32 d 4;
  media_ssrc = read_u32 d 8;
  fraction_lost = byte_at d 12;
  cumulative_lost = bit_or (bit_or (byte_at d 13 * 2 ^ 16) (byte_at d 14 * 2 ^ 8)) (byte_at d 15);
  extended_seq = read_u32 d 16;
  jitter = read_u32 d 20;
  last_sr = read_u32 d 24;
  delay_since_last_sr = read_u32 d 28;
}

-- As many rounds as the FCI has bytes are more than enough: each takes four.
abbrev pub read_nack : List ℕ → ℕ → Nack
read_nack d packet_len = record {
  sender_ssrc = read_u32 d 4;
  media_ssrc = read_u32 d 8;
  seqs = parse_nack_fci (packet_len - 12) (drop 12 d) 0 (packet_len - 12) [];
}

abbrev pub read_pli : List ℕ → Pli
read_pli d = record { sender_ssrc = read_u32 d 4; media_ssrc = read_u32 d 8 }

-- The packet of a known type and format, by the size that its header states.
unfoldable pub parse_body : List ℕ → ℕ → Status × Option RtcpPacket
parse_body d packet_len =
    let pt = byte_at d 1 in
    let fmt = u8 (bit_and (byte_at d 0) 0x1f) in
    if pt == pt_sr && leb 28 packet_len
    then (Status.ok, some (sr (read_sr d)))
    else if pt == pt_rr && leb 32 packet_len
    then (Status.ok, some (rr (read_rr d)))
    else if pt == pt_rtpfb && fmt == fmt_nack && leb 16 packet_len
    then (Status.ok, some (nack (read_nack d packet_len)))
    else if pt == pt_psfb && fmt == fmt_pli && leb 12 packet_len
    then (Status.ok, some (pli (read_pli d)))
    else (Status.unsupported, some unknown)

-- `mezia_rtcp_parse`. The caller's packet is zeroed before the size is checked.
unfoldable pub parse : Option (List ℕ) → ℕ → Option RtcpPacket → Status × Option RtcpPacket
parse (some d) len (some q) =
    let packet_len = (read_u16 d 2 + 1) * 4 in
    if ltb len 8
    then (Status.malformed_packet, some q)
    else if not (byte_at d 0 / 2 ^ 6 == 2)
    then (Status.unsupported, some q)
    else if ltb len packet_len || ltb packet_len 8
    then (Status.malformed_packet, some unknown)
    else parse_body d packet_len
parse d len q = (Status.malformed_packet, q)
