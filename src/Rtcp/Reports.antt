-- ===== src/Rtcp/Reports.antt =====
-- The fixed-size packets of src/rtcp/rtcp.c come back from the wire as they were written.
use libmezia.Prelude.{
  ℕ, ◌*◌, ◌/◌, ◌%◌, ◌^◌, ◌≤◌, ◌<◌, ◌≡◌, List, ◌∷◌, some, arith, bit_and, bit_or, length, u8, IsU8,
  IsU32,
}
use libmezia.Prelude.Bits.{bit_and-byte, bit_or-fields}
use libmezia.Types.{Status, Written}
use libmezia.Wire.{read_u16, read_u32, rejoin_u32}
use libmezia.Rtcp.{
  SenderReport, ReceiverReport, Pli, RtcpPacket, sr, rr, pli, write_sr, write_rr, write_pli, parse,
  parse_body,
}

-- Written, and parsed from what was written.
pub record Survives (w : Written) (size : ℕ) (q r : RtcpPacket) : Type 0 where
  pub done : w.status ≡ Status.ok
  pub size_told : w.out_len ≡ some size
  pub comes_back : parse w.out size (some q) ≡ (Status.ok, some r)

pub record FitsSr (r : SenderReport) : Type 0 where
  pub sender_ssrc : IsU32 r.sender_ssrc
  pub ntp_msw : IsU32 r.ntp_msw
  pub ntp_lsw : IsU32 r.ntp_lsw
  pub rtp_timestamp : IsU32 r.rtp_timestamp
  pub packet_count : IsU32 r.packet_count
  pub octet_count : IsU32 r.octet_count

pub record FitsRr (r : ReceiverReport) : Type 0 where
  pub sender_ssrc : IsU32 r.sender_ssrc
  pub media_ssrc : IsU32 r.media_ssrc
  pub fraction_lost : IsU8 r.fraction_lost
  pub cumulative_lost : r.cumulative_lost < 2 ^ 24
  pub extended_seq : IsU32 r.extended_seq
  pub jitter : IsU32 r.jitter
  pub last_sr : IsU32 r.last_sr
  pub delay_since_last_sr : IsU32 r.delay_since_last_sr

-- A picture loss indication written into 12 bytes or more parses back to itself.
pub parse-write_pli :
    (p : Pli) (q : RtcpPacket) (out : List ℕ) (room n : ℕ)
    → IsU32 p.sender_ssrc
    → IsU32 p.media_ssrc
    → 12 ≤ room
    → room ≤ length out
    → Survives (write_pli (some p) (some out) room (some n)) 12 q (pli p)
unfolding write_pli parse parse_body read_u16 read_u32
parse-write_pli p q (x0 ∷ x1 ∷ x2 ∷ x3 ∷ x4 ∷ x5 ∷ x6 ∷ x7 ∷ x8 ∷ x9 ∷ xa ∷ xb ∷ rest) room n hs hm
      fits in_out =
    ground (arith, rejoin_u32 p.sender_ssrc hs, rejoin_u32 p.media_ssrc hm)
parse-write_pli p q _ room n hs hm fits in_out = absurd (omega arith)

-- A sender report written into 28 bytes or more parses back to itself.
pub parse-write_sr :
    (r : SenderReport) (q : RtcpPacket) (out : List ℕ) (room n : ℕ)
    → FitsSr r
    → 28 ≤ room
    → room ≤ length out
    → Survives (write_sr (some r) (some out) room (some n)) 28 q (sr r)
unfolding write_sr parse parse_body read_u16 read_u32
parse-write_sr r q
      (x0 ∷ x1 ∷ x2 ∷ x3 ∷ x4 ∷ x5 ∷ x6 ∷ x7 ∷ x8 ∷ x9 ∷ xa ∷ xb ∷ xc ∷ xd ∷ xe ∷ xf ∷ y0 ∷ y1 ∷ y2
        ∷ y3 ∷ y4 ∷ y5 ∷ y6 ∷ y7 ∷ y8 ∷ y9 ∷ ya ∷ yb ∷ rest)
      room n h fits in_out =
    ground (
      arith,
      rejoin_u32 r.sender_ssrc h.sender_ssrc,
      rejoin_u32 r.ntp_msw h.ntp_msw,
      rejoin_u32 r.ntp_lsw h.ntp_lsw,
      rejoin_u32 r.rtp_timestamp h.rtp_timestamp,
      rejoin_u32 r.packet_count h.packet_count,
      rejoin_u32 r.octet_count h.octet_count,
    )
parse-write_sr r q _ room n h fits in_out = absurd (omega arith)

-- The three bytes of the 24-bit loss count, joined again.
rejoin_u24 :
    (v : ℕ)
    → v < 2 ^ 24
    → bit_or
        (bit_or (u8 (bit_and (v / 2 ^ 16) 0xff) * 2 ^ 16) (u8 (bit_and (v / 2 ^ 8) 0xff) * 2 ^ 8))
        (u8 (bit_and v 0xff))
      ≡ v
rejoin_u24 v h = ground (
  arith,
  bit_and-byte (v / 2 ^ 16),
  bit_and-byte (v / 2 ^ 8),
  bit_and-byte v,
  bit_or-fields 16 (v / 65536) (v / 256 % 256 * 256),
  bit_or-fields 8 (v / 256) (v % 256),
)

-- A receiver report with a loss count below 2 ^ 24, written into 32 bytes or more, parses back to
-- itself.
pub parse-write_rr :
    (r : ReceiverReport) (q : RtcpPacket) (out : List ℕ) (room n : ℕ)
    → FitsRr r
    → 32 ≤ room
    → room ≤ length out
    → Survives (write_rr (some r) (some out) room (some n)) 32 q (rr r)
unfolding write_rr parse parse_body read_u16 read_u32
parse-write_rr r q
      (x0 ∷ x1 ∷ x2 ∷ x3 ∷ x4 ∷ x5 ∷ x6 ∷ x7 ∷ x8 ∷ x9 ∷ xa ∷ xb ∷ xc ∷ xd ∷ xe ∷ xf ∷ y0 ∷ y1 ∷ y2
        ∷ y3 ∷ y4 ∷ y5 ∷ y6 ∷ y7 ∷ y8 ∷ y9 ∷ ya ∷ yb ∷ yc ∷ yd ∷ ye ∷ yf ∷ rest)
      room n h fits in_out =
    ground (
      arith,
      rejoin_u32 r.sender_ssrc h.sender_ssrc,
      rejoin_u32 r.media_ssrc h.media_ssrc,
      rejoin_u24 r.cumulative_lost h.cumulative_lost,
      rejoin_u32 r.extended_seq h.extended_seq,
      rejoin_u32 r.jitter h.jitter,
      rejoin_u32 r.last_sr h.last_sr,
      rejoin_u32 r.delay_since_last_sr h.delay_since_last_sr,
    )
parse-write_rr r q _ room n h fits in_out = absurd (omega arith)
