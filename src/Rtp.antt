-- ===== src/Rtp.antt =====
-- src/transport/packet.c: RTP headers and the order of sequence numbers.
pub mod Fields
pub mod Seq
pub mod RoundTrip
pub mod Bounds
use libmezia.Prelude.{
  ℕ, ◌+◌, ◌-◌, ◌*◌, ◌/◌, ◌%◌, ◌^◌, List, Option, none, some, Bool, true, false, ◌&&◌, ◌||◌, bit_and,
  bit_or, ltb, leb, ◌==◌, if◌then◌else◌, nonzero, is_null, length, set, take, drop, copy_at, u8,
  u64, sub16, not,
}
use libmezia.Types.{Status, Packet, Written, bytes_of, rtp_header_size, zero_packet}
use libmezia.Wire.{byte_at, read_u16, read_u32, write_u16, write_u32}

-- `(int16_t)(lhs - rhs) < 0`: the top bit of the 16-bit difference.
unfoldable pub seq_before : ℕ → ℕ → Bool
seq_before lhs rhs = leb 32768 (sub16 lhs rhs)

-- The twelve bytes of the fixed header.
unfoldable pub write_header : Packet → List ℕ → List ℕ
write_header p out =
    let first = set out 0 0x80 in
    let second = set first 1 (u8 (bit_or (if nonzero p.marker then 0x80 else 0) p.payload_type)) in
    write_u32 (write_u32 (write_u16 second 2 p.seq) 4 p.timestamp) 8 p.ssrc

unfoldable pub serialize_into : Packet → List ℕ → ℕ → ℕ → Written
unfolding write_header
serialize_into p out out_capacity out_len =
    let total = u64 (rtp_header_size + p.len) in
    let header = write_header p out in
    if is_null p.bytes && nonzero p.len
    then record { status = Status.invalid_arg; out = some out; out_len = some out_len }
    else if ltb 127 p.payload_type
    then record { status = Status.invalid_arg; out = some out; out_len = some out_len }
    else if ltb out_capacity total
    then record { status = Status.buffer_too_small; out = some out; out_len = some total }
    else record {
      status = Status.ok;
      out =
          some
            (if nonzero p.len then copy_at header 12 (take p.len (bytes_of p.bytes)) else header);
      out_len = some total;
    }

-- `mezon_rtp_serialize`: each pointer is an option, and a null one is refused.
unfoldable pub serialize : Option Packet → Option (List ℕ) → ℕ → Option ℕ → Written
unfolding serialize_into
serialize (some p) (some out) cap (some n) = serialize_into p out cap n
serialize p out cap n = record { status = Status.invalid_arg; out = out; out_len = n }

-- The offset after the CSRCs.
abbrev pub csrc_end : List ℕ → ℕ
csrc_end d = rtp_header_size + bit_and (byte_at d 0) 0x0f * 4

-- The header extension: the offset behind it, or `none` where the datagram ends before.
unfoldable pub skip_extension : List ℕ → ℕ → ℕ → Option ℕ
skip_extension d len offset =
    if not (nonzero (bit_and (byte_at d 0) 0x10))
    then some offset
    else if ltb len (offset + 4)
    then none
    else let behind = offset + (4 + read_u16 d (offset + 2) * 4) in
      if ltb len behind then none else some behind

-- The padding, behind an `offset` that lies inside: the length without it, or `none` where it does not fit.
unfoldable pub strip_padding : List ℕ → ℕ → ℕ → Option ℕ
strip_padding d len offset =
    if not (nonzero (bit_and (byte_at d 0) 0x20))
    then some len
    else let pad = byte_at d (len - 1) in
      if pad == 0 || ltb (len - offset) pad then none else some (len - pad)

-- The fields that a successful parse fills in; the data pointer goes into the datagram. No difference
-- of sizes wraps here or above: `skip_extension` ends inside the datagram, and the padding is checked
-- against what is left.
unfoldable pub parsed : List ℕ → ℕ → ℕ → Packet
parsed d offset len = record zero_packet {
  marker = u8 (bit_and (byte_at d 1 / 2 ^ 7) 1);
  payload_type = u8 (bit_and (byte_at d 1) 0x7f);
  seq = read_u16 d 2;
  timestamp = read_u32 d 4;
  ssrc = read_u32 d 8;
  bytes = some (drop offset d);
  len = len - offset;
  capacity = len - offset;
}

abbrev pub parse_rest : List ℕ → Packet → ℕ → Option ℕ → Status × Option Packet
parse_rest d q offset none = (Status.malformed_packet, some q)
parse_rest d q offset (some len) = (Status.ok, some (parsed d offset len))

abbrev pub parse_padding : List ℕ → ℕ → Packet → Option ℕ → Status × Option Packet
parse_padding d len q none = (Status.malformed_packet, some q)
parse_padding d len q (some offset) = parse_rest d q offset (strip_padding d len offset)

-- No sum of `offset` can wrap: it stays below 2 ^ 19. `packet` is written only on success.
unfoldable pub parse_datagram : List ℕ → ℕ → Packet → Status × Option Packet
parse_datagram d len q =
    if ltb len rtp_header_size
    then (Status.malformed_packet, some q)
    else if not (byte_at d 0 / 2 ^ 6 == 2)
    then (Status.unsupported, some q)
    else if ltb len (csrc_end d)
    then (Status.malformed_packet, some q)
    else parse_padding d len q (skip_extension d len (csrc_end d))

-- `mezon_rtp_parse`
unfoldable pub parse : Option (List ℕ) → ℕ → Option Packet → Status × Option Packet
unfolding parse_datagram
parse (some d) len (some q) = parse_datagram d len q
parse d len q = (Status.malformed_packet, q)
