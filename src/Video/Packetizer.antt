-- ===== src/Video/Packetizer.antt =====
-- The sender of src/video/video.c: one NAL unit into the packets of the caller.
use libmezia.Prelude.{
  ℕ, zero, suc, ◌+◌, ◌-◌, List, Option, none, some, Bool, ◌&&◌, ◌||◌, not, bit_and, bit_or, ltb,
  ◌==◌, if◌then◌else◌, is_null, bool_int, get_or, set, drop, take, copy_at, u8, u16,
}
use libmezia.Types.{zero_packet, Status, Packet, bytes_of, rtp_header_size}
use libmezia.Wire.{byte_at}
use libmezia.Video.{Video, valid_nal, nal_type_of, max_packets_for_nal}

-- What a call of the packetizer leaves: status, context, the caller's packets and `*packet_count`.
pub record Packetized : Type 0 where
  pub status : Status
  pub video : Video
  pub packets : List Packet
  pub packet_count : ℕ

-- `packets[i]`; past the end a packet with no buffer.
abbrev pub packet_at : List Packet → ℕ → Packet
packet_at ps i = get_or ps i zero_packet

-- The bytes of the next fragment, at `offset`.
abbrev pub fragment_bytes : ℕ → ℕ → ℕ → ℕ
fragment_bytes nal_len fragment offset =
    if ltb fragment (nal_len - offset) then fragment else nal_len - offset

-- The first loop: does every packet have room? `some` is the index and size of one that has not.
unfoldable pub find_small : List Packet → ℕ → ℕ → ℕ → ℕ → ℕ → Option (ℕ × ℕ)
find_small ps nal_len fragment zero i offset = none
find_small ps nal_len fragment (suc left) i offset =
    let bytes = fragment_bytes nal_len fragment offset in
    let rest = find_small ps nal_len fragment left (i + 1) (offset + bytes) in
    if is_null (packet_at ps i).bytes || ltb (packet_at ps i).capacity (bytes + 2)
    then some (i, bytes + 2)
    else rest

-- The second byte of a fragment: the NAL type with the start and the end bit.
abbrev pub fu_header : ℕ → Bool → Bool → ℕ
fu_header nal_type first last =
    let started = if first then u8 (bit_or nal_type 0x80) else nal_type in
    if last then u8 (bit_or started 0x40) else started

-- The bytes of one fragment, written into the packet's buffer.
abbrev pub write_fragment : List ℕ → ℕ → ℕ → List ℕ → List ℕ
write_fragment buffer indicator header content =
    copy_at (set (set buffer 0 indicator) 1 header) 2 content

-- The packet of the fragment `i` of `required`.
unfoldable pub fragment_packet : Video → List ℕ → ℕ → ℕ → ℕ → Bool → ℕ → ℕ → ℕ → Packet → Packet
fragment_packet v nal nal_len fragment timestamp end_of_access_unit required i offset p =
    let bytes = fragment_bytes nal_len fragment offset in
    let indicator = u8 (bit_or (bit_and (byte_at nal 0) 0xe0) 28) in
    let header = fu_header (nal_type_of (byte_at nal 0)) (i == 0) (i + 1 == required) in
    record p {
      bytes =
          some (write_fragment (bytes_of p.bytes) indicator header (take bytes (drop offset nal)));
      len = bytes + 2;
      payload_type = v.config.payload_type;
      marker = bool_int (end_of_access_unit && i + 1 == required);
      seq = v.next_seq;
      timestamp = timestamp;
      ssrc = v.config.ssrc;
    }

-- The second loop, `left` rounds before its end. `next_seq` wraps at 16 bits.
unfoldable pub fill_fragments :
    List ℕ → ℕ → ℕ → ℕ → Bool → ℕ → ℕ → ℕ → ℕ → Video → List Packet → Video × List Packet
fill_fragments nal nal_len fragment timestamp eau required zero i offset v ps = (v, ps)
fill_fragments nal nal_len fragment timestamp eau required (suc left) i offset v ps =
    let p =
      fragment_packet v nal nal_len fragment timestamp eau required i offset (packet_at ps i) in
    fill_fragments nal nal_len fragment timestamp eau required left (i + 1)
      (offset + fragment_bytes nal_len fragment offset)
      (record v { next_seq = u16 (v.next_seq + 1) }) (set ps i p)

-- One packet holds the whole NAL unit.
unfoldable pub packetize_single : Video → List ℕ → ℕ → ℕ → Bool → List Packet → Packetized
packetize_single v nal nal_len timestamp eau ps =
    let p = packet_at ps 0 in
    if is_null p.bytes || ltb p.capacity nal_len
    then record {
      status = Status.buffer_too_small;
      video = v;
      packets = set ps 0 (record p { len = nal_len });
      packet_count = 1;
    }
    else record {
      status = Status.ok;
      video = record v { next_seq = u16 (v.next_seq + 1) };
      packets = set ps 0 (record p {
        bytes = some (copy_at (bytes_of p.bytes) 0 (take nal_len nal));
        len = nal_len;
        payload_type = v.config.payload_type;
        marker = bool_int eau;
        seq = v.next_seq;
        timestamp = timestamp;
        ssrc = v.config.ssrc;
      });
      packet_count = 1;
    }

abbrev pub packetize_checked :
    Video → List ℕ → ℕ → ℕ → Bool → List Packet → ℕ → Option (ℕ × ℕ) → Packetized
packetize_checked v nal nal_len timestamp eau ps required (some (i, size)) = record {
  status = Status.buffer_too_small;
  video = v;
  packets = set ps i (record (packet_at ps i) { len = size });
  packet_count = required;
}
packetize_checked v nal nal_len timestamp eau ps required none =
    let (v', ps') =
      fill_fragments nal nal_len (v.config.mtu - rtp_header_size - 2) timestamp eau required
        required 0 1 v ps in
    record { status = Status.ok; video = v'; packets = ps'; packet_count = required }

-- `mezon_video_packetize_nal` on a context, packets and a count that are not null.
unfoldable pub packetize_nal :
    Video → Option (List ℕ) → ℕ → ℕ → Bool → List Packet → ℕ → ℕ → Packetized
packetize_nal v nal nal_len timestamp eau ps packet_capacity packet_count =
    let required = max_packets_for_nal v nal_len in
    let fragment = v.config.mtu - rtp_header_size - 2 in
    if not (valid_nal nal nal_len)
    then record {
      status = Status.invalid_arg;
      video = v;
      packets = ps;
      packet_count = packet_count;
    }
    else if ltb packet_capacity required
    then record {
      status = Status.buffer_too_small;
      video = v;
      packets = ps;
      packet_count = required;
    }
    else if required == 1
    then packetize_single v (bytes_of nal) nal_len timestamp eau ps
    else packetize_checked v (bytes_of nal) nal_len timestamp eau ps required
        (find_small ps nal_len fragment required 0 1)
