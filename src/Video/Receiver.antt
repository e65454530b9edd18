-- ===== src/Video/Receiver.antt =====
-- The receiver of src/video/video.c: packets back into NAL units.
use libmezia.Prelude.{
  ℕ, ◌+◌, ◌-◌, List, Option, none, some, Bool, true, false, ◌&&◌, ◌||◌, not, bit_and, bit_or, ltb,
  leb, ◌==◌, if◌then◌else◌, nonzero, is_null, set, drop, take, copy_at, u8, u16, u64, sub16, inc64,
}
use libmezia.Types.{Status, Packet, bytes_of}
use libmezia.Wire.{byte_at}
use libmezia.Rtp.{seq_before}
use libmezia.Video.{Video, Delivery, nal_type_of}

-- `reset_reassembly`
unfoldable pub reset_reassembly : Video → Bool → Video
reset_reassembly v failed = record v {
  stats =
      if failed && v.reassembling
      then record v.stats { reassembly_failures = inc64 v.stats.reassembly_failures }
      else v.stats;
  reassembling = false;
  reassembly_len = 0;
}

abbrev pub Received : Type 0
Received = Status × Video × Option Delivery

-- The call of the callback, where one is set.
abbrev pub deliver : Video → List ℕ → Packet → Bool → Option Delivery
deliver v nal p discontinuity =
    if v.config.on_nal
    then some (record {
      nal = nal;
      timestamp = p.timestamp;
      end_of_access_unit = p.marker;
      discontinuity = discontinuity;
    })
    else none

-- The counters at the end of a packet that was used.
abbrev pub count_received : Video → Packet → Video
count_received v p = record v {
  stats = record v.stats {
    packets_received = inc64 v.stats.packets_received;
    bytes_received = u64 (v.stats.bytes_received + p.len);
  };
}

abbrev pub count_malformed : Video → Video
count_malformed v = record v {
  stats = record v.stats { malformed_packets = inc64 v.stats.malformed_packets };
}

abbrev pub count_failure : Video → Video
count_failure v = record v {
  stats = record v.stats { reassembly_failures = inc64 v.stats.reassembly_failures };
}

-- The first fragment: the NAL header is put together from both bytes.
unfoldable pub start_fragment : Video → Packet → ℕ → ℕ → Bool → Video
unfolding reset_reassembly
start_fragment v p indicator header discontinuity =
    let clean = reset_reassembly v true in
    record clean {
      reassembly =
          set clean.reassembly 0 (u8 (bit_or (bit_and indicator 0xe0) (bit_and header 0x1f)));
      reassembly_len = 1;
      reassembly_timestamp = p.timestamp;
      reassembling = true;
      discontinuity = discontinuity;
    }

-- The content of a fragment goes behind what is there; the last one delivers the NAL unit.
unfoldable pub append_fragment : Video → Packet → List ℕ → Bool → Received
unfolding reset_reassembly
append_fragment v p content last =
    let bytes = p.len - 2 in
    let grown = record v {
      reassembly = copy_at v.reassembly v.reassembly_len (take bytes content);
      reassembly_len = u64 (v.reassembly_len + bytes);
    } in
    if ltb v.config.max_nal_size (u64 (v.reassembly_len + bytes))
    then (Status.buffer_too_small, reset_reassembly v true, none)
    else if last
    then (
      Status.ok,
      count_received (reset_reassembly grown false) p,
      deliver v (take grown.reassembly_len grown.reassembly) p v.discontinuity,
    )
    else (Status.ok, count_received grown p, none)

-- An FU-A payload. `data` is what the packet points to.
unfoldable pub receive_fragment : Video → Packet → List ℕ → Bool → Received
unfolding reset_reassembly
receive_fragment v p d discontinuity =
    let header = byte_at d 1 in
    let first = nonzero (bit_and header 0x80) in
    let last = nonzero (bit_and header 0x40) in
    if ltb p.len 3
    then (Status.malformed_packet, reset_reassembly (count_malformed v) true, none)
    else if nonzero (bit_and header 0x20) || first && last
    then (Status.malformed_packet, reset_reassembly (count_malformed v) true, none)
    else if first
    then append_fragment (start_fragment v p (byte_at d 0) header discontinuity) p (drop 2 d) last
    else if not v.reassembling || not (v.reassembly_timestamp == p.timestamp)
    then (Status.malformed_packet, count_failure v, none)
    else append_fragment v p (drop 2 d) last

-- A packet in order, or after a gap: `expected_seq` has moved on already.
unfoldable pub receive_payload : Video → Packet → List ℕ → Bool → Received
unfolding reset_reassembly
receive_payload v p d discontinuity =
    let kind = nal_type_of (byte_at d 0) in
    if leb 1 kind && leb kind 23
    then (
      Status.ok,
      count_received (reset_reassembly v true) p,
      deliver v (take p.len d) p discontinuity,
    )
    else if kind == 28
    then receive_fragment v p d discontinuity
    else (Status.unsupported, count_malformed v, none)

abbrev pub expect_next : Video → Packet → Video
expect_next v p = record v { expected_seq = u16 (p.seq + 1); have_expected_seq = true }

-- The context after a gap.
unfoldable pub skip_gap : Video → Packet → Video
unfolding reset_reassembly
skip_gap v p =
    reset_reassembly
      (record v {
        stats = record v.stats {
          sequence_gaps = u64 (v.stats.sequence_gaps + sub16 p.seq v.expected_seq);
        };
      })
      true

-- The order of sequence numbers decides first: duplicates and late packets go no further.
unfoldable pub receive_sequenced : Video → Packet → List ℕ → Received
receive_sequenced v p d =
    if not v.have_expected_seq
    then receive_payload (expect_next v p) p d false
    else if p.seq == sub16 v.expected_seq 1
    then (
      Status.ok,
      record v { stats = record v.stats { duplicate_packets = inc64 v.stats.duplicate_packets } },
      none,
    )
    else if seq_before p.seq v.expected_seq
    then (
      Status.ok,
      record v { stats = record v.stats { late_packets = inc64 v.stats.late_packets } },
      none,
    )
    else if p.seq == v.expected_seq
    then receive_payload (expect_next v p) p d false
    else receive_payload (expect_next (skip_gap v p) p) p d true

-- `mezon_video_receive` on a context that is not null.
unfoldable pub receive : Video → Option Packet → Received
receive v none = (Status.invalid_arg, v, none)
receive v (some p) =
    if is_null p.bytes || p.len == 0 || not (p.payload_type == v.config.payload_type)
    then (Status.invalid_arg, v, none)
    else receive_sequenced v p (bytes_of p.bytes)
