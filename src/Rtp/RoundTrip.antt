-- ===== src/Rtp/RoundTrip.antt =====
-- What `mezon_rtp_serialize` of src/transport/packet.c writes, `mezon_rtp_parse` reads back.
use libmezia.Prelude.{
  ℕ, zero, suc, ◌+◌, ◌*◌, ◌/◌, ◌%◌, ◌^◌, ◌≤◌, ◌<◌, ◌≡◌, refl, List, ◌∷◌, some, true, arith, bit_and,
  bit_or, length, take, drop, copy_at, copy_at-nil, length-take, length-drop, length-copy_at,
  take-length, ◌∙◌, take-copy_at, nonzero, bool_int, if◌then◌else◌, u8, u64, IsU8, IsU16, IsU32,
  Bool-cases, inl, inr, not_lt→ltb, ◌==◌,
}
use libmezia.Prelude.Bits.{every_below, byte_table, bit_or-fields}
use libmezia.Types.{Status, Packet, payload, bytes_of}
use libmezia.Wire.{read_u16, read_u32, rejoin_u16, rejoin_u32}
use libmezia.Rtp.{serialize, parse, skip_extension, strip_padding, parsed}

-- A packet that the header can hold: the field types of `mezon_packet_t`, a 7-bit payload type,
-- and `len` bytes behind the pointer.
pub record IsSendable (p : Packet) (content : List ℕ) : Type 0 where
  pub here : p.bytes ≡ some content
  pub enough : p.len ≤ length content
  pub small : 12 + p.len < 18446744073709551616
  pub type_fits : p.payload_type < 128
  pub seq_fits : IsU16 p.seq
  pub timestamp_fits : IsU32 p.timestamp
  pub ssrc_fits : IsU32 p.ssrc

-- The fields that travel: the marker as a flag, and the payload.
pub record SamePacket (p r : Packet) : Type 0 where
  pub same_marker : r.marker ≡ bool_int (nonzero p.marker)
  pub same_type : r.payload_type ≡ p.payload_type
  pub same_seq : r.seq ≡ p.seq
  pub same_timestamp : r.timestamp ≡ p.timestamp
  pub same_ssrc : r.ssrc ≡ p.ssrc
  pub same_payload : payload r ≡ payload p
  pub same_len : r.len ≡ p.len

-- The second byte of the header, apart.
type_byte : ℕ → ℕ → ℕ
type_byte m pt = u8 (bit_or (if nonzero m then 0x80 else 0) pt)

type_byte_sum : (m pt : ℕ) → pt < 128 → type_byte m pt ≡ bool_int (nonzero m) * 128 + pt
unfolding type_byte
type_byte_sum m pt h = ground (arith, bit_or-fields 7 1 pt h, bit_or-fields 7 0 pt h)

high_bit_table : every_below (λ b. u8 (bit_and (b / 2 ^ 7) 1) == b / 128) 256 ≡ true
unfolding every_below
high_bit_table = refl

low_bits_table : every_below (λ b. u8 (bit_and b 0x7f) == b % 128) 256 ≡ true
unfolding every_below
low_bits_table = refl

pub high_bit : (b : ℕ) → IsU8 b → u8 (bit_and (b / 2 ^ 7) 1) ≡ b / 128
high_bit b h = byte_table (λ b. u8 (bit_and (b / 2 ^ 7) 1)) (λ b. b / 128) b high_bit_table h

pub low_bits : (b : ℕ) → IsU8 b → u8 (bit_and b 0x7f) ≡ b % 128
low_bits b h = byte_table (λ b. u8 (bit_and b 0x7f)) (λ b. b % 128) b low_bits_table h

copy_nothing : (n : ℕ) (content rest : List ℕ) → n ≡ 0 → copy_at rest 0 (take n content) ≡ rest
copy_nothing zero content rest e = copy_at-nil rest 0
copy_nothing (suc n) content rest e = absurd (omega arith)

take-copied :
    (n : ℕ) (content rest : List ℕ)
    → n ≤ length content
    → n ≤ length rest
    → take n (copy_at rest 0 (take n content)) ≡ take n content
take-copied n content rest h room =
    let size : length (take n content) ≡ n = omega (arith, length-take n content) in
    rw size at (take-copy_at rest (take n content) (omega (arith, size)))

-- The header as a list, with what follows it.
abbrev encoded : Packet → List ℕ → List ℕ
encoded p body =
    0x80
    ∷ type_byte p.marker p.payload_type
    ∷ u8 (p.seq / 2 ^ 8)
    ∷ u8 p.seq
    ∷ u8 (p.timestamp / 2 ^ 24)
    ∷ u8 (p.timestamp / 2 ^ 16)
    ∷ u8 (p.timestamp / 2 ^ 8)
    ∷ u8 p.timestamp
    ∷ u8 (p.ssrc / 2 ^ 24)
    ∷ u8 (p.ssrc / 2 ^ 16)
    ∷ u8 (p.ssrc / 2 ^ 8)
    ∷ u8 p.ssrc
    ∷ body

serialize-encoded :
    (p : Packet) (content out : List ℕ) (room_for n : ℕ)
    → IsSendable p content
    → 12 + p.len ≤ room_for
    → room_for ≤ length out
    → serialize (some p) (some out) room_for (some n) ≡ record {
      status = Status.ok;
      out = some (encoded p (copy_at (drop 12 out) 0 (take p.len content)));
      out_len = some (12 + p.len);
    }
unfolding serialize type_byte
serialize-encoded p content (a ∷ b ∷ c ∷ d ∷ e ∷ f ∷ g ∷ h ∷ i ∷ j ∷ k ∷ l ∷ rest) room_for n s fits
      room =
    let total : u64 (12 + p.len) ≡ 12 + p.len = omega arith in
    let fits_type = not_lt→ltb 127 p.payload_type (omega arith) in
    let fits_out = not_lt→ltb room_for (12 + p.len) fits in
    rw (s.here, fits_type, total, fits_out)
      (elim (Bool-cases (nonzero p.len)) [
        | inl full ↦ rw full
        | inr none_left ↦ rw (none_left, copy_nothing p.len content rest (ground arith))
      ])
serialize-encoded p content _ room_for n s fits room = absurd (omega arith)

parse-encoded :
    (p q : Packet) (body : List ℕ)
    → p.payload_type < 128
    → IsU16 p.seq
    → IsU32 p.timestamp
    → IsU32 p.ssrc
    → parse (some (encoded p body)) (12 + p.len) (some q) ≡ (
      Status.ok,
      some (record {
        bytes = some body;
        len = p.len;
        capacity = p.len;
        timestamp = p.timestamp;
        seq = p.seq;
        ssrc = p.ssrc;
        arrival_time_ns = 0;
        payload_type = p.payload_type;
        marker = bool_int (nonzero p.marker);
      }),
    )
unfolding parse skip_extension strip_padding parsed read_u16 read_u32
parse-encoded p q body ht hs hm hr = ground (
  arith,
  type_byte_sum p.marker p.payload_type ht,
  high_bit (type_byte p.marker p.payload_type),
  low_bits (type_byte p.marker p.payload_type),
  rejoin_u16 p.seq hs,
  rejoin_u32 p.timestamp hm,
  rejoin_u32 p.ssrc hr,
)

-- The datagram is the part of the buffer that was written.
take-encoded :
    (p : Packet) (n : ℕ) (body : List ℕ) → take (12 + n) (encoded p body) ≡ encoded p (take n body)
take-encoded p n body = rw (twelve n) refl
  where
    twelve :
        (n : ℕ) → 12 + n ≡ suc (suc (suc (suc (suc (suc (suc (suc (suc (suc (suc (suc n)))))))))))
    twelve n = omega arith

-- What `mezon_rtp_serialize` writes into a buffer with room, `mezon_rtp_parse` reads back: the
-- call succeeds with 12 bytes and the payload, and the parse of those bytes succeeds with the
-- same payload type, sequence number, timestamp, SSRC and payload, and with the marker as 0 or 1.
pub parse-serialize :
    (p q : Packet) (content out : List ℕ) (room_for n : ℕ)
    → IsSendable p content
    → 12 + p.len ≤ room_for
    → room_for ≤ length out
    → (wire : List ℕ) × (serialize (some p) (some out) room_for (some n)
        ≡ record { status = Status.ok; out = some wire; out_len = some (12 + p.len) })
      × (r : Packet) × (parse (some wire) (12 + p.len) (some q) ≡ (Status.ok, some r))
      × SamePacket p r
parse-serialize p q content out room_for n s fits room = (
  encoded p (copy_at (drop 12 out) 0 (take p.len content)),
  serialize-encoded p content out room_for n s fits room,
  _,
  parse-encoded p q _ s.type_fits s.seq_fits s.timestamp_fits s.ssrc_fits,
  record {
    same_marker = refl;
    same_type = refl;
    same_seq = refl;
    same_timestamp = refl;
    same_ssrc = refl;
    same_payload =
        rw s.here
          (take-copied p.len content (drop 12 out) s.enough (omega (arith, length-drop 12 out)));
    same_len = refl;
  },
)

-- The same with the written part of the buffer alone, as it travels: 12 bytes and the payload.
pub parse-serialize_datagram :
    (p q : Packet) (content out : List ℕ) (room_for n : ℕ)
    → IsSendable p content
    → 12 + p.len ≤ room_for
    → room_for ≤ length out
    → let w = serialize (some p) (some out) room_for (some n) in
      let wire = take (12 + p.len) (bytes_of w.out) in
      (w.status ≡ Status.ok)
      × (w.out_len ≡ some (12 + p.len))
      × (length wire ≡ 12 + p.len)
      × (r : Packet) × (parse (some wire) (12 + p.len) (some q) ≡ (Status.ok, some r))
      × SamePacket p r
parse-serialize_datagram p q content out room_for n s fits room =
    let body = copy_at (drop 12 out) 0 (take p.len content) in
    let low : p.len ≤ length (drop 12 out) = omega (arith, length-drop 12 out) in
    let size : length (take p.len body) ≡ p.len =
      omega (arith, length-take p.len body, length-copy_at (drop 12 out) 0 (take p.len content)) in
    rw (serialize-encoded p content out room_for n s fits room, take-encoded p p.len body)
      (
        refl,
        refl,
        omega (arith, size),
        _,
        parse-encoded p q (take p.len body) s.type_fits s.seq_fits s.timestamp_fits s.ssrc_fits,
        record {
          same_marker = refl;
          same_type = refl;
          same_seq = refl;
          same_timestamp = refl;
          same_ssrc = refl;
          same_payload = rw s.here (
              take-length (take p.len body) p.len (omega (arith, size))
              ∙ take-copied p.len content (drop 12 out) s.enough low);
          same_len = refl;
        },
      )
