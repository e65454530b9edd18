-- ===== src/Rtp/Fields.antt =====
-- The fields that `mezon_rtp_parse` of src/transport/packet.c reads fit the types they are stored in.
use libmezia.Prelude.{
  ℕ, ◌+◌, ◌*◌, ◌^◌, ◌≤◌, ◌≡◌, List, Option-cases, inl, inr, some, arith, bit_or, IsU8, IsU32,
}
use libmezia.Prelude.Bits.{bit_or-lt}
use libmezia.Types.{Status, Packet}
use libmezia.Wire.{byte_at, read_u16, read_u32}
use libmezia.Rtp.{parse, csrc_end, skip_extension, strip_padding, parsed}
use libmezia.Rtp.Bounds.{parse-IsInside}
use libmezia.Jitter.Valid.{IsWirePacket}

-- Every element is a byte.
abbrev pub AreBytes : List ℕ → Type 0
AreBytes d = (i : ℕ) → IsU8 (byte_at d i)

read_u32-lt : (d : List ℕ) (i : ℕ) → AreBytes d → IsU32 (read_u32 d i)
unfolding read_u32
read_u32-lt d i b =
    let two =
      bit_or-lt 32 (byte_at d i * 2 ^ 24) (byte_at d (i + 1) * 2 ^ 16) (omega (arith, b i))
        (omega (arith, b (i + 1))) in
    let three =
      bit_or-lt 32 (bit_or (byte_at d i * 2 ^ 24) (byte_at d (i + 1) * 2 ^ 16))
        (byte_at d (i + 2) * 2 ^ 8) two (omega (arith, b (i + 2))) in
    bit_or-lt 32 _ (byte_at d (i + 3)) three (omega (arith, b (i + 3)))

module _ (d : List ℕ) (n : ℕ) (q r : Packet) where
  abbrev Fields : Type 0
  Fields = (r.seq ≡ read_u16 d 2) × (r.timestamp ≡ read_u32 d 4)

  with_offset :
      (offset : ℕ)
      → skip_extension d n (csrc_end d) ≡ some offset
      → parse (some d) n (some q) ≡ (Status.ok, some r)
      → Fields
  unfolding parse parsed
  with_offset offset found e = elim (Option-cases (strip_padding d n offset)) [
    | inl bad ↦ absurd (ground arith)
    | inr (left, stripped) ↦ (ground arith, ground arith)
  ]

  parse-fields : parse (some d) n (some q) ≡ (Status.ok, some r) → Fields
  unfolding parse
  parse-fields e = elim (Option-cases (skip_extension d n (csrc_end d))) [
    | inl cut ↦ absurd (ground arith)
    | inr (offset, found) ↦ with_offset offset found e
  ]

-- A packet parsed from bytes has fields that fit their types, and is shorter than the datagram.
pub parse-IsWirePacket :
    (d : List ℕ) (n : ℕ) (q r : Packet)
    → AreBytes d
    → parse (some d) n (some q) ≡ (Status.ok, some r)
    → IsWirePacket r × (12 + r.len ≤ n)
unfolding read_u16
parse-IsWirePacket d n q r b e =
    let fields = parse-fields d n q r e in
    let inside = parse-IsInside d n q r e in
    (
      record {
        seq_fits = rw fields.0 (omega arith);
        timestamp_fits = rw fields.1 (read_u32-lt d 4 b);
      },
      omega (arith, inside.before_end, inside.after_header),
    )
