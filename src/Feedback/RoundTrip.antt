-- ===== src/Feedback/RoundTrip.antt =====
-- Reports of src/transport/audio_feedback.c survive the wire in both directions.
use libmezia.Prelude.{
  ℕ, ◌*◌, ◌/◌, ◌^◌, ◌≤◌, ◌≡◌, ap, List, [], ◌∷◌, Option, some, arith, length, take, refl, u8, u16,
  IsU8, IsU16, IsU32, bit_or,
}
use libmezia.Types.{Status}
use libmezia.Wire.{read_u16, read_u32, rejoin_u16, rejoin_u32, join_u16, join_u32, IsBytes}
use libmezia.Feedback.{Feedback, serialize, parse, write_report}

-- A report that the sender accepts, with the field widths of `mezon_audio_feedback_t`.
pub record IsReport (f : Feedback) : Type 0 where
  pub some_expected : 1 ≤ f.expected
  pub not_more : f.received ≤ f.expected
  pub seq_fits : IsU16 f.report_seq
  pub ssrc_fits : IsU32 f.media_ssrc
  pub expected_fits : IsU32 f.expected

-- Serializing a report into 16 bytes or more succeeds, and parsing what was written gives the
-- report back.
pub parse-serialize_report :
    (f g : Feedback) (out : List ℕ) (room : ℕ)
    → IsReport f
    → 16 ≤ room
    → room ≤ length out
    → let (s, wire) = serialize (some f) (some out) room in
      (s ≡ Status.ok) × (parse wire 16 (some g) ≡ (Status.ok, some f))
unfolding serialize parse read_u16 read_u32
parse-serialize_report f g
      (x0 ∷ x1 ∷ x2 ∷ x3 ∷ x4 ∷ x5 ∷ x6 ∷ x7 ∷ x8 ∷ x9 ∷ xa ∷ xb ∷ xc ∷ xd ∷ xe ∷ xf ∷ rest) room h
      fits in_out =
    ground (
      arith,
      rejoin_u16 f.report_seq,
      rejoin_u32 f.media_ssrc,
      rejoin_u32 f.expected,
      rejoin_u32 f.received,
    )
parse-serialize_report f g _ room h fits in_out = absurd (omega arith)

-- The parser of a report reads its sixteen bytes, and nothing behind them.
pub parse-take :
    (d : List ℕ) (g : Feedback)
    → 16 ≤ length d
    → parse (some d) 16 (some g) ≡ parse (some (take 16 d)) 16 (some g)
unfolding parse read_u16 read_u32
parse-take (x0 ∷ x1 ∷ x2 ∷ x3 ∷ x4 ∷ x5 ∷ x6 ∷ x7 ∷ x8 ∷ x9 ∷ xa ∷ xb ∷ xc ∷ xd ∷ xe ∷ xf ∷ rest) g
      long =
    refl
parse-take _ g short = absurd (omega arith)

-- What is written is sixteen bytes, where there were sixteen.
pub length-serialize :
    (f : Feedback) (out : List ℕ)
    → IsReport f
    → length out ≡ 16
    → (w : List ℕ) × ((serialize (some f) (some out) 16).1 ≡ some w) × (length w ≡ 16)
unfolding serialize write_report
length-serialize f
      (x0 ∷ x1 ∷ x2 ∷ x3 ∷ x4 ∷ x5 ∷ x6 ∷ x7 ∷ x8 ∷ x9 ∷ xa ∷ xb ∷ xc ∷ xd ∷ xe ∷ xf ∷ rest) h
      size =
    (
      write_report f
          (x0 ∷ x1 ∷ x2 ∷ x3 ∷ x4 ∷ x5 ∷ x6 ∷ x7 ∷ x8 ∷ x9 ∷ xa ∷ xb ∷ xc ∷ xd ∷ xe ∷ xf ∷ rest),
      ground (arith, h.some_expected, h.not_more),
      size,
    )
length-serialize f _ h size = absurd (omega arith)

-- The bytes of a joined number are the bytes that it was joined from.
bytes_u16 :
    (a b : ℕ)
    → IsU8 a
    → IsU8 b
    → let v = u16 (bit_or (a * 2 ^ 8) b) in (u8 (v / 2 ^ 8) ≡ a) × (u8 v ≡ b)
bytes_u16 a b ha hb = omega (arith, join_u16 a b ha hb)

bytes_u32 :
    (a b c d : ℕ)
    → IsU8 a
    → IsU8 b
    → IsU8 c
    → IsU8 d
    → let v = bit_or (bit_or (bit_or (a * 2 ^ 24) (b * 2 ^ 16)) (c * 2 ^ 8)) d in
      (u8 (v / 2 ^ 24) ≡ a) × (u8 (v / 2 ^ 16) ≡ b) × (u8 (v / 2 ^ 8) ≡ c) × (u8 v ≡ d)
bytes_u32 a b c d ha hb hc hd = omega (arith, join_u32 a b c d hb hc hd)

same_bytes :
    (wire out : List ℕ) (room : ℕ) (g : Feedback)
    → IsBytes wire
    → length wire ≡ 16
    → 16 ≤ room
    → length out ≡ 16
    → (parse (some wire) 16 (some g)).0 ≡ Status.ok
    → serialize (parse (some wire) 16 (some g)).1 (some out) room ≡ (Status.ok, some wire)
unfolding serialize parse read_u16 read_u32
same_bytes (x0 ∷ x1 ∷ x2 ∷ x3 ∷ x4 ∷ x5 ∷ x6 ∷ x7 ∷ x8 ∷ x9 ∷ xa ∷ xb ∷ xc ∷ xd ∷ xe ∷ xf ∷ [])
      (y0 ∷ y1 ∷ y2 ∷ y3 ∷ y4 ∷ y5 ∷ y6 ∷ y7 ∷ y8 ∷ y9 ∷ ya ∷ yb ∷ yc ∷ yd ∷ ye ∷ yf ∷ []) room g h
      size fits in_out e =
    ground
      (arith, bytes_u16 x2 x3, bytes_u32 x4 x5 x6 x7, bytes_u32 x8 x9 xa xb, bytes_u32 xc xd xe xf)
same_bytes _ _ room g h size fits in_out e = absurd (omega arith)

-- A 16-byte payload that parses is exactly what the report that it parses to is serialized as:
-- no two payloads stand for one report.
pub serialize-parse_report :
    (wire out : List ℕ) (room : ℕ) (f g : Feedback)
    → IsBytes wire
    → length wire ≡ 16
    → 16 ≤ room
    → length out ≡ 16
    → parse (some wire) 16 (some g) ≡ (Status.ok, some f)
    → serialize (some f) (some out) room ≡ (Status.ok, some wire)
serialize-parse_report wire out room f g h size fits in_out e =
    rw (ap (λ (t : Status × Option Feedback). t.1) e) at
      (same_bytes wire out room g h size fits in_out (ap (λ (t : Status × Option Feedback). t.0) e))
