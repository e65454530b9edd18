-- ===== src/Wire.antt =====
-- The big-endian accessors that src/transport/packet.c, src/transport/audio_feedback.c and
-- src/rtcp/rtcp.c each declare. A pointer `p + k` is the buffer with the index `k`.
use libmezia.Prelude.{
  ℕ, ◌+◌, ◌*◌, ◌/◌, ◌^◌, bit_or, List, [], ◌∷◌, ◌≡◌, arith, get_or, set, u8, u16, IsU8, IsU16,
  IsU32, All,
}
use libmezia.Prelude.Bits.{bit_or-fields}

-- `p[i]`. A read past the end, which C leaves undefined, is 0 here.
abbrev pub byte_at : List ℕ → ℕ → ℕ
byte_at buf i = get_or buf i 0

unfoldable pub read_u16 : List ℕ → ℕ → ℕ
read_u16 buf i = u16 (bit_or (byte_at buf i * 2 ^ 8) (byte_at buf (i + 1)))

unfoldable pub read_u32 : List ℕ → ℕ → ℕ
read_u32 buf i =
    bit_or
      (bit_or (bit_or (byte_at buf i * 2 ^ 24) (byte_at buf (i + 1) * 2 ^ 16))
        (byte_at buf (i + 2) * 2 ^ 8))
      (byte_at buf (i + 3))

abbrev pub write_u16 : List ℕ → ℕ → ℕ → List ℕ
write_u16 buf i v = set (set buf i (u8 (v / 2 ^ 8))) (i + 1) (u8 v)

abbrev pub write_u32 : List ℕ → ℕ → ℕ → List ℕ
write_u32 buf i v =
    set (set (set (set buf i (u8 (v / 2 ^ 24))) (i + 1) (u8 (v / 2 ^ 16))) (i + 2) (u8 (v / 2 ^ 8)))
      (i + 3) (u8 v)

abbrev pub IsBytes : List ℕ → Type 0
IsBytes = All IsU8

-- Two bytes joined by shift and `|` are a number in base 256.
pub join_u16 : (a b : ℕ) → IsU8 a → IsU8 b → u16 (bit_or (a * 2 ^ 8) b) ≡ a * 256 + b
join_u16 a b ha hb = omega (arith, bit_or-fields 8 a b hb)

pub join_u32 :
    (a b c d : ℕ)
    → IsU8 b
    → IsU8 c
    → IsU8 d
    → bit_or (bit_or (bit_or (a * 2 ^ 24) (b * 2 ^ 16)) (c * 2 ^ 8)) d
      ≡ a * 16777216 + b * 65536 + c * 256 + d
join_u32 a b c d hb hc hd = ground (
  arith,
  bit_or-fields 24 a (b * 2 ^ 16),
  bit_or-fields 16 (a * 256 + b) (c * 2 ^ 8),
  bit_or-fields 8 (a * 65536 + b * 256 + c) d,
)

-- The bytes of a number, joined again, are the number.
pub rejoin_u16 : (v : ℕ) → IsU16 v → u16 (bit_or (u8 (v / 2 ^ 8) * 2 ^ 8) (u8 v)) ≡ v
rejoin_u16 v h = omega (arith, join_u16 (u8 (v / 2 ^ 8)) (u8 v) (omega arith) (omega arith))

pub rejoin_u32 :
    (v : ℕ)
    → IsU32 v
    → bit_or
        (bit_or
          (bit_or (u8 (v / 2 ^ 24) * 2 ^ 24) (u8 (v / 2 ^ 16) * 2 ^ 16))
          (u8 (v / 2 ^ 8) * 2 ^ 8))
        (u8 v)
      ≡ v
rejoin_u32 v h = omega (
  arith,
  join_u32 (u8 (v / 2 ^ 24)) (u8 (v / 2 ^ 16)) (u8 (v / 2 ^ 8)) (u8 v) (omega arith) (omega arith)
      (omega arith),
)

-- What is read fits the width that it is read at.
pub byte_at-IsU8 : (buf : List ℕ) (i : ℕ) → IsBytes buf → IsU8 (byte_at buf i)
byte_at-IsU8 [] i h = omega arith
byte_at-IsU8 (x ∷ xs) ℕ.zero h = h.0
byte_at-IsU8 (x ∷ xs) (ℕ.suc i) h = byte_at-IsU8 xs i h.1
