-- ===== src/Rtp/Bounds.antt =====
-- What a parse by `mezon_rtp_parse` of src/transport/packet.c promises on any datagram.
use libmezia.Prelude.{
  ℕ, ◌+◌, ◌-◌, ◌/◌, bit_and, nonzero, if◌then◌else◌, ◌≤◌, ◌≡◌, ◌≢◌, ◌⊎◌, inl, inr, List,
  Option-cases, none, some, arith, drop,
}
use libmezia.Types.{Status, Packet}
use libmezia.Wire.{byte_at}
use libmezia.Rtp.{parse, csrc_end, skip_extension, strip_padding, parsed}

-- The bytes of padding that the header announces.
abbrev pub padding_of : List ℕ → ℕ → ℕ
padding_of d n = if nonzero (bit_and (byte_at d 0) 0x20) then byte_at d (n - 1) else 0

-- The payload lies inside the first `n` bytes of the datagram, behind a whole header and in front of the padding.
pub record IsInside (d : List ℕ) (n : ℕ) (r : Packet) : Type 0 where
  pub offset : ℕ
  pub version : byte_at d 0 / 64 ≡ 2
  pub after_header : 12 ≤ offset
  pub before_end : offset + r.len ≤ n
  pub whole : offset + r.len + padding_of d n ≡ n
  pub starts_there : r.bytes ≡ some (drop offset d)
  pub no_more : r.capacity ≡ r.len

skip_extension-bounds :
    (d : List ℕ) (n start behind : ℕ)
    → start ≤ n
    → skip_extension d n start ≡ some behind
    → (start ≤ behind) × (behind ≤ n)
unfolding skip_extension
skip_extension-bounds d n start behind h e = ground arith

strip_padding-bounds :
    (d : List ℕ) (n offset left : ℕ)
    → offset ≤ n
    → strip_padding d n offset ≡ some left
    → (offset ≤ left) × (left + padding_of d n ≡ n)
unfolding strip_padding
strip_padding-bounds d n offset left h e = ground arith

module _ (d : List ℕ) (n : ℕ) (q r : Packet) where
  no_offset :
      skip_extension d n (csrc_end d) ≡ none → parse (some d) n (some q) ≡ (Status.ok, some r) → ⊥
  unfolding parse
  no_offset cut e = ground arith

  no_padding :
      (offset : ℕ)
      → skip_extension d n (csrc_end d) ≡ some offset
      → strip_padding d n offset ≡ none
      → parse (some d) n (some q) ≡ (Status.ok, some r)
      → ⊥
  unfolding parse
  no_padding offset found bad e = ground arith

  inside :
      (offset left : ℕ)
      → skip_extension d n (csrc_end d) ≡ some offset
      → strip_padding d n offset ≡ some left
      → parse (some d) n (some q) ≡ (Status.ok, some r)
      → IsInside d n r
  unfolding parse parsed
  inside offset left found stripped e = record {
    offset = offset;
    version = ground arith;
    after_header = ground (arith, skip_extension-bounds d n (csrc_end d) offset);
    before_end = ground (
      arith,
      skip_extension-bounds d n (csrc_end d) offset,
      strip_padding-bounds d n offset left,
    );
    whole = ground (
      arith,
      skip_extension-bounds d n (csrc_end d) offset,
      strip_padding-bounds d n offset left,
    );
    starts_there = ground arith;
    no_more = ground arith;
  }

pub parse-IsInside :
    (d : List ℕ) (n : ℕ) (q r : Packet)
    → parse (some d) n (some q) ≡ (Status.ok, some r)
    → IsInside d n r
parse-IsInside d n q r e = elim (Option-cases (skip_extension d n (csrc_end d))) [
  | inl cut ↦ absurd (no_offset d n q r cut e)
  | inr (offset, found) ↦ elim (Option-cases (strip_padding d n offset)) [
    | inl bad ↦ absurd (no_padding d n q r offset found bad e)
    | inr (left, stripped) ↦ inside d n q r offset left found stripped e
  ]
]

-- A parse that fails answers MALFORMED_PACKET or UNSUPPORTED, and leaves the caller's packet as it
-- was.
pub parse_fails :
    (d : List ℕ) (n : ℕ) (q : Packet)
    → (parse (some d) n (some q)).0 ≢ Status.ok
    → (parse (some d) n (some q) ≡ (Status.malformed_packet, some q))
      ⊎ (parse (some d) n (some q) ≡ (Status.unsupported, some q))
unfolding parse
parse_fails d n q h = ground arith
