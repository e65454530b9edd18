-- ===== src/Rtcp/Bounds.antt =====
-- What `mezia_rtcp_parse` of src/rtcp/rtcp.c promises on any bytes.
use libmezia.Prelude.{
  ℕ, zero, suc, ◌+◌, ◌-◌, ◌*◌, ◌≤◌, ◌<◌, ◌≡◌, refl, List, [], ◌∷◌, ◌++◌, some, arith, length,
  length-append, drop, if_cases, ltb, leb, ◌&&◌, nonzero, if_false, sym, ap, if◌then◌else◌, bit_and,
  u16, ◌^◌,
}
use libmezia.Types.{Status}
use libmezia.Wire.{read_u16}
use libmezia.Rtcp.{RtcpPacket, Nack, nack, parse, parse_body, parse_nack_fci, blp_seqs}

length-snoc : (seqs : List ℕ) (s : ℕ) → length seqs < 64 → length (seqs ++ (s ∷ [])) ≤ 64
length-snoc seqs s h = omega (arith, length-append seqs (s ∷ []))

abbrev AtMost64 : List ℕ → Type 0
AtMost64 seqs = length seqs ≤ 64

blp_seqs-length :
    (left bit pid blp : ℕ) (seqs : List ℕ)
    → length seqs ≤ 64
    → length (blp_seqs left bit pid blp seqs) ≤ 64
unfolding blp_seqs
blp_seqs-length zero bit pid blp seqs h = h
blp_seqs-length (suc left) bit pid blp seqs h = blp_seqs-length left (bit + 1) pid blp _ (
    if_cases AtMost64 (ltb (length seqs) 64 && nonzero (bit_and blp (u16 (2 ^ bit))))
      (λ more. length-snoc seqs _ (ground arith)) (λ _. h))

parse_nack_fci-length :
    (fuel : ℕ) (d : List ℕ) (off len : ℕ) (seqs : List ℕ)
    → length seqs ≤ 64
    → length (parse_nack_fci fuel d off len seqs) ≤ 64
unfolding parse_nack_fci
parse_nack_fci-length zero d off len seqs h = h
parse_nack_fci-length (suc fuel) d off len seqs h =
    if_cases AtMost64 (leb (off + 4) len && ltb (length seqs) 64)
      (λ more. parse_nack_fci-length fuel d (off + 4) len _ (
        blp_seqs-length 16 0 (read_u16 d off) (read_u16 d (off + 2)) _
          (length-snoc seqs (read_u16 d off) (ground arith))))
      (λ _. h)

-- The fuel that `read_nack` gives is enough: any two fuels that cover the bytes left give the same.
pub parse_nack_fci-fuel :
    (fuel more : ℕ) (d : List ℕ) (off len : ℕ) (seqs : List ℕ)
    → len ≤ off + fuel
    → len ≤ off + more
    → parse_nack_fci fuel d off len seqs ≡ parse_nack_fci more d off len seqs
unfolding parse_nack_fci
parse_nack_fci-fuel zero zero d off len seqs h k = refl
parse_nack_fci-fuel zero (suc more) d off len seqs h k =
    sym (if_false (leb (off + 4) len && ltb (length seqs) 64) _ (ground arith))
parse_nack_fci-fuel (suc fuel) zero d off len seqs h k =
    if_false (leb (off + 4) len && ltb (length seqs) 64) _ (ground arith)
parse_nack_fci-fuel (suc fuel) (suc more) d off len seqs h k =
    ap (λ (t : List ℕ). if leb (off + 4) len && ltb (length seqs) 64 then t else seqs)
      (parse_nack_fci-fuel fuel more d (off + 4) len _ (omega arith) (omega arith))

-- Whatever the bytes: the numbers of a NACK that parses fit its array of 64, also where the packet
-- names more.
pub parse-nack-length :
    (d : List ℕ) (n : ℕ) (q : RtcpPacket) (p : Nack)
    → parse (some d) n (some q) ≡ (Status.ok, some (nack p))
    → length p.seqs ≤ 64
unfolding parse parse_body
parse-nack-length d n q p e = ground (
  arith,
  parse_nack_fci-length ((read_u16 d 2 + 1) * 4 - 12) (drop 12 d) 0 ((read_u16 d 2 + 1) * 4 - 12)
      [],
)
