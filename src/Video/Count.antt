-- ===== src/Video/Count.antt =====
-- The number of packets that src/video/video.c asks for, against the fragments it then writes.
use libmezia.Prelude.{
  ℕ, ◌+◌, ◌-◌, ◌*◌, ◌/◌, ◌%◌, ◌≤◌, ◌<◌, ◌≡◌, arith, zero, suc, subst, sym, bool_int, nonzero,
}
use native.Mathlib.Nat.{div-add-mod, mod-lt}
use libmezia.Types.{rtp_header_size}
use libmezia.Video.{Video, max_packets_for_nal}

-- `r` is the least number of fragments of `fragment` bytes that hold `bytes` bytes.
pub record IsCeiling (r fragment bytes : ℕ) : Type 0 where
  pub covers : bytes ≤ r * fragment
  pub needed : (r - 1) * fragment < bytes

-- From the quotient and the remainder, which is rounded up.
round_up-IsCeiling :
    (q r f n : ℕ) → f * q + r ≡ n → r < f → f < n → IsCeiling (q + bool_int (nonzero r)) f n
round_up-IsCeiling zero zero f n e small more = absurd (omega arith)
round_up-IsCeiling (suc q) zero f n e small more =
    let whole : suc q + bool_int (nonzero 0) ≡ suc q = omega arith in
    let before : suc q + bool_int (nonzero 0) - 1 ≡ q = omega arith in
    record { covers = rw whole (omega arith); needed = rw before (omega arith) }
round_up-IsCeiling q (suc r) f n e small more =
    let whole : q + bool_int (nonzero (suc r)) ≡ suc q = ground arith in
    let before : q + bool_int (nonzero (suc r)) - 1 ≡ q = ground arith in
    record { covers = rw whole (omega arith); needed = rw before (omega arith) }

-- For every MTU above 14, which is what creation lets through, a NAL unit that is longer than the
-- payload of one packet is given the least number of fragments that hold it without its header.
pub max_packets_for_nal-IsCeiling :
    (v : Video) (nal_len : ℕ)
    → 14 < v.config.mtu
    → v.config.mtu - rtp_header_size < nal_len
    → IsCeiling (max_packets_for_nal v nal_len) (v.config.mtu - rtp_header_size - 2) (nal_len - 1)
unfolding max_packets_for_nal
max_packets_for_nal-IsCeiling v nal_len mtu more =
    let f : ℕ = v.config.mtu - rtp_header_size - 2 in
    let n : ℕ = nal_len - 1 in
    subst (λ (r : ℕ). IsCeiling r f n) (sym (ground arith))
      (round_up-IsCeiling (n / f) (n % f) f n (div-add-mod n f) (mod-lt n (omega arith))
        (omega arith))
