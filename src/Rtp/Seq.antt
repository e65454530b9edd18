-- ===== src/Rtp/Seq.antt =====
-- `mezon_seq_before` of src/transport/packet.c: serial-number order on 16 bits.
use libmezia.Prelude.{
  ℕ, ◌+◌, ◌≤◌, ◌<◌, ◌≡◌, ◌≢◌, ◌↔◌, true, false, not, if◌then◌else◌, ◌==◌, arith, u16, sub16, IsU16,
}
use libmezia.Rtp.{seq_before}

-- `mezon_seq_before(a, b)` holds exactly when `b` lies 1 to 32768 steps ahead of `a`, counted
-- round the end of the 16 bits.
pub seq_before-ahead_iff :
    (a k : ℕ) → IsU16 a → k < 65536 → (seq_before a (u16 (a + k)) ≡ true) ↔ (1 ≤ k) × (k ≤ 32768)
unfolding seq_before
seq_before-ahead_iff a k ha hk = ground arith

-- Of two different sequence numbers exactly one is before the other, unless they are half the
-- circle apart; then each is before the other.
pub seq_before-total :
    (a b : ℕ)
    → IsU16 a
    → IsU16 b
    → a ≢ b
    → seq_before a b ≡ (if sub16 a b == 32768 then true else not (seq_before b a))
unfolding seq_before
seq_before-total a b ha hb ne = ground arith

pub seq_before-false : (a b : ℕ) → IsU16 a → IsU16 b → seq_before a b ≡ false → sub16 a b < 32768
unfolding seq_before
seq_before-false a b ha hb h = ground arith

pub seq_before-irreflexive : (a : ℕ) → IsU16 a → seq_before a a ≡ false
unfolding seq_before
seq_before-irreflexive a ha = ground arith
