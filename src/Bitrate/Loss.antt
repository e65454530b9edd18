-- ===== src/Bitrate/Loss.antt =====
-- The loss estimate of src/audio/bitrate_controller.c, against the exact percentage.
use libmezia.Prelude.{ℕ, ◌+◌, ◌-◌, ◌*◌, ◌/◌, ◌≤◌, ◌<◌, ◌≡◌, arith, min, u32, sub32}
use native.Mathlib.Nat.{div-add-mod, mod-lt, div-eq-sub-div, div-eq_of_lt}
use libmezia.Bitrate.{loss_of}

-- `v` is the loss in percent, rounded up: the least number of hundredths of `expected` that covers
-- what was lost.
pub record IsCeilingPercent (v lost expected : ℕ) : Type 0 where
  pub covers : lost * 100 ≤ v * expected
  pub least : v * expected < lost * 100 + expected

no_wrap :
    (expected received : ℕ)
    → 1 ≤ expected
    → received ≤ expected
    → expected ≤ 42524428
    → sub32 (u32 (u32 (sub32 expected received * 100) + expected)) 1
      ≡ (expected - received) * 100 + expected - 1
no_wrap expected received pos le small = omega arith

-- For up to 42524428 expected packets no step wraps: the estimate is the exact percentage,
-- rounded up, or 20 where that is more.
pub loss_of-exact :
    (expected received : ℕ)
    → 1 ≤ expected
    → received ≤ expected
    → expected ≤ 42524428
    → (v : ℕ) × IsCeilingPercent v (expected - received) expected
      × (loss_of expected received ≡ min v 20)
unfolding loss_of
loss_of-exact expected received pos le small =
    let lost : ℕ = expected - received in
    let v : ℕ = (lost * 100 + expected - 1) / expected in
    (
      v,
      record {
        covers = omega (
          arith,
          div-add-mod (lost * 100 + expected - 1) expected,
          mod-lt (lost * 100 + expected - 1) {m = expected} pos,
        );
        least = omega (arith, div-add-mod (lost * 100 + expected - 1) expected);
      },
      rw (no_wrap expected received pos le small) (ground arith),
    )

pub loss_of-le : (expected received : ℕ) → loss_of expected received ≤ 20
unfolding loss_of
loss_of-le expected received = ground arith

wrapped_sum :
    (expected : ℕ)
    → 42949673 ≤ expected
    → expected ≤ 43000000
    → sub32 (u32 (u32 (sub32 expected 0 * 100) + expected)) 1
      ≡ expected + (expected * 100 - 4294967296 - 1)
wrapped_sum expected low high = omega arith

-- Where 42949673 to 43000000 packets are expected and none came, the product wraps: the loss is
-- estimated as 1 percent.
pub loss_of_wraps :
    (expected : ℕ) → 42949673 ≤ expected → expected ≤ 43000000 → loss_of expected 0 ≡ 1
unfolding loss_of
loss_of_wraps expected low high =
    let rest : ℕ = expected * 100 - 4294967296 - 1 in
    rw
      (
        wrapped_sum expected low high,
        div-eq-sub-div {m = expected} {n = expected + rest} (omega arith) (omega arith),
      )
      (ground (arith, div-eq_of_lt {n = expected + rest - expected} {m = expected} (omega arith)))
