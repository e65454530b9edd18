-- ===== src/Bitrate/Range.antt =====
-- The controller of src/audio/bitrate_controller.c stays within its limits.
use libmezia.Prelude.{ℕ, ◌≤◌, ◌<◌, arith}
use libmezia.Bitrate.{Controller, clamp_round, init, loss_of, aim, adjust, update}
use libmezia.Bitrate.Loss.{loss_of-le}

-- What holds of a controller between reports. The limits are those of `mezon_audio_create`.
pub record IsValid (c : Controller) : Type 0 where
  pub floor : 16000 ≤ c.min_bitrate
  pub above_min : c.min_bitrate ≤ c.current_bitrate
  pub below_max : c.current_bitrate ≤ c.max_bitrate
  pub ceiling : c.max_bitrate ≤ 48000
  pub loss_capped : c.loss_percent ≤ 20
  pub few_clean : c.clean_reports < 3

-- A controller set up with limits in order starts within them.
pub init-IsValid :
    (minimum initial maximum : ℕ)
    → 16000 ≤ minimum
    → minimum ≤ initial
    → initial ≤ maximum
    → maximum ≤ 48000
    → IsValid (init minimum initial maximum)
unfolding init
init-IsValid minimum initial maximum h1 h2 h3 h4 = omega arith

clamp_round-bounds :
    (value minimum maximum : ℕ)
    → minimum ≤ maximum
    → (minimum ≤ clamp_round value minimum maximum) × (clamp_round value minimum maximum ≤ maximum)
unfolding clamp_round
clamp_round-bounds value minimum maximum h = ground arith

aim-clean : (c : Controller) (loss expected : ℕ) → c.clean_reports < 3 → (aim c loss expected).0 < 3
unfolding aim
aim-clean c loss expected h = ground arith

-- Every report to a valid controller, void or not, whatever its two counts: the bitrate stays between the limits, the
-- smoothed loss at most 20 percent, and the count of clean reports below 3.
pub update-IsValid :
    {c : Controller} (expected received : ℕ) → IsValid c → IsValid (update c expected received).0
unfolding update adjust
update-IsValid {c} expected received v = ground (
  arith,
  loss_of-le expected received,
  aim-clean c (loss_of expected received) expected,
  clamp_round-bounds (aim c (loss_of expected received) expected).1 c.min_bitrate c.max_bitrate,
)
