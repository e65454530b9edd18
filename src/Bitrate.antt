-- ===== src/Bitrate.antt =====
-- src/audio/bitrate_controller.c: the loss-driven bitrate of the sender.
pub mod Loss
pub mod Range
pub mod Steps
use libmezia.Prelude.{
  ℕ, ◌+◌, ◌-◌, ◌*◌, ◌/◌, Option, none, some, Bool, true, false, ◌||◌, ltb, leb, ◌==◌, if◌then◌else◌,
  u8, u32, sub32,
}
use libmezia.Types.{opus_expected_loss_percent}

-- `mezon_bitrate_controller_t`
pub record Controller : Type 0 where
  pub min_bitrate : ℕ
  pub max_bitrate : ℕ
  pub current_bitrate : ℕ
  pub loss_percent : ℕ
  pub clean_reports : ℕ

-- `mezon_bitrate_decision_t`
pub record Decision : Type 0 where
  pub bitrate : ℕ
  pub loss_percent : ℕ
  pub increased : Bool
  pub decreased : Bool

-- `clamp_round`: to the nearest thousand, then into the range.
unfoldable pub clamp_round : ℕ → ℕ → ℕ → ℕ
clamp_round value minimum maximum =
    let rounded = u32 (u32 (value + 500) / 1000 * 1000) in
    if ltb rounded minimum then minimum else if ltb maximum rounded then maximum else rounded

-- `mezon_bitrate_controller_init`
unfoldable pub init : ℕ → ℕ → ℕ → Controller
init minimum initial maximum = record {
  min_bitrate = minimum;
  max_bitrate = maximum;
  current_bitrate = initial;
  loss_percent = opus_expected_loss_percent;
  clean_reports = 0;
}

-- The percentage lost, rounded up, as uint32 arithmetic computes it, and capped at 20.
unfoldable pub loss_of : ℕ → ℕ → ℕ
loss_of expected received =
    let loss = sub32 (u32 (u32 (sub32 expected received * 100) + expected)) 1 / expected in
    if ltb 20 loss then 20 else loss

-- The counter of clean reports, and the target before rounding, on a report of this loss.
unfoldable pub aim : Controller → ℕ → ℕ → ℕ × ℕ
aim c loss expected =
    if leb 10 loss
    then (0, u32 (c.current_bitrate * 75) / 100)
    else if leb 5 loss
    then (0, u32 (c.current_bitrate * 85) / 100)
    else if leb 2 loss
    then (0, u32 (c.current_bitrate * 95) / 100)
    else if leb 20 expected
    then (if leb 3 (u8 (c.clean_reports + 1))
        then (0, u32 (c.current_bitrate + 2000))
        else (u8 (c.clean_reports + 1), c.current_bitrate))
    else (c.clean_reports, c.current_bitrate)

abbrev pub unchanged : Controller → Decision
unchanged c = record {
  bitrate = c.current_bitrate;
  loss_percent = c.loss_percent;
  increased = false;
  decreased = false;
}

-- The update on a report that is not void.
unfoldable pub adjust : Controller → ℕ → ℕ → Controller × Decision
adjust c expected received =
    let loss = loss_of expected received in
    let smoothed = u8 ((c.loss_percent * 3 + loss + 2) / 4) in
    let (clean, raw) = aim c loss expected in
    let target = clamp_round raw c.min_bitrate c.max_bitrate in
    (
      record c { current_bitrate = target; loss_percent = smoothed; clean_reports = clean },
      record {
        bitrate = target;
        loss_percent = smoothed;
        increased = ltb c.current_bitrate target;
        decreased = ltb target c.current_bitrate;
      },
    )

-- `mezon_bitrate_controller_update` on a controller that is not null.
unfoldable pub update : Controller → ℕ → ℕ → Controller × Decision
update c expected received =
    if expected == 0 || ltb expected received then (c, unchanged c) else adjust c expected received
