-- ===== src/Bitrate/Steps.antt =====
-- How one report moves the bitrate of src/audio/bitrate_controller.c.
use libmezia.Prelude.{
  ℕ, ◌+◌, ◌*◌, ◌%◌, ◌≤◌, ◌<◌, ◌≡◌, arith, true, leb, ◌==◌, min, ◌&&◌, if◌then◌else◌,
}
use libmezia.Bitrate.{Controller, clamp_round, loss_of, aim, adjust, update}
use libmezia.Bitrate.Range.{IsValid}

-- On a valid controller, a report with at least 2 percent lost does not raise the bitrate, keeps three quarters of it less
-- 501, and starts the count of clean reports anew.
pub update-lossy :
    (c : Controller) (expected received : ℕ)
    → IsValid c
    → 1 ≤ expected
    → received ≤ expected
    → 2 ≤ loss_of expected received
    → let c' = (update c expected received).0 in
      (c'.current_bitrate ≤ c.current_bitrate)
      × (c.current_bitrate * 3 ≤ c'.current_bitrate * 4 + 2004)
      × (c'.clean_reports ≡ 0)
unfolding update adjust aim clamp_round
update-lossy c expected received v pos le lossy = ground arith

-- On a valid controller with a bitrate in whole thousands, a report with less than 2 percent lost leaves the bitrate
-- alone, unless it covers 20 packets and two clean reports went before it: then it adds 2000, or
-- what is left to the limit.
pub update-clean :
    (c : Controller) (expected received : ℕ)
    → IsValid c
    → c.current_bitrate % 1000 ≡ 0
    → 1 ≤ expected
    → received ≤ expected
    → loss_of expected received < 2
    → (update c expected received).0.current_bitrate ≡ (
        if leb 20 expected && c.clean_reports == 2
        then min (c.current_bitrate + 2000) c.max_bitrate
        else c.current_bitrate)
unfolding update adjust aim clamp_round
update-clean c expected received v whole pos le clean = ground arith

-- On a valid controller, a bitrate that rounds up to a higher thousand within the limit is raised by
-- the first clean report already.
pub update_rounds_up :
    (c : Controller) (expected received : ℕ)
    → IsValid c
    → c.clean_reports ≡ 0
    → 500 ≤ c.current_bitrate % 1000
    → c.current_bitrate + 500 ≤ c.max_bitrate
    → 1 ≤ expected
    → received ≤ expected
    → loss_of expected received < 2
    → (update c expected received).1.increased ≡ true
unfolding update adjust aim clamp_round
update_rounds_up c expected received v first half room pos le clean = ground arith
