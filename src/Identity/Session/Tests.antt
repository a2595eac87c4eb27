-- ===== src/Identity/Session/Tests.antt =====
-- A session of thirty idle minutes and twelve hours, at concrete instants.
use amc_system.Base.{◌≡◌, refl, true, false, none, List, [], ◌∷◌}
use amc_system.Base.Int.{pos, ◌+ℤ◌, ◌*ℤ◌, ◌<ℤ◌}
use amc_system.Base.Text.{text}
use amc_system.Kernel.Aggregate.{run_all}
use amc_system.Identity.Session.{
  Session, StartParams, Command, pass_at, touch_at, execute, start, absolute_end, touch,
  is_valid_at, idle_expires_at, pass_two_factor,
}
use amc_system.Identity.Session.Expiry.{valid_within_limits}

abbrev params : StartParams
params = record {
  id = text "s";
  user_id = text "u1";
  now = pos 1_000;
  limits = record { idle_minutes = pos 30; absolute_hours = pos 12 };
  ip_address = none;
  user_agent = none;
  two_factor_passed = false;
}

abbrev calls : List Command
calls = pass_at (pos 60_000) ∷ touch_at (pos 1_000_000) ∷ []

abbrev used : Session
used = run_all execute calls (start params)

still_valid_then : is_valid_at used.state (pos 2_000_000) ≡ true
unfolding is_valid_at run_all execute pass_two_factor touch ◌+ℤ◌ ◌*ℤ◌
still_valid_then = refl

valid_within_limits_example :
    (pos 2_000_000 <ℤ absolute_end params) × (pos 2_000_000 <ℤ idle_expires_at used.state)
valid_within_limits_example = valid_within_limits params calls (pos 2_000_000) still_valid_then
