-- ===== src/Identity/User/Tests.antt =====
-- Sign-ins of a person, at concrete instants.
use amc_system.Base.{◌≡◌, refl, false, some, List, [], ◌∷◌}
use amc_system.Base.Int.{pos, ◌+ℤ◌}
use amc_system.Base.Text.{text}
use amc_system.Kernel.Result as Result
use amc_system.Kernel.Aggregate.{run_all}
use amc_system.Identity.Permission.{accountant}
use amc_system.Identity.User.{
  RegisterParams, registered_as, register, Command, fails_at, succeeds_at, is_named, execute,
  can_sign_in_at, too_many_attempts,
}
use amc_system.Identity.User.History.{
  failures_after, out_after, locked_by, refused_by, sign_in_follows_history,
}

abbrev person : RegisterParams
person = record {
  id = text "u1";
  email = text "a@amc.ae";
  display_name = text "Aisha";
  password_hash = text "hash";
  roles = accountant ∷ [];
  now = pos 0;
}

-- A success ends the first row of failures; the second one reaches five.
abbrev past : List Command
past =
    fails_at (pos 1)
    ∷ succeeds_at (pos 2)
    ∷ fails_at (pos 3)
    ∷ fails_at (pos 4)
    ∷ is_named (text "Aisha M") (pos 5)
    ∷ fails_at (pos 6)
    ∷ fails_at (pos 7)
    ∷ fails_at (pos 1_000)
    ∷ []

sign_in_follows_history_example :
    can_sign_in_at (run_all execute past (registered_as person)).state (pos 9_000)
    ≡ refused_by (out_after false past) (locked_by (failures_after [] past)) (pos 9_000)
unfolding register
sign_in_follows_history_example =
    sign_in_follows_history person (registered_as person) past (pos 9_000) refl

locked_then :
    refused_by (out_after false past) (locked_by (failures_after [] past)) (pos 9_000)
    ≡ Result.err (too_many_attempts (some (pos 901_000)))
unfolding ◌+ℤ◌
locked_then = refl

free_later :
    refused_by (out_after false past) (locked_by (failures_after [] past)) (pos 901_000)
    ≡ Result.ok tt
unfolding ◌+ℤ◌
free_later = refl
