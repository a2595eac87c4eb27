-- ===== src/Time/WorkingHours/Tests.antt =====
-- Working hours at concrete instants.
use amc_system.Base.{ℕ, ◌≡◌, refl, true, false, [], ◌∷◌, arith}
use amc_system.Base.Int.{pos, ◌+ℤ◌}
use amc_system.Base.Text.{text}
use amc_system.Kernel.Result as Result
use amc_system.Time.WorkingHours.{
  Hours, default_hours, of, distinct_days, insert_day, day_hours_of, ends_too_early, hours_on,
  is_worked, covers, questions,
}
use amc_system.Time.WorkingHours.Unquestioned.{unquestioned_is_worked}

-- Thursday, 1 January 1970, from ten to noon in Dubai.
let_pass : questions (default_hours (text "u1")) (pos 21_600_000) (pos 28_800_000) ≡ false
unfolding questions is_worked hours_on ◌+ℤ◌
let_pass = refl

unquestioned_is_worked_example : covers (default_hours (text "u1")) (pos 25_000_000) ≡ true
unquestioned_is_worked_example =
    unquestioned_is_worked (default_hours (text "u1")) (pos 21_600_000) (pos 28_800_000)
      (pos 25_000_000) let_pass (omega arith) (omega arith)

-- From ten on Thursday to ten on Friday.
overnight : questions (default_hours (text "u1")) (pos 21_600_000) (pos 108_000_000) ≡ true
unfolding questions is_worked hours_on ◌+ℤ◌
overnight = refl

abbrev hours : ℕ → ℕ → Hours
hours from to = record { starts_at_minutes = pos from; ends_at_minutes = pos to }

shorter_saturday :
    of (text "u1") (hours 540 1_080) (6 ∷ 1 ∷ 6 ∷ []) ((6, hours 540 780) ∷ (7, hours 9 8) ∷ [])
    ≡ Result.ok (record {
      user_id = text "u1";
      hours = hours 540 1_080;
      working_days = 1 ∷ 6 ∷ [];
      day_hours = (6, hours 540 780) ∷ [];
    })
unfolding of distinct_days insert_day day_hours_of
shorter_saturday = refl

wrong_saturday :
    of (text "u1") (hours 540 1_080) (6 ∷ []) ((6, hours 780 540) ∷ []) ≡ Result.err ends_too_early
unfolding of distinct_days insert_day day_hours_of
wrong_saturday = refl
