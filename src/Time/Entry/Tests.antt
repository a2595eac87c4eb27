-- ===== src/Time/Entry/Tests.antt =====
-- A time entry that a timer recorded, at concrete instants.
use amc_system.Base.{◌≡◌, refl, true, false, none, some, List, [], ◌∷◌, inl}
use amc_system.Base.Int.{pos, ◌-ℤ◌}
use amc_system.Base.Text.{text, non_blank}
use amc_system.Kernel.Result as Result
use amc_system.Kernel.Aggregate.{run_all}
use amc_system.Kernel.Duration.{try_between}
use amc_system.Time.Entry.State.{TimerParams, ReviewReason}
use amc_system.Time.Entry.{
  TimeEntry, Command, vouch, bill_or_not, correct, sign_off, put_on, take_off, execute, from_timer,
  timed_entry, awaits_review,
}
use amc_system.Time.Entry.Freezing.{
  frozen_on_statement, IsOrderly, recorded-IsOrderly, unconfirmed_is_billed,
}

abbrev timed : TimerParams
timed = record {
  id = text "e1";
  assignment_id = text "a1";
  started_at = pos 1_000;
  ended_at = pos 61_000;
  billable = none;
  note = none;
  review_reason = some ReviewReason.after_hours;
}

abbrev entry : TimeEntry
entry = timed_entry timed (record { seconds = pos 60 })

recorded_well : from_timer timed ≡ Result.ok entry
unfolding from_timer try_between non_blank ◌-ℤ◌
recorded_well = refl

abbrev calls : List Command
calls =
    vouch (text "u2") (pos 70_000)
    ∷ sign_off (text "u2") (pos 80_000)
    ∷ put_on (text "l1") (pos 90_000)
    ∷ correct (pos 0) (pos 1) (text "too late") (pos 95_000)
    ∷ take_off (text "u2") (pos 99_000)
    ∷ []

recorded-IsOrderly_example : IsOrderly (run_all execute calls entry).state
recorded-IsOrderly_example = recorded-IsOrderly calls entry (inl (timed, recorded_well))

abbrev locked : TimeEntry
locked = record entry {
  state = record entry.state {
    approved_at = some (pos 80_000);
    statement_line_id = some (text "l1");
  };
}

frozen_on_statement_example :
    run_all execute
      (bill_or_not false (pos 96_000) ∷ correct (pos 0) (pos 1) (text "too late") (pos 97_000) ∷ [])
      locked
    ≡ locked
frozen_on_statement_example =
    frozen_on_statement
      (bill_or_not false (pos 96_000) ∷ correct (pos 0) (pos 1) (text "too late") (pos 97_000) ∷ [])
      locked (refl, (refl, tt)) refl

unconfirmed_is_billed_example :
    let a =
      run_all execute
        (sign_off (text "u2") (pos 80_000) ∷ put_on (text "l1") (pos 90_000) ∷ [])
        entry in
    (a.state.statement_line_id ≡ some (text "l1")) × (awaits_review a.state ≡ true)
unconfirmed_is_billed_example =
    unconfirmed_is_billed (text "u2") (text "l1") (pos 80_000) (pos 90_000) entry refl refl refl
