-- ===== src/Deadlines/Tests.antt =====
-- Deadlines at concrete dates.
use amc_system.Base.{ℕ, ◌≡◌, refl, List, [], ◌∷◌, some, none, arith}
use amc_system.Base.Int.{ℤ, pos, ◌+ℤ◌, ◌-ℤ◌, ◌*ℤ◌}
use amc_system.Base.Text.{text}
use amc_system.Base.Date.{civil_of, day_of_civil, utc, midnight}
use amc_system.Kernel.Duration.{Instant}
use amc_system.Kernel.Throws.{done}
use amc_system.Deadlines.Calendar.{Holiday, get_last, is_business_day, search, day_after}
use amc_system.Deadlines.Calendar.Open.{IsNearest}
use amc_system.Deadlines.Deadline.{
  ComputedDeadline, MovedBecause, apply_calendar, statutory_vat_return_date,
  statutory_corporate_tax_date, escalation_schedule, EscalationStage, ScheduledEscalation, insert,
  sort_by_day,
}
use amc_system.Deadlines.Deadline.Moved.{IsReason, apply_calendar-returns}

-- 28 February 2026 is a Saturday, and the Monday after it a holiday.
abbrev saturday : Instant
saturday = midnight (pos 20_512)

abbrev holidays : List Holiday
holidays = record { date = pos 20_514; name_en = text "Holiday"; name_ar = text "-" } ∷ []

to_tuesday :
    apply_calendar saturday holidays
    ≡ done (record {
      statutory = saturday;
      effective = midnight (pos 20_515);
      moved_because = some MovedBecause.weekend;
    })
unfolding apply_calendar search is_business_day get_last ◌+ℤ◌ ◌*ℤ◌
to_tuesday = refl

-- The return for January 2026 is due on 28 February, and the tax for a year to May on the last of February.
vat_due : statutory_vat_return_date (midnight (pos 20_484)) ≡ saturday
unfolding statutory_vat_return_date ◌*ℤ◌ utc ◌-ℤ◌ ◌+ℤ◌ day_of_civil civil_of
vat_due = refl

tax_due : statutory_corporate_tax_date (midnight (pos 20_239)) ≡ saturday
unfolding statutory_corporate_tax_date ◌*ℤ◌ utc ◌-ℤ◌ ◌+ℤ◌ day_of_civil civil_of
tax_due = refl

apply_calendar-returns_example :
    (c : ComputedDeadline) × (k : ℕ) × (apply_calendar saturday holidays ≡ done c)
    × (c.statutory ≡ saturday)
    × IsNearest day_after holidays 30 saturday c.effective k
    × IsReason holidays saturday k c.moved_because
apply_calendar-returns_example = apply_calendar-returns saturday holidays (omega arith)

abbrev warning : EscalationStage → ℤ → ScheduledEscalation
warning stage day = record { stage = stage; due_on = midnight day }

-- A deadline in ten days: the manager hears of it before the client is chased.
warned_in_order :
    escalation_schedule (midnight (pos 20_000)) (some (midnight (pos 20_010))) none
    ≡ warning EscalationStage.manager_alert (pos 20_005)
      ∷ warning EscalationStage.client_reminder (pos 20_007)
      ∷ warning EscalationStage.accountant_alert (pos 20_014)
      ∷ []
unfolding escalation_schedule insert sort_by_day ◌+ℤ◌ ◌*ℤ◌ ◌-ℤ◌
warned_in_order = refl
