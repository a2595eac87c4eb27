-- ===== src/Deadlines/Deadline.antt =====
-- packages/modules/deadlines/domain/deadline.ts: when a return is due, and when to warn of it.
pub mod Moved
use amc_system.Base.{
  ℕ, ◌+◌, ◌-◌, Bool, true, false, Option, none, some, List, [], ◌∷◌, ◌++◌, is_some, leb, get_or,
  if◌then◌else◌,
}
use amc_system.Base.Int.{ℤ, pos, ◌+ℤ◌, ◌-ℤ◌, ◌*ℤ◌, ltb_ℤ, leb_ℤ}
use amc_system.Base.Date.{ms_per_day, day_of, civil_of, Civil, utc}
use amc_system.Kernel.Duration.{Instant}
use amc_system.Kernel.Throws.{Throws, done, threw, ◌>>=◌}
use amc_system.Deadlines.Calendar.{Holiday, is_business_day, holiday_on, next_business_day}

-- `statutoryVatReturnDate`
unfoldable pub statutory_vat_return_date : Instant → Instant
statutory_vat_return_date period_end =
    let c = civil_of (day_of period_end) in utc c.year (pos c.month) (pos 28)

abbrev smaller : ℕ → ℕ → ℕ
smaller a b = if leb a b then a else b

-- `statutoryCorporateTaxDate`
unfoldable pub statutory_corporate_tax_date : Instant → Instant
statutory_corporate_tax_date year_end =
    let c = civil_of (day_of year_end) in
    let month = c.month + 8 in
    let last = (civil_of (day_of (utc c.year (pos (month + 1)) (pos 0)))).day in
    utc c.year (pos month) (pos (smaller c.day last))

pub data MovedBecause : Type 0 where
  weekend holiday : MovedBecause

pub record ComputedDeadline : Type 0 where
  pub statutory : Instant
  pub effective : Instant
  pub moved_because : Option MovedBecause

-- `applyCalendar`
unfoldable pub apply_calendar : Instant → List Holiday → Throws ComputedDeadline
apply_calendar statutory holidays =
    let reason =
      if is_some (holiday_on holidays statutory)
      then MovedBecause.holiday
      else MovedBecause.weekend in
    if is_business_day holidays statutory
    then done (record { statutory = statutory; effective = statutory; moved_because = none })
    else next_business_day holidays statutory >>= λ day.
        done (record { statutory = statutory; effective = day; moved_because = some reason })

pub record EscalationPolicy : Type 0 where
  pub remind_client_after_days : ℤ
  pub alert_accountant_after_days : ℤ
  pub alert_manager_days_before : ℤ

-- `DEFAULT_ESCALATION`
abbrev pub default_escalation : EscalationPolicy
default_escalation = record {
  remind_client_after_days = pos 7;
  alert_accountant_after_days = pos 14;
  alert_manager_days_before = pos 5;
}

pub data EscalationStage : Type 0 where
  client_reminder accountant_alert manager_alert : EscalationStage

pub record ScheduledEscalation : Type 0 where
  pub stage : EscalationStage
  pub due_on : Instant

-- `sort` by the day, which keeps the order of two on one day.
unfoldable pub insert : ScheduledEscalation → List ScheduledEscalation → List ScheduledEscalation
insert e [] = e ∷ []
insert e (f ∷ es) =
    let rest = insert e es in if leb_ℤ e.due_on f.due_on then e ∷ f ∷ es else f ∷ rest

unfoldable pub sort_by_day : List ScheduledEscalation → List ScheduledEscalation
sort_by_day [] = []
sort_by_day (e ∷ es) = insert e (sort_by_day es)

abbrev add_days : Instant → ℤ → Instant
add_days from days = from +ℤ days *ℤ pos ms_per_day

abbrev pub manager_alerts : EscalationPolicy → Instant → Option Instant → List ScheduledEscalation
manager_alerts policy requested_on none = []
manager_alerts policy requested_on (some deadline) =
    let alert = add_days deadline (pos 0 -ℤ policy.alert_manager_days_before) in
    if ltb_ℤ requested_on alert
    then record { stage = EscalationStage.manager_alert; due_on = alert } ∷ []
    else []

-- `escalationSchedule`
unfoldable pub escalation_schedule :
    Instant → Option Instant → Option EscalationPolicy → List ScheduledEscalation
escalation_schedule requested_on deadline given =
    let policy = get_or given default_escalation in
    sort_by_day (
      record {
        stage = EscalationStage.client_reminder;
        due_on = add_days requested_on policy.remind_client_after_days;
      }
      ∷ record {
        stage = EscalationStage.accountant_alert;
        due_on = add_days requested_on policy.alert_accountant_after_days;
      }
      ∷ manager_alerts policy requested_on deadline)
