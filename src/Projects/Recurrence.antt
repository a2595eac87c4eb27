-- ===== src/Projects/Recurrence.antt =====
-- packages/modules/projects/application/recurrence.ts: the work that comes round again. A client's
-- cycles are those of tax-period.ts.
pub mod Sweep
pub mod Tests
use amc_system.Base.{
  ℕ, zero, suc, ◌+◌, ◌-◌, ◌*◌, Bool, true, false, not, ◌&&◌, ◌||◌, Option, none, some, List, [],
  ◌∷◌, ◌++◌, length, take, drop, is_some, leb, ltb, ◌==◌, if◌then◌else◌,
}
use amc_system.Base.Int.{ℤ, pos, ◌+ℤ◌, ◌-ℤ◌, ltb_ℤ, leb_ℤ}
use amc_system.Base.Text.{Text, text, eq_text}
use amc_system.Base.Digits.{is_digit, value}
use amc_system.Base.Date.{Civil, civil_of, day_of, utc, ms_per_day}
use amc_system.Kernel.Duration.{Instant}
use amc_system.Clients.TaxPeriod.{
  YearMonth, Period, ClientCycle, year_month_of, year_text, two_digits,
}
use amc_system.Projects.Template.{Recurrence, once, monthly, per_vat_period, per_financial_year}

pub record Due : Type 0 where
  pub key : Text
  pub due_at : Instant

-- `getUTCDate`
abbrev pub date_of : Instant → ℕ
date_of t = (civil_of (day_of t)).day

-- `getUTCMonth`, which counts from 0, and so many months on.
abbrev pub month_of : Instant → ℕ → ℤ
month_of t more = pos (year_month_of t).month +ℤ pos more -ℤ pos 1

abbrev pub year_of : Instant → ℤ
year_of t = (year_month_of t).year

-- `vatReturnDueDate`
unfoldable pub vat_return_due_date : Instant → Instant
vat_return_due_date period_end = utc (year_of period_end) (month_of period_end 1) (pos 28)

-- `corporateTaxDueDate`
unfoldable pub corporate_tax_due_date : Instant → Instant
corporate_tax_due_date year_end =
    let last_day = date_of (utc (year_of year_end) (month_of year_end 10) (pos 0)) in
    let day = date_of year_end in
    utc (year_of year_end) (month_of year_end 9) (pos (if leb day last_day then day else last_day))

abbrev pub month_key : Instant → Text
month_key t = year_text (year_of t) ++ text "-" ++ two_digits (year_month_of t).month

abbrev month_closed : Instant → Due
month_closed now = record {
  key = month_key (utc (year_of now) (month_of now 0 -ℤ pos 1) (pos 1));
  due_at = utc (year_of now) (month_of now 0) (pos 20);
}

abbrev vat_due : Instant → Option Period → Option Due
vat_due now none = none
vat_due now (some closed) =
    if leb_ℤ now closed.end
    then none
    else some (record { key = closed.key; due_at = vat_return_due_date closed.end })

abbrev vat_closed : (Instant → Option Period) → Instant → Option Period → Option Due
vat_closed period_for now none = none
vat_closed period_for now (some running) =
    vat_due now (period_for (running.start -ℤ pos ms_per_day))

-- The day of the year before, on which the last financial year is taken to have closed.
abbrev pub year_before : Instant → Instant
year_before running_end =
    utc (year_of running_end -ℤ pos 1) (month_of running_end 0) (pos (date_of running_end))

abbrev year_closed : Option (Instant → Instant) → Option (Instant → Text) → Instant → Option Due
year_closed none key_for now = none
year_closed (some end_for) none now = none
year_closed (some end_for) (some key_for) now =
    let closed = year_before (end_for now) in
    if leb_ℤ now closed
    then none
    else some (record { key = key_for closed; due_at = corporate_tax_due_date closed })

-- `periodFor`
unfoldable pub period_for : Recurrence → Option ClientCycle → Instant → Option Due
period_for once cycle now = none
period_for monthly cycle now = some (month_closed now)
period_for per_vat_period none now = none
period_for per_vat_period (some cycle) now = elim cycle.vat_period_for [
  | none ↦ none
  | some f ↦ vat_closed f now (f now)
]
period_for per_financial_year none now = none
period_for per_financial_year (some cycle) now =
    year_closed cycle.financial_year_end_for cycle.financial_year_key_for now

-- `/^(\d{4})-(\d{2})$/`
abbrev is_month_key : Text → Bool
is_month_key (a ∷ b ∷ c ∷ d ∷ dash ∷ e ∷ f ∷ []) =
    is_digit a
    && (is_digit b && (is_digit c && (is_digit d && (dash == 45 && (is_digit e && is_digit f)))))
is_month_key _ = false

abbrev month_after : Instant → Due
month_after next = record {
  key = month_key next;
  due_at = utc (year_of next) (month_of next 1) (pos 20);
}

-- The loop that steps back until the key matches.
unfoldable pub find_period : ℕ → (Instant → Option Period) → Text → Instant → Option Period
find_period zero f key from = none
find_period (suc steps) f key from = elim (f from) [
  | none ↦ none
  | some p ↦
      if eq_text p.key key then some p else find_period steps f key (p.start -ℤ pos ms_per_day)
]

abbrev vat_next : Option Period → Option Due
vat_next none = none
vat_next (some next) = some (record { key = next.key; due_at = vat_return_due_date next.end })

abbrev vat_after : (Instant → Option Period) → Option Period → Option Due
vat_after f none = none
vat_after f (some found) = vat_next (f (found.end +ℤ pos ms_per_day))

-- The first of the month of a year's end, so many years on or back.
abbrev first_of_month : Instant → ℤ → Instant
first_of_month end years = utc (year_of end +ℤ years) (month_of end 0) (pos 1)

unfoldable pub find_year :
    ℕ → (Instant → Instant) → (Instant → Text) → Text → Instant → Option Instant
find_year zero end_for key_for key end = none
find_year (suc steps) end_for key_for key end =
    let earlier =
      find_year steps end_for key_for key
        (end_for (utc (year_of end -ℤ pos 1) (month_of end 0) (pos 1))) in
    if eq_text (key_for end) key then some end else earlier

abbrev year_after : (Instant → Instant) → (Instant → Text) → Option Instant → Option Due
year_after end_for key_for none = none
year_after end_for key_for (some found) =
    let next = end_for (first_of_month found (pos 1)) in
    some (record { key = key_for next; due_at = corporate_tax_due_date next })

abbrev year_next :
    Option (Instant → Instant) → Option (Instant → Text) → Text → Instant → Option Due
year_next none key_for key now = none
year_next (some end_for) none key now = none
year_next (some end_for) (some key_for) key now =
    year_after end_for key_for (find_year 40 end_for key_for key (end_for now))

-- `nextPeriod`
unfoldable pub next_period : Recurrence → Text → Option ClientCycle → Instant → Option Due
next_period once key cycle now = none
next_period monthly key cycle now =
    if is_month_key key
    then some (month_after (utc (pos (value (take 4 key))) (pos (value (drop 5 key))) (pos 1)))
    else none
next_period per_vat_period key none now = none
next_period per_vat_period key (some cycle) now = elim cycle.vat_period_for [
  | none ↦ none
  | some f ↦ vat_after f (find_period 80 f key now)
]
next_period per_financial_year key none now = none
next_period per_financial_year key (some cycle) now =
    year_next cycle.financial_year_end_for cycle.financial_year_key_for key now
