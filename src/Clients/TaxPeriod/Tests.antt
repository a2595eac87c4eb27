-- ===== src/Clients/TaxPeriod/Tests.antt =====
-- Tax periods at concrete dates.
use amc_system.Base.{ℕ, ◌<◌, ◌≡◌, refl, true, false, some, arith}
use amc_system.Base.Int.{pos, ◌≤ℤ◌, ◌<ℤ◌, ◌+ℤ◌, ◌-ℤ◌, ◌*ℤ◌}
use amc_system.Base.Text.{text}
use amc_system.Base.Digits.{decimal}
use amc_system.Base.Date.{utc, ms_per_day, civil_of, day_of_civil}
use amc_system.Clients.TaxPeriod.{
  VatPeriods, quarterly, FinancialYear, period_containing, key_of, ends_in_month, insert_month,
  end_month_from, year_month_of, year_end_for, key_for,
}
use amc_system.Clients.TaxPeriod.Rounds.{months_on}
use amc_system.Clients.TaxPeriod.Search.{period_containing-returns}

-- A quarter from August to October.
abbrev staggered : VatPeriods
staggered = record { frequency = quarterly; anchor_end_month = 1 }

december :
    period_containing staggered (utc (pos 2_025) (pos 11) (pos 15))
    ≡ some (record {
      start = utc (pos 2_025) (pos 10) (pos 1);
      end = utc (pos 2_026) (pos 0) (pos 31);
      key = text "2026-Q1-01";
    })
unfolding period_containing end_month_from ends_in_month insert_month utc civil_of day_of_civil
    decimal ◌+ℤ◌ ◌-ℤ◌ ◌*ℤ◌
december = refl

period_containing-returns_example :
    let m = year_month_of (pos 0) in
    (k : ℕ) × (let last = months_on k m in
      let start = utc last.year (pos last.month -ℤ pos 3) (pos 1) in
      let end = utc last.year (pos last.month) (pos 0) in
      (k < 3)
      × (period_containing staggered (pos 0)
          ≡ some (record { start = start; end = end; key = key_of quarterly last }))
      × (ends_in_month staggered last.month ≡ true)
      × ((j : ℕ) → j < k → ends_in_month staggered (months_on j m).month ≡ false)
      × (start ≤ℤ pos 0)
      × (pos 0 <ℤ end +ℤ pos ms_per_day))
period_containing-returns_example =
    period_containing-returns staggered (pos 0) (omega arith) (omega arith)

abbrev calendar_year : FinancialYear
calendar_year = record { end_month = 12 }

-- From its first second on, the last day of a year counts to the next year.
last_day :
    (key_for calendar_year (utc (pos 2_025) (pos 11) (pos 31)) ≡ text "FY2025")
    × (key_for calendar_year (utc (pos 2_025) (pos 11) (pos 31) +ℤ pos 1_000) ≡ text "FY2026")
unfolding key_for year_end_for utc civil_of day_of_civil decimal ◌+ℤ◌ ◌-ℤ◌ ◌*ℤ◌
last_day = (refl, refl)
