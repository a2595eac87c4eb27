-- ===== src/Clients/TaxPeriod/Search.antt =====
-- The search for the end of a VAT period (tax-period.ts) ends, and finds the period of the date.
use amc_system.Base.{ℕ, ◌≤◌, ◌<◌, ◌≡◌, refl, true, false, some}
use amc_system.Base.Int.{pos, ◌+ℤ◌, ◌-ℤ◌, ◌≤ℤ◌, ◌<ℤ◌}
use amc_system.Base.Date.{utc, ms_per_day}
use amc_system.Kernel.Duration.{Instant}
use amc_system.Clients.TaxPeriod.{
  VatPeriods, ends_in_month, key_of, period_length, period_containing, year_month_of,
}
use amc_system.Clients.TaxPeriod.Rounds.{
  months_on, end_month_from-ends, year_month_of-month, month_number-months_on,
}
use amc_system.Clients.TaxPeriod.Within.{date_within}

-- For every client whose periods end in a month of the year, and every date, the search for its period
-- ends within the twelve rounds. The period ends on the last day of the first month from the date's own
-- on in which one ends, and begins on the first day of the month that makes it as long as a period is.
-- It holds the date: the date is not before the midnight at which the period begins, and is before the
-- end of the day on whose midnight it ends.
pub period_containing-returns :
    (p : VatPeriods) (date : Instant)
    → 1 ≤ p.anchor_end_month
    → p.anchor_end_month ≤ 12
    → let m = year_month_of date in
      let length = period_length p.frequency in
      (k : ℕ) × (let last = months_on k m in
        let start = utc last.year (pos last.month -ℤ pos length) (pos 1) in
        let end = utc last.year (pos last.month) (pos 0) in
        (k < length)
        × (period_containing p date
            ≡ some (record { start = start; end = end; key = key_of p.frequency last }))
        × (ends_in_month p last.month ≡ true)
        × ((j : ℕ) → j < k → ends_in_month p (months_on j m).month ≡ false)
        × (start ≤ℤ date)
        × (date <ℤ end +ℤ pos ms_per_day))
unfolding period_containing
period_containing-returns p date a a' =
    let (b, b') = year_month_of-month date in
    let (k, near, found, ends, first) = end_month_from-ends p (year_month_of date) a a' b b' in
    let (starts, before) =
      date_within date (months_on k (year_month_of date)) k (period_length p.frequency) near
        (month_number-months_on k (year_month_of date) b') in
    (k, (near, rw found refl, ends, first, starts, before))
