-- ===== src/Deadlines/Calendar.antt =====
-- packages/modules/deadlines/domain/business-calendar.ts: the days on which the authority is open. A
-- calendar date is the number of its day, so that two dates are one text where they are one day.
pub mod Open
pub mod Enough
use amc_system.Base.{
  ℕ, zero, suc, ◌+◌, ◌*◌, Bool, true, false, not, ◌&&◌, ◌||◌, Option, none, some, List, [], ◌∷◌,
  is_some, ◌==◌, if◌then◌else◌,
}
use amc_system.Base.Int.{ℤ, pos, ◌+ℤ◌, ◌-ℤ◌, eqb_ℤ, ltb_ℤ}
use amc_system.Base.Text.{Text}
use amc_system.Base.Date.{ms_per_day, day_of, weekday_of}
use amc_system.Kernel.Duration.{Instant}
use amc_system.Kernel.Throws.{Throws, done, threw, no_business_day}

pub record Holiday : Type 0 where
  pub date : ℤ
  pub name_en : Text
  pub name_ar : Text

-- `new Map(holidays.map(…)).get(day)`: of two on one date the later one stands.
unfoldable pub get_last : ℤ → List Holiday → Option Holiday
get_last day [] = none
get_last day (holiday ∷ holidays) =
    let later = get_last day holidays in
    if is_some later then later else if eqb_ℤ holiday.date day then some holiday else none

-- `WEEKEND_DAYS.includes(weekday)`
abbrev pub is_weekend_day : ℕ → Bool
is_weekend_day weekday = weekday == 6 || weekday == 0

-- `isWeekend`
abbrev pub is_weekend : Instant → Bool
is_weekend date = is_weekend_day (weekday_of (day_of date))

-- `holidayOn`
abbrev pub holiday_on : List Holiday → Instant → Option Holiday
holiday_on holidays date = get_last (day_of date) holidays

-- `isBusinessDay`
unfoldable pub is_business_day : List Holiday → Instant → Bool
is_business_day holidays date = not (is_weekend date) && not (is_some (holiday_on holidays date))

-- `setUTCDate(getUTCDate() + 1)` and its opposite.
abbrev pub day_after : Instant → Instant
day_after date = date +ℤ pos ms_per_day

abbrev pub day_before : Instant → Instant
day_before date = date -ℤ pos ms_per_day

-- The loop of `nextBusinessDay` and `previousBusinessDay`, with the attempts that are left.
unfoldable pub search : (Instant → Instant) → List Holiday → ℕ → Instant → Throws Instant
search move holidays zero candidate = threw no_business_day
search move holidays (suc attempts) candidate =
    let rest = search move holidays attempts (move candidate) in
    if is_business_day holidays candidate then done candidate else rest

-- `nextBusinessDay`
abbrev pub next_business_day : List Holiday → Instant → Throws Instant
next_business_day holidays date = search day_after holidays 30 date

-- `previousBusinessDay`
abbrev pub previous_business_day : List Holiday → Instant → Throws Instant
previous_business_day holidays date = search day_before holidays 30 date
