-- ===== src/Base/Date.antt =====
-- JavaScript's `Date` in UTC: the day, the weekday and the calendar date of an instant in milliseconds,
-- and `Date.UTC`. The calendar is the proleptic Gregorian one, by the count of days in eras of 400
-- years that begin on 1 March.
use Prim.Native.Nat.{ℕ, ◌+◌, ◌-◌, ◌*◌, ◌/◌, ◌%◌}
use amc_system.Base.Tests.{ltb, leb, if◌then◌else◌}
use amc_system.Base.Int.{ℤ, pos, negsuc, ◌+ℤ◌, ◌-ℤ◌, ◌*ℤ◌}

-- Division and remainder that go down, also below zero.
abbrev pub floor_div : ℤ → ℕ → ℤ
floor_div (pos n) d = pos (n / d)
floor_div (negsuc n) d = negsuc (n / d)

abbrev pub floor_mod : ℤ → ℕ → ℕ
floor_mod (pos n) d = n % d
floor_mod (negsuc n) d = d - 1 - n % d

abbrev pub ms_per_day : ℕ
ms_per_day = 86_400_000

-- Days since 1 January 1970.
abbrev pub day_of : ℤ → ℤ
day_of instant = floor_div instant ms_per_day

-- Midnight of a day.
abbrev pub midnight : ℤ → ℤ
midnight day = day *ℤ pos ms_per_day

-- `getUTCDay`: 0 is Sunday. 1 January 1970 was a Thursday.
abbrev pub weekday_of : ℤ → ℕ
weekday_of day = (floor_mod day 7 + 4) % 7

pub record Civil : Type 0 where
  pub year : ℤ
  -- 1 to 12
  pub month : ℕ
  pub day : ℕ

abbrev pub of_era : ℤ → ℕ → Civil
of_era era doe =
    let yoe = (doe - doe / 1460 + doe / 36524 - doe / 146096) / 365 in
    let doy = doe - (365 * yoe + yoe / 4 - yoe / 100) in
    let mp = (5 * doy + 2) / 153 in
    let month = if ltb mp 10 then mp + 3 else mp - 9 in
    let year = pos yoe +ℤ era *ℤ pos 400 in
    record {
      year = if leb month 2 then year +ℤ pos 1 else year;
      month = month;
      day = doy - (153 * mp + 2) / 5 + 1;
    }

-- The calendar date of a day.
unfoldable pub civil_of : ℤ → Civil
civil_of day = let z = day +ℤ pos 719_468 in of_era (floor_div z 146_097) (floor_mod z 146_097)

abbrev days_in_era : ℤ → ℕ → ℕ → ℕ → ℤ
days_in_era era yoe mp day =
    era *ℤ pos 146_097
    +ℤ pos (yoe * 365 + yoe / 4 - yoe / 100 + (153 * mp + 2) / 5)
    +ℤ pos day
    -ℤ pos 719_469

-- The day of a calendar date.
unfoldable pub day_of_civil : Civil → ℤ
day_of_civil c =
    let y = if leb c.month 2 then c.year -ℤ pos 1 else c.year in
    let mp = if leb c.month 2 then c.month + 9 else c.month - 3 in
    days_in_era (floor_div y 400) (floor_mod y 400) mp c.day

-- `Date.UTC(year, month, day)`: months count from 0 and may run over the year; days may be 0.
unfoldable pub utc : ℤ → ℤ → ℤ → ℤ
utc year month day =
    let first =
      day_of_civil
        (record { year = year +ℤ floor_div month 12; month = floor_mod month 12 + 1; day = 1 }) in
    midnight (first +ℤ day -ℤ pos 1)
