-- ===== src/Time/WorkingHours.antt =====
-- packages/modules/time-tracking/domain/working-hours.ts: when somebody is expected to be working.
-- A day's own hours are an association list, by the day; days are whole numbers.
pub mod Unquestioned
pub mod Tests
use amc_system.Base.{
  ℕ, ◌/◌, Bool, true, false, not, ◌&&◌, ◌||◌, Option, none, some, List, [], ◌∷◌, any, length, ltb,
  ◌==◌, if◌then◌else◌,
}
use amc_system.Base.Int.{ℤ, pos, ◌+ℤ◌, ltb_ℤ, leb_ℤ, eqb_ℤ}
use amc_system.Base.Text.{Text}
use amc_system.Base.Date.{ms_per_day, day_of, weekday_of, floor_mod}
use amc_system.Kernel.Result as Result
use amc_system.Kernel.Result.{Result}
use amc_system.Kernel.Duration.{Instant}

-- `DUBAI_OFFSET_MINUTES * 60_000`
abbrev pub dubai_offset : ℤ
dubai_offset = pos 14_400_000

pub record Hours : Type 0 where
  pub starts_at_minutes : ℤ
  pub ends_at_minutes : ℤ

pub record WorkingHours : Type 0 where
  pub user_id : Text
  pub hours : Hours
  pub working_days : List ℕ
  pub day_hours : List (ℕ × Hours)

pub data HoursConflict : Type 0 where
  ends_too_early outside_the_day no_days no_such_day : HoursConflict

-- `WorkingHours.default`
abbrev pub default_hours : Text → WorkingHours
default_hours user_id = record {
  user_id = user_id;
  hours = record { starts_at_minutes = pos 540; ends_at_minutes = pos 1_080 };
  working_days = 1 ∷ 2 ∷ 3 ∷ 4 ∷ 5 ∷ [];
  day_hours = [];
}

abbrev pub has_day : ℕ → List ℕ → Bool
has_day day days = any (λ d. d == day) days

-- `[...new Set(days)].sort()`: each day once, in order.
unfoldable pub insert_day : ℕ → List ℕ → List ℕ
insert_day day [] = day ∷ []
insert_day day (d ∷ days) =
    let rest = insert_day day days in
    if day == d then d ∷ days else if ltb day d then day ∷ d ∷ days else d ∷ rest

unfoldable pub distinct_days : List ℕ → List ℕ
distinct_days [] = []
distinct_days (day ∷ days) = insert_day day (distinct_days days)

-- The guards that hours pass.
abbrev pub refused_hours : Hours → Option HoursConflict
refused_hours h =
    if leb_ℤ h.ends_at_minutes h.starts_at_minutes
    then some ends_too_early
    else if ltb_ℤ h.starts_at_minutes (pos 0) || ltb_ℤ (pos 1_440) h.ends_at_minutes
    then some outside_the_day
    else none

abbrev one_more :
    Option HoursConflict
    → ℕ × Hours
    → Result HoursConflict (List (ℕ × Hours))
    → Result HoursConflict (List (ℕ × Hours))
one_more (some why) entry rest = Result.err why
one_more none entry (Result.err why) = Result.err why
one_more none entry (Result.ok entries) = Result.ok (entry ∷ entries)

-- The loop of `of` over the hours of single days: those of a day off mean nothing.
unfoldable pub day_hours_of : List ℕ → List (ℕ × Hours) → Result HoursConflict (List (ℕ × Hours))
day_hours_of days [] = Result.ok []
day_hours_of days ((day, h) ∷ entries) =
    let rest = day_hours_of days entries in
    if not (has_day day days) then rest else one_more (refused_hours h) (day, h) rest

abbrev with_day_hours :
    Text
    → Hours
    → List ℕ
    → Result HoursConflict (List (ℕ × Hours))
    → Result HoursConflict WorkingHours
with_day_hours user_id h days (Result.err why) = Result.err why
with_day_hours user_id h days (Result.ok entries) =
    Result.ok (record { user_id = user_id; hours = h; working_days = days; day_hours = entries })

abbrev refused_days : List ℕ → Option HoursConflict
refused_days days =
    if length days == 0
    then some no_days
    else if any (λ day. ltb day 1 || ltb 7 day) days
    then some no_such_day
    else none

-- `of`
unfoldable pub of : Text → Hours → List ℕ → List (ℕ × Hours) → Result HoursConflict WorkingHours
of user_id h working_days day_hours =
    let days = distinct_days working_days in
    elim (refused_hours h) [
      | some why ↦ Result.err why
      | none ↦ elim (refused_days days) [
        | some why ↦ Result.err why
        | none ↦ with_day_hours user_id h days (day_hours_of days day_hours)
      ]
    ]

-- An instant on the clocks of Dubai.
abbrev pub local : Instant → ℤ
local instant = instant +ℤ dubai_offset

-- `getUTCDay() === 0 ? 7 : getUTCDay()`
abbrev iso_weekday : ℕ → ℕ
iso_weekday weekday = if weekday == 0 then 7 else weekday

-- `getUTCHours() * 60 + getUTCMinutes()`
abbrev pub minutes_of : ℤ → ℕ
minutes_of time = floor_mod time ms_per_day / 60_000

-- `dayHours[weekday] ?? this.state`
unfoldable pub hours_on : ℕ → Hours → List (ℕ × Hours) → Hours
hours_on weekday given [] = given
hours_on weekday given ((day, h) ∷ entries) =
    let rest = hours_on weekday given entries in if day == weekday then h else rest

abbrev pub is_within : Hours → ℕ → Bool
is_within h minutes =
    leb_ℤ h.starts_at_minutes (pos minutes) && ltb_ℤ (pos minutes) h.ends_at_minutes

-- Whether so many minutes of a day of the week are worked.
unfoldable pub is_worked : WorkingHours → ℕ → ℕ → Bool
is_worked w weekday minutes =
    has_day weekday w.working_days && is_within (hours_on weekday w.hours w.day_hours) minutes

-- `covers`
abbrev pub covers : WorkingHours → Instant → Bool
covers w instant =
    is_worked w (iso_weekday (weekday_of (day_of (local instant)))) (minutes_of (local instant))

-- `questions`
unfoldable pub questions : WorkingHours → Instant → Instant → Bool
questions w started_at ended_at =
    if not (covers w started_at) || not (covers w ended_at)
    then true
    else not (eqb_ℤ (day_of (local started_at)) (day_of (local ended_at)))
