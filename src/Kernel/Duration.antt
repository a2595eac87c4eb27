-- ===== src/Kernel/Duration.antt =====
-- packages/kernel/src/duration.ts: lengths of time in whole seconds.
pub mod Between
use amc_system.Base.{
  ℕ, ◌+◌, ◌*◌, ◌/◌, ◌%◌, ◌≡◌, Bool, not, Option, none, some, List, [], ◌∷◌, if◌then◌else◌,
}
use amc_system.Base.Int.{ℤ, pos, nat_abs, ◌+ℤ◌, ◌-ℤ◌, ◌*ℤ◌, ltb_ℤ, eqb_ℤ}
use amc_system.Kernel.Result.{Result, ok, err}
use amc_system.Kernel.Throws.{
  Throws, done, threw, ◌>>=◌, ◌>>◌, throw_if, unsafe_seconds, not_a_span,
}
use amc_system.Kernel.Money.{Order, less, equal, greater, is_safe_integer}

-- `Date.getTime()`: milliseconds since 1970, a whole number.
abbrev pub Instant : Type 0
Instant = ℤ

pub record Duration : Type 0 where
  pub seconds : ℤ

abbrev pub duration : ℤ → Duration
duration n = record { seconds = n }

abbrev pub seconds_per_minute : ℕ
seconds_per_minute = 60

abbrev pub seconds_per_hour : ℕ
seconds_per_hour = 3600

-- `InvariantViolation`, as `tryBetween` returns it.
pub data InvariantViolation : Type 0 where
  not_an_instant ends_before_start : InvariantViolation

unfoldable pub of_seconds : ℤ → Throws Duration
unfolding is_safe_integer
of_seconds n = do throw_if (not (is_safe_integer n)) unsafe_seconds; done (duration n)

unfoldable pub of_minutes : ℤ → Throws Duration
of_minutes m = of_seconds (m *ℤ pos seconds_per_minute)

abbrev pub zero_duration : Duration
zero_duration = duration (pos 0)

-- `tryBetween`: `none` is the time of an invalid `Date`, which is NaN. The length is truncated to
-- whole seconds.
unfoldable pub try_between : Option Instant → Option Instant → Result InvariantViolation Duration
try_between (some start) (some end) =
    let milliseconds = end -ℤ start in
    if ltb_ℤ milliseconds (pos 0)
    then err ends_before_start
    else ok (duration (pos (nat_abs milliseconds / 1000)))
try_between none _ = err not_an_instant
try_between (some _) none = err not_an_instant

abbrev span_or_throw : Result InvariantViolation Duration → Throws Duration
span_or_throw (ok d) = done d
span_or_throw (err _) = threw not_a_span

-- `between`
unfoldable pub between : Option Instant → Option Instant → Throws Duration
between start end = span_or_throw (try_between start end)

unfoldable pub plus : Duration → Duration → Throws Duration
plus a b = of_seconds (a.seconds +ℤ b.seconds)

unfoldable pub minus : Duration → Duration → Throws Duration
minus a b = of_seconds (a.seconds -ℤ b.seconds)

abbrev pub compare_duration : Duration → Duration → Order
compare_duration a b =
    if ltb_ℤ a.seconds b.seconds then less else if ltb_ℤ b.seconds a.seconds then greater else equal

unfoldable pub sum_durations_from : Duration → List Duration → Throws Duration
sum_durations_from total [] = done total
sum_durations_from total (d ∷ ds) = plus total d >>= λ t. sum_durations_from t ds

-- `Duration.sum`
unfoldable pub sum_durations : List Duration → Throws Duration
sum_durations ds = sum_durations_from zero_duration ds

-- The hours and minutes that `toHoursAndMinutes` prints, and whether it prints a sign.
pub record HoursAndMinutes : Type 0 where
  pub negative : Bool
  pub hours : ℕ
  pub minutes : ℕ

unfoldable pub to_hours_and_minutes : Duration → HoursAndMinutes
to_hours_and_minutes d =
    let absolute = nat_abs d.seconds in
    record {
      negative = ltb_ℤ d.seconds (pos 0);
      hours = absolute / seconds_per_hour;
      minutes = absolute % seconds_per_hour / seconds_per_minute;
    }
