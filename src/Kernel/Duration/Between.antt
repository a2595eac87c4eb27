-- ===== src/Kernel/Duration/Between.antt =====
-- `tryBetween` and `toHoursAndMinutes` of duration.ts.
use amc_system.Base.{◌+◌, ◌*◌, ◌≤◌, ◌<◌, ◌≡◌, some, arith, ◌↔◌}
use amc_system.Base.Int.{pos, nat_abs, ◌+ℤ◌, ◌-ℤ◌, ◌*ℤ◌, ◌≤ℤ◌, ◌<ℤ◌}
use amc_system.Kernel.Result.{ok, err}
use amc_system.Kernel.Duration.{
  Instant, Duration, try_between, ends_before_start, to_hours_and_minutes,
}

-- Between two valid instants, a span is refused exactly when it would end before it starts.
pub try_between-err_iff :
    (start end : Instant)
    → (try_between (some start) (some end) ≡ err ends_before_start) ↔ (end <ℤ start)
unfolding try_between ◌-ℤ◌
try_between-err_iff start end = (λ h. ground arith, λ h. ground arith)

-- A span that is given is the whole seconds that fit: no longer than the time, and short of it by
-- less than a second.
pub try_between-floor :
    (start end : Instant) {d : Duration}
    → try_between (some start) (some end) ≡ ok d
    → (pos 0 ≤ℤ d.seconds)
      × (start +ℤ d.seconds *ℤ pos 1000 ≤ℤ end)
      × (end <ℤ start +ℤ d.seconds *ℤ pos 1000 +ℤ pos 1000)
unfolding try_between ◌-ℤ◌ ◌+ℤ◌ ◌*ℤ◌
try_between-floor start end h = ground arith

-- The printed hours and minutes are the length to the minute, with minutes below sixty.
pub to_hours_and_minutes_lem :
    (d : Duration)
    → let r = to_hours_and_minutes d in
      (r.minutes < 60)
      × (r.hours * 3600 + r.minutes * 60 ≤ nat_abs d.seconds)
      × (nat_abs d.seconds < r.hours * 3600 + r.minutes * 60 + 60)
unfolding to_hours_and_minutes
to_hours_and_minutes_lem d = omega arith
