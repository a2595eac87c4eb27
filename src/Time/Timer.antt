-- ===== src/Time/Timer.antt =====
-- packages/modules/time-tracking/domain/running-timer.ts: the timer that is running for one person.
pub mod Spans
pub mod Tests
use amc_system.Base.{Bool, true, false, Option, none, some, List, [], ◌∷◌, is_some, if◌then◌else◌}
use amc_system.Base.Int.{ℤ, pos, ◌-ℤ◌, ltb_ℤ}
use amc_system.Base.Text.{Text}
use amc_system.Kernel.Result.{Result, ok, err}
use amc_system.Kernel.Duration.{Instant, Duration, zero_duration, try_between}

-- `RunningTimerState`
pub record RunningTimer : Type 0 where
  pub user_id : Text
  pub assignment_id : Text
  pub started_at : Instant
  pub device_id : Option Text
  pub last_seen_at : Instant
  pub held_at : Option Instant

pub record StoppedTimer : Type 0 where
  pub assignment_id : Text
  pub started_at : Instant
  pub ended_at : Instant

-- One constructor for each `new Conflict(…)`.
pub data TimerConflict : Type 0 where
  held_already not_held stopped_before_start : TimerConflict

-- `ABANDONED_AFTER_MINUTES * 60_000`
abbrev pub abandoned_after : ℤ
abandoned_after = pos 3_600_000

abbrev pub start : Text → Text → Instant → Option Text → RunningTimer
start user_id assignment_id now device_id = record {
  user_id = user_id;
  assignment_id = assignment_id;
  started_at = now;
  device_id = device_id;
  last_seen_at = now;
  held_at = none;
}

abbrev length_or_zero : {E : Type 0} → Result E Duration → Duration
length_or_zero (ok d) = d
length_or_zero (err _) = zero_duration

-- `elapsedAt`
unfoldable pub elapsed_at : RunningTimer → Instant → Duration
elapsed_at timer now = elim timer.held_at [
  | some _ ↦ zero_duration
  | none ↦ length_or_zero (try_between (some timer.started_at) (some now))
]

abbrev pub span : Text → Instant → Instant → StoppedTimer
span assignment_id started_at ended_at = record {
  assignment_id = assignment_id;
  started_at = started_at;
  ended_at = ended_at;
}

-- `stop`
unfoldable pub stop : RunningTimer → Instant → Result TimerConflict StoppedTimer
stop timer now = elim timer.held_at [
  | some held ↦ ok (span timer.assignment_id held held)
  | none ↦
      if ltb_ℤ now timer.started_at
      then err stopped_before_start
      else ok (span timer.assignment_id timer.started_at now)
]

-- The end of `hold`, where the timer was asked to stop.
abbrev hold_stopped :
    RunningTimer
    → Instant
    → Result TimerConflict StoppedTimer
    → Result TimerConflict StoppedTimer × RunningTimer
hold_stopped timer now (err e) = (err e, timer)
hold_stopped timer now (ok s) = (ok s, record timer { held_at = some now; last_seen_at = now })

-- `hold`
unfoldable pub hold : RunningTimer → Instant → Result TimerConflict StoppedTimer × RunningTimer
hold timer now =
    if is_some timer.held_at
    then (err held_already, timer)
    else hold_stopped timer now (stop timer now)

-- `resume`
unfoldable pub resume : RunningTimer → Instant → Result TimerConflict (Unit {0}) × RunningTimer
resume timer now =
    if is_some timer.held_at
    then (ok tt, record timer { started_at = now; held_at = none; last_seen_at = now })
    else (err not_held, timer)

-- `beat`
abbrev pub beat : RunningTimer → Instant → RunningTimer
beat timer now = record timer { last_seen_at = now }

-- `isAbandonedAt`
unfoldable pub is_abandoned_at : RunningTimer → Instant → Bool
is_abandoned_at timer now =
    if is_some timer.held_at then false else ltb_ℤ abandoned_after (now -ℤ timer.last_seen_at)

-- `heldAt ?? startedAt`
abbrev pub floor : RunningTimer → Instant
floor timer = elim timer.held_at [ some held ↦ held | none ↦ timer.started_at ]

abbrev clamp_claimed : Instant → Instant → Instant → Instant
clamp_claimed least claimed now =
    if ltb_ℤ now claimed then now else if ltb_ℤ claimed least then least else claimed

-- `clamp`
unfoldable pub clamp : RunningTimer → Option Instant → Instant → Instant
clamp timer none now = now
clamp timer (some claimed) now = clamp_claimed (floor timer) claimed now

-- `stopAsAbandoned`
unfoldable pub stop_as_abandoned : RunningTimer → StoppedTimer
stop_as_abandoned timer = elim timer.held_at [
  | some held ↦ span timer.assignment_id held held
  | none ↦ span timer.assignment_id timer.started_at timer.last_seen_at
]

-- The calls that change a timer, and the instant of each.
pub data Command : Type 0 where
  hold_at resume_at beat_at : Instant → Command

abbrev pub kept : Result TimerConflict StoppedTimer → List StoppedTimer → List StoppedTimer
kept (ok s) rest = s ∷ rest
kept (err _) rest = rest

-- What a row of calls records, the stop at the end included.
unfoldable pub recorded : RunningTimer → List Command → Instant → List StoppedTimer
recorded timer [] now = kept (stop timer now) []
recorded timer (hold_at t ∷ cs) now = kept (hold timer t).0 (recorded (hold timer t).1 cs now)
recorded timer (resume_at t ∷ cs) now = recorded (resume timer t).1 cs now
recorded timer (beat_at t ∷ cs) now = recorded (beat timer t) cs now
