-- ===== src/Time/Service.antt =====
-- packages/modules/time-tracking/application/timer-service.ts: the service that starts, holds and stops
-- people's timers and writes their time down, over the tables of time.repository.ts. Who is assigned to
-- what, whose assignment it is, people's working hours and the generator of ids come from outside.
pub mod Tables
pub mod Saved
pub mod Booking
pub mod Calls
pub mod Review
pub mod Apart
pub mod Tests
use amc_system.Base.{
  ℕ, suc, Bool, true, false, not, ◌&&◌, Option, none, some, List, [], ◌∷◌, ◌++◌, find, filter, map,
  is_some, if◌then◌else◌,
}
use amc_system.Base.Int.{ℤ, pos, ◌-ℤ◌, ltb_ℤ, leb_ℤ}
use amc_system.Base.Text.{Text, eq_text}
use amc_system.Base.Date.{floor_div}
use amc_system.Kernel.Throws as Throws
use amc_system.Kernel.Throws.{Throws}
use amc_system.Kernel.Result as Result
use amc_system.Kernel.Result.{Result}
use amc_system.Kernel.Aggregate.{Outcome}
use amc_system.Kernel.Duration.{Instant, Duration}
use amc_system.Time.Timer as Timer
use amc_system.Time.Timer.{
  RunningTimer, StoppedTimer, TimerConflict, clamp, is_abandoned_at, stop_as_abandoned,
}
use amc_system.Time.WorkingHours.{WorkingHours, questions}
use amc_system.Time.Entry as Entry
use amc_system.Time.Entry.{TimeEntry, from_timer, by_hand, worked_time, awaits_review}
use amc_system.Time.Entry.State.{
  ReviewReason, TimeEntryState, TimerParams, EntryConflict, EntryEvent,
}
use amc_system.Time.Service.Tables.{
  Ports, Store, ServiceConflict, no_such_project, no_timer_running, no_timer_held, of_timer,
  of_entry, StoppedEntry, timer_of, cleared, put_timer, written, save_entry,
}

-- Why an entry might be worth a second look.
abbrev pub review_reason : WorkingHours → Bool → StoppedTimer → Option ReviewReason
review_reason hours abandoned span =
    if abandoned
    then some ReviewReason.abandoned
    else if questions hours span.started_at span.ended_at
    then some ReviewReason.after_hours
    else none

abbrev pub params_of : Text → Option ReviewReason → StoppedTimer → TimerParams
params_of id why span = record {
  id = id;
  assignment_id = span.assignment_id;
  started_at = span.started_at;
  ended_at = span.ended_at;
  billable = none;
  note = none;
  review_reason = why;
}

abbrev pub save_recorded :
    ℤ
    → Result EntryConflict TimeEntry
    → Store
    → Result ServiceConflict (Option StoppedEntry) × Store
save_recorded seconds (Result.err e) s = (Result.err (of_entry e), s)
save_recorded seconds (Result.ok entry) s =
    (Result.ok (some (record { entry_id = entry.state.id; seconds = seconds })), save_entry entry s)

abbrev pub seconds_of : StoppedTimer → ℤ
seconds_of span = floor_div (span.ended_at -ℤ span.started_at) 1000

-- `record`
unfoldable pub record_span :
    Ports
    → Text
    → Bool
    → StoppedTimer
    → Store
    → Result ServiceConflict (Option StoppedEntry) × Store
record_span ports user abandoned span s =
    if leb_ℤ (seconds_of span) (pos 0)
    then (Result.ok none, s)
    else save_recorded (seconds_of span)
        (from_timer (
          params_of (ports.id_at s.issued) (review_reason (ports.hours_of user) abandoned span)
            span))
        (record s { issued = suc s.issued })

abbrev ended_or : RunningTimer → Result TimerConflict StoppedTimer → StoppedTimer
ended_or timer (Result.ok span) = span
ended_or timer (Result.err _) = stop_as_abandoned timer

-- The span with which a timer ends.
abbrev pub final_span : RunningTimer → Instant → StoppedTimer
final_span timer now =
    if is_abandoned_at timer now
    then stop_as_abandoned timer
    else ended_or timer (Timer.stop timer now)

abbrev pub stop_running :
    Ports
    → Text
    → Option Instant
    → Instant
    → Option RunningTimer
    → Store
    → Result ServiceConflict (Option StoppedEntry) × Store
stop_running ports user at clock none s = (Result.ok none, s)
stop_running ports user at clock (some timer) s =
    let now = clamp timer at clock in
    record_span ports user (is_abandoned_at timer now) (final_span timer now)
      (record s { timers = cleared user s.timers })

-- `stop`
unfoldable pub stop :
    Ports
    → Text
    → Option Instant
    → Instant
    → Store
    → Result ServiceConflict (Option StoppedEntry) × Store
stop ports user at clock s = stop_running ports user at clock (timer_of user s.timers) s

-- `at && at < server ? at : server`
abbrev pub effective : Option Instant → Instant → Instant
effective none clock = clock
effective (some at) clock = if ltb_ℤ at clock then at else clock

abbrev pub value_or_null : Result ServiceConflict (Option StoppedEntry) → Option StoppedEntry
value_or_null (Result.ok stopped) = stopped
value_or_null (Result.err _) = none

abbrev pub start_on :
    Ports
    → Text
    → Option Text
    → Option Instant
    → Instant
    → Option Text
    → Store
    → Result ServiceConflict (Option StoppedEntry) × Store
start_on ports user device at clock none s = (Result.err no_such_project, s)
start_on ports user device at clock (some assignment) s =
    let now = effective at clock in
    let (stopped, s') = stop ports user (some now) clock s in
    (
      Result.ok (value_or_null stopped),
      record s' { timers = put_timer (Timer.start user assignment now device) s'.timers },
    )

-- `start`
unfoldable pub start :
    Ports
    → Text
    → Text
    → Option Text
    → Option Instant
    → Instant
    → Store
    → Result ServiceConflict (Option StoppedEntry) × Store
start ports user project device at clock s =
    start_on ports user device at clock (ports.assignment_for user project) s

abbrev pub hold_held :
    Ports
    → Text
    → Result TimerConflict StoppedTimer × RunningTimer
    → Store
    → Result ServiceConflict (Option StoppedEntry) × Store
hold_held ports user (Result.err e, timer) s = (Result.err (of_timer e), s)
hold_held ports user (Result.ok span, timer) s =
    record_span ports user false span (record s { timers = written timer s.timers })

abbrev pub hold_running :
    Ports
    → Text
    → Option Instant
    → Instant
    → Option RunningTimer
    → Store
    → Result ServiceConflict (Option StoppedEntry) × Store
hold_running ports user at clock none s = (Result.err no_timer_running, s)
hold_running ports user at clock (some timer) s =
    hold_held ports user (Timer.hold timer (clamp timer at clock)) s

-- `hold`
unfoldable pub hold :
    Ports
    → Text
    → Option Instant
    → Instant
    → Store
    → Result ServiceConflict (Option StoppedEntry) × Store
hold ports user at clock s = hold_running ports user at clock (timer_of user s.timers) s

abbrev pub resume_lifted :
    Result TimerConflict (Unit {0}) × RunningTimer
    → Store
    → Result ServiceConflict (Unit {0}) × Store
resume_lifted (Result.err e, timer) s = (Result.err (of_timer e), s)
resume_lifted (Result.ok _, timer) s = (Result.ok tt, record s { timers = written timer s.timers })

abbrev pub resume_running :
    Option Instant
    → Instant
    → Option RunningTimer
    → Store
    → Result ServiceConflict (Unit {0}) × Store
resume_running at clock none s = (Result.err no_timer_held, s)
resume_running at clock (some timer) s = resume_lifted (Timer.resume timer (clamp timer at clock)) s

-- `resume`
unfoldable pub resume :
    Text → Option Instant → Instant → Store → Result ServiceConflict (Unit {0}) × Store
resume user at clock s = resume_running at clock (timer_of user s.timers) s

-- `beat`
abbrev pub beat : Text → Instant → Store → Store
beat user clock s = record s {
  timers =
      map (λ t. if eq_text t.user_id user then record t { last_seen_at = clock } else t) s.timers;
}
