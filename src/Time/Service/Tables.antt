-- ===== src/Time/Service/Tables.antt =====
-- packages/modules/time-tracking: what timer-service.ts is given, and the tables of time.repository.ts.
use amc_system.Base.{ℕ, not, Option, List, [], ◌∷◌, ◌++◌, find, filter, map, if◌then◌else◌}
use amc_system.Base.Int.{ℤ}
use amc_system.Base.Text.{Text, eq_text}
use amc_system.Time.Timer.{RunningTimer, TimerConflict}
use amc_system.Time.WorkingHours.{WorkingHours}
use amc_system.Time.Entry.{TimeEntry}
use amc_system.Time.Entry.State.{TimeEntryState, EntryConflict, EntryEvent}

-- What the service is given.
pub record Ports : Type 0 where
  -- `AssignmentResolver`: the assignment of a person on a project.
  pub assignment_for : Text → Text → Option Text
  -- The person of an assignment.
  pub user_of : Text → Option Text
  -- `WorkingHoursRepository.forUser`
  pub hours_of : Text → WorkingHours
  -- `IdGenerator`: the ids in the order in which they are given out.
  pub id_at : ℕ → Text

-- The tables of running timers and of time entries, how many ids were given out, and the events that
-- were collected.
pub record Store : Type 0 where
  pub timers : List RunningTimer
  pub entries : List TimeEntryState
  pub issued : ℕ
  pub collected : List EntryEvent

-- One constructor for each `new Conflict(…)`, and those of the domain.
pub data ServiceConflict : Type 0 where
  no_such_project no_timer_running no_timer_held not_yet_done no_such_entry : ServiceConflict
  nothing_selected : ServiceConflict
  of_timer : TimerConflict → ServiceConflict
  of_entry : EntryConflict → ServiceConflict

pub record StoppedEntry : Type 0 where
  pub entry_id : Text
  pub seconds : ℤ

-- `RunningTimerRepository.forUser`
abbrev pub timer_of : Text → List RunningTimer → Option RunningTimer
timer_of user timers = find (λ t. eq_text t.user_id user) timers

-- `clear`
abbrev pub cleared : Text → List RunningTimer → List RunningTimer
cleared user timers = filter (λ t. not (eq_text t.user_id user)) timers

-- `RunningTimerRepository.start`: the row of the person, new or written over.
unfoldable pub put_timer : RunningTimer → List RunningTimer → List RunningTimer
put_timer timer [] = timer ∷ []
put_timer timer (t ∷ ts) =
    let rest = put_timer timer ts in
    if eq_text t.user_id timer.user_id then timer ∷ ts else t ∷ rest

-- `RunningTimerRepository.save`: what a hold or its end changes.
abbrev pub written : RunningTimer → List RunningTimer → List RunningTimer
written timer timers =
    map
      (λ t.
        if eq_text t.user_id timer.user_id
        then record t {
          started_at = timer.started_at;
          last_seen_at = timer.last_seen_at;
          held_at = timer.held_at;
        }
        else t)
      timers

-- The row of an entry, new or written over.
unfoldable pub put_entry : TimeEntryState → List TimeEntryState → List TimeEntryState
put_entry entry [] = entry ∷ []
put_entry entry (e ∷ es) =
    let rest = put_entry entry es in if eq_text e.id entry.id then entry ∷ es else e ∷ rest

-- `TimeEntryRepository.save`
abbrev pub save_entry : TimeEntry → Store → Store
save_entry entry s = record s {
  entries = put_entry entry.state s.entries;
  collected = s.collected ++ entry.pending;
}
