-- ===== src/Time/Entry.antt =====
-- packages/modules/time-tracking/domain/time-entry.ts: a stretch of work, from its recording to the
-- statement line that freezes it.
pub mod State
pub mod Freezing
pub mod Tests
use amc_system.Base.{
  Bool, true, false, not, Option, none, some, List, [], ◌∷◌, length, ltb, is_some, get_or,
  if◌then◌else◌,
}
use amc_system.Base.Int.{ℤ, pos, ltb_ℤ, eqb_ℤ}
use amc_system.Base.Text.{Text, trim, non_blank}
use amc_system.Kernel.Throws as Throws
use amc_system.Kernel.Throws.{Throws}
use amc_system.Kernel.Result as Result
use amc_system.Kernel.Result.{Result}
use amc_system.Kernel.Aggregate.{
  Aggregate, Method, ok, err, threw, ◌>>=◌, ◌>>◌, pure, refuse_if, refuse, call, this_state, assign,
  emit,
}
use amc_system.Kernel.Duration.{Instant, Duration, zero_duration, try_between, between}
use amc_system.Time.Entry.State.{
  Source, ReviewReason, TimeEntryState, TimerParams, ManualParams, EntryConflict, EntryEvent,
}

abbrev pub TimeEntry : Type 0
TimeEntry = Aggregate TimeEntryState EntryEvent

abbrev pub EntryMethod : Type 0 → Type 0
EntryMethod = Method TimeEntryState EntryEvent EntryConflict

-- `IMPLAUSIBLE_HOURS * 3600`
abbrev pub implausible_seconds : ℤ
implausible_seconds = pos 43_200

-- `params.reviewReason ?? (… ? 'implausible' : null)`
abbrev pub doubt : Option ReviewReason → Duration → Option ReviewReason
doubt (some why) worked = some why
doubt none worked =
    if ltb_ℤ implausible_seconds worked.seconds then some ReviewReason.implausible else none

abbrev pub timed_entry : TimerParams → Duration → TimeEntry
timed_entry p worked = record {
  state = record {
    id = p.id;
    assignment_id = p.assignment_id;
    started_at = p.started_at;
    ended_at = some p.ended_at;
    source = Source.timer;
    reason = none;
    billable = get_or p.billable true;
    note = non_blank p.note;
    review_reason = doubt p.review_reason worked;
    reviewed_at = none;
    reviewed_by = none;
    approved_at = none;
    approved_by = none;
    statement_line_id = none;
  };
  pending =
      EntryEvent.recorded p.id p.ended_at p.assignment_id worked.seconds Source.timer none ∷ [];
}

-- `fromTimer`
unfoldable pub from_timer : TimerParams → Result EntryConflict TimeEntry
from_timer p = elim (try_between (some p.started_at) (some p.ended_at)) [
  | Result.err _ ↦ Result.err EntryConflict.not_a_length
  | Result.ok worked ↦ Result.ok (timed_entry p worked)
]

abbrev manual_entry : ManualParams → Duration → TimeEntry
manual_entry p worked = record {
  state = record {
    id = p.id;
    assignment_id = p.assignment_id;
    started_at = p.started_at;
    ended_at = some p.ended_at;
    source = Source.manual;
    reason = some (trim p.reason);
    billable = get_or p.billable true;
    note = non_blank p.note;
    review_reason = none;
    reviewed_at = none;
    reviewed_by = none;
    approved_at = none;
    approved_by = none;
    statement_line_id = none;
  };
  pending =
      EntryEvent.recorded p.id p.ended_at p.assignment_id worked.seconds Source.manual
        (some (trim p.reason))
      ∷ [];
}

-- `manual`
unfoldable pub by_hand : ManualParams → Result EntryConflict TimeEntry
by_hand p =
    if ltb (length (trim p.reason)) 3
    then Result.err EntryConflict.no_reason
    else elim (try_between (some p.started_at) (some p.ended_at)) [
      | Result.err _ ↦ Result.err EntryConflict.not_a_length
      | Result.ok worked ↦
          if eqb_ℤ worked.seconds (pos 0)
          then Result.err EntryConflict.no_length
          else Result.ok (manual_entry p worked)
    ]

-- `isLocked`
abbrev pub is_locked : TimeEntryState → Bool
is_locked s = is_some s.statement_line_id

-- `isApproved`
abbrev pub is_approved : TimeEntryState → Bool
is_approved s = is_some s.approved_at

abbrev length_until : Instant → Option Instant → Throws Duration
length_until start none = Throws.done zero_duration
length_until start (some end) = between (some start) (some end)

-- `length`
unfoldable pub worked_time : TimeEntryState → Throws Duration
worked_time s = length_until s.started_at s.ended_at

-- `awaitsReview`
abbrev pub awaits_review : TimeEntryState → Bool
awaits_review s = if is_some s.review_reason then not (is_some s.reviewed_at) else false

-- The rest of `confirm`, where something was in doubt.
abbrev confirm_doubt : Text → Instant → Option ReviewReason → EntryMethod (Unit {0})
confirm_doubt by now none = refuse (some EntryConflict.not_in_doubt)
confirm_doubt by now (some why) = do
  s ← this_state
  refuse_if (is_some s.reviewed_at) EntryConflict.confirmed_already
  refuse_if (is_locked s) EntryConflict.cannot_be_changed
  assign (record s { reviewed_at = some now; reviewed_by = some by })
  worked ← call (worked_time (record s { reviewed_at = some now; reviewed_by = some by }))
  emit (EntryEvent.confirmed s.id now why worked.seconds)

unfoldable pub confirm : Text → Instant → EntryMethod (Unit {0})
confirm by now = do s ← this_state; confirm_doubt by now s.review_reason

-- `setBillable`
unfoldable pub set_billable : Bool → Instant → EntryMethod (Unit {0})
set_billable billable now = do
  s ← this_state
  refuse_if (is_locked s) EntryConflict.cannot_be_changed
  assign (record s { billable = billable })
  emit (EntryEvent.billable_changed s.id now billable)

-- Whether `Duration.tryBetween` refuses.
abbrev refused_length : Instant → Instant → Option EntryConflict
refused_length start end = elim (try_between (some start) (some end)) [
  | Result.err _ ↦ some EntryConflict.not_a_length
  | Result.ok _ ↦ none
]

-- `adjust`
unfoldable pub adjust : Instant → Instant → Text → Instant → EntryMethod (Unit {0})
adjust started_at ended_at reason now = do
  s ← this_state
  refuse_if (is_locked s) EntryConflict.cannot_be_changed
  refuse_if (ltb (length (trim reason)) 3) EntryConflict.no_change_reason
  refuse (refused_length started_at ended_at)
  assign (record s {
    started_at = started_at;
    ended_at = some ended_at;
    source = Source.manual;
    reason = some (trim reason);
  })
  emit (EntryEvent.adjusted s.id now (trim reason) s.started_at s.ended_at started_at ended_at)

-- `approve`
unfoldable pub approve : Text → Instant → EntryMethod (Unit {0})
approve by now = do
  s ← this_state
  refuse_if (is_locked s) EntryConflict.on_statement_already
  refuse_if (not (is_some s.ended_at)) EntryConflict.not_finished
  assign (record s { approved_at = some now; approved_by = some by })
  emit (EntryEvent.approved s.id now by)

-- `includeInStatement`
unfoldable pub include_in_statement : Text → Instant → EntryMethod (Unit {0})
include_in_statement statement_line_id now = do
  s ← this_state
  refuse_if (is_locked s) EntryConflict.on_statement_already
  refuse_if (not (is_approved s)) EntryConflict.not_approved
  assign (record s { statement_line_id = some statement_line_id })
  emit (EntryEvent.locked s.id now statement_line_id)

abbrev release_line : Text → Instant → Option Text → EntryMethod (Unit {0})
release_line by now none = refuse (some EntryConflict.not_on_statement)
release_line by now (some was) = do
  s ← this_state
  assign (record s { statement_line_id = none })
  emit (EntryEvent.released s.id now was by)

-- `releaseFromStatement`
unfoldable pub release_from_statement : Text → Instant → EntryMethod (Unit {0})
release_from_statement by now = do s ← this_state; release_line by now s.statement_line_id

-- The calls that change an entry.
pub data Command : Type 0 where
  vouch : Text → Instant → Command
  bill_or_not : Bool → Instant → Command
  correct : Instant → Instant → Text → Instant → Command
  sign_off : Text → Instant → Command
  put_on : Text → Instant → Command
  take_off : Text → Instant → Command

unfoldable pub execute : Command → EntryMethod (Unit {0})
execute (vouch by now) = confirm by now
execute (bill_or_not billable now) = set_billable billable now
execute (correct started_at ended_at reason now) = adjust started_at ended_at reason now
execute (sign_off by now) = approve by now
execute (put_on statement_line_id now) = include_in_statement statement_line_id now
execute (take_off by now) = release_from_statement by now
