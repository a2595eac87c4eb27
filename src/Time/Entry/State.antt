-- ===== src/Time/Entry/State.antt =====
-- packages/modules/time-tracking/domain/time-entry.ts: the data of a time entry.
use amc_system.Base.{Bool, Option}
use amc_system.Base.Int.{ℤ}
use amc_system.Base.Text.{Text}
use amc_system.Kernel.Duration.{Instant}

-- `TimeSource`
pub data Source : Type 0 where
  timer manual : Source

pub data ReviewReason : Type 0 where
  after_hours abandoned implausible : ReviewReason

pub record TimeEntryState : Type 0 where
  pub id : Text
  pub assignment_id : Text
  pub started_at : Instant
  pub ended_at : Option Instant
  pub source : Source
  pub reason : Option Text
  pub billable : Bool
  pub note : Option Text
  pub review_reason : Option ReviewReason
  pub reviewed_at : Option Instant
  pub reviewed_by : Option Text
  pub approved_at : Option Instant
  pub approved_by : Option Text
  pub statement_line_id : Option Text

-- The argument of `TimeEntry.fromTimer`.
pub record TimerParams : Type 0 where
  pub id : Text
  pub assignment_id : Text
  pub started_at : Instant
  pub ended_at : Instant
  pub billable : Option Bool
  pub note : Option Text
  pub review_reason : Option ReviewReason

-- The argument of `TimeEntry.manual`.
pub record ManualParams : Type 0 where
  pub id : Text
  pub assignment_id : Text
  pub started_at : Instant
  pub ended_at : Instant
  pub reason : Text
  pub billable : Option Bool
  pub note : Option Text

-- One constructor for each `new Conflict(…)`. `not_a_length` is the one with the message of
-- `Duration.tryBetween`.
pub data EntryConflict : Type 0 where
  not_a_length no_reason no_length not_in_doubt confirmed_already cannot_be_changed : EntryConflict
  no_change_reason on_statement_already not_finished not_approved not_on_statement : EntryConflict

-- The domain events, with the aggregate's id, the instant and the payload.
pub data EntryEvent : Type 0 where
  recorded : Text → Instant → Text → ℤ → Source → Option Text → EntryEvent
  confirmed : Text → Instant → ReviewReason → ℤ → EntryEvent
  billable_changed : Text → Instant → Bool → EntryEvent
  adjusted : Text → Instant → Text → Instant → Option Instant → Instant → Instant → EntryEvent
  approved : Text → Instant → Text → EntryEvent
  locked : Text → Instant → Text → EntryEvent
  released : Text → Instant → Text → Text → EntryEvent
