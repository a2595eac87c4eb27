-- ===== src/Billing/Statement/State.antt =====
-- packages/modules/billing/domain/statement.ts: the data of a statement of work.
use amc_system.Base.{ℕ, Bool, Option, List}
use amc_system.Base.Int.{ℤ}
use amc_system.Base.Text.{Text}
use amc_system.Kernel.Money.{Money, Currency}
use amc_system.Kernel.Duration.{Duration, Instant}

pub data Standing : Type 0 where
  draft approved invoiced cancelled : Standing

-- `StatementPricing`
pub data Pricing : Type 0 where
  hourly : Money → Pricing
  fixed : Money → Pricing

pub record StatementLine : Type 0 where
  pub id : Text
  pub project_id : Text
  pub service : Text
  pub performed_on : Instant
  pub user_id : Option Text
  pub worked : Duration
  pub pricing : Pricing
  pub entry_ids : List Text
  pub excluded : Bool
  pub excluded_reason : Option Text
  pub adjusted_to : Option Money
  pub adjusted_reason : Option Text

pub record StatementSnapshot : Type 0 where
  pub id : Text
  pub client_id : Text
  pub period_start : Instant
  pub period_end : Instant
  pub state : Standing
  pub currency : Currency
  pub lines : List StatementLine
  pub created_by : Text
  pub created_at : Instant
  pub approved_at : Option Instant
  pub approved_by : Option Text

-- The argument of `Statement.draft`.
pub record DraftParams : Type 0 where
  pub id : Text
  pub client_id : Text
  pub period_start : Instant
  pub period_end : Instant
  pub currency : Currency
  pub lines : List StatementLine
  pub created_by : Text
  pub now : Instant

-- One constructor for each `new Conflict(…)`.
pub data StatementConflict : Type 0 where
  period_ends_early line_in_other_currency not_a_draft no_such_line not_excluded : StatementConflict
  adjusted_in_other_currency adjusted_below_zero nothing_on_it nothing_to_bill : StatementConflict
  not_approved was_invoiced no_reason : StatementConflict

-- The domain events, with the aggregate's id, the instant and the payload.
pub data StatementEvent : Type 0 where
  line_restored : Text → Instant → Text → StatementEvent
  approved : Text → Instant → Text → ℤ → Currency → ℕ → StatementEvent
  reopened : Text → Instant → StatementEvent
  invoiced : Text → Instant → Text → StatementEvent
  cancelled : Text → Instant → Text → Text → ℕ → StatementEvent
  line_revised : Text → Instant → Text → Bool → Option ℤ → Text → StatementEvent
