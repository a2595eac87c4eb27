-- ===== src/Billing/Invoice/State.antt =====
-- packages/modules/billing/domain/invoice.ts: the data of an invoice. Identifiers and words are
-- texts, and a `Date` is its time in milliseconds.
use amc_system.Base.{Bool, Option, List}
use amc_system.Base.Int.{ℤ}
use amc_system.Base.Text.{Text}
use amc_system.Kernel.Money.{Money, Currency}
use amc_system.Kernel.Duration.{Duration, Instant}

pub data Settlement : Type 0 where
  issued part_paid paid cancelled : Settlement

-- What `status()` answers.
pub data Status : Type 0 where
  issued part_paid paid overdue cancelled : Status

pub record InvoiceLine : Type 0 where
  pub id : Text
  pub project_id : Text
  pub service : Text
  pub description_en : Text
  pub description_ar : Text
  pub worked : Duration
  pub amount : Money
  pub quantity_centi : ℤ
  pub unit_rate : Option Money

pub record Payment : Type 0 where
  pub id : Text
  pub amount : Money
  pub received_on : Instant
  pub method : Text
  pub reference : Option Text
  pub cheque_number : Option Text
  pub cheque_date : Option Instant
  pub bank_name : Option Text
  pub discount : Money
  pub discount_reason : Option Text
  pub recorded_by : Text

pub record InvoiceSnapshot : Type 0 where
  pub id : Text
  pub client_id : Text
  pub statement_id : Text
  pub branch_code : Option Text
  pub number : Text
  pub settlement : Settlement
  pub currency : Currency
  pub lines : List InvoiceLine
  pub payments : List Payment
  pub vat_basis_points : ℤ
  pub issued_on : Instant
  pub due_on : Instant
  pub overdue_since : Option Instant
  pub issued_by : Text
  pub notes_en : Option Text
  pub notes_ar : Option Text

-- The argument of `Invoice.raise`.
pub record RaiseParams : Type 0 where
  pub id : Text
  pub client_id : Text
  pub statement_id : Text
  pub number : Text
  pub branch_code : Option Text
  pub currency : Currency
  pub lines : List InvoiceLine
  pub vat_basis_points : ℤ
  pub issued_on : Instant
  pub due_on : Instant
  pub issued_by : Text
  pub notes_en : Option Text
  pub notes_ar : Option Text

-- One constructor for each `new Conflict(…)`.
pub data InvoiceConflict : Type 0 where
  no_number no_lines due_before_issue not_a_vat_rate : InvoiceConflict
  line_without_project line_in_other_currency negative_line : InvoiceConflict
  was_cancelled payment_in_other_currency payment_for_nothing : InvoiceConflict
  payment_predates_invoice payment_recorded_already : InvoiceConflict
  is_settled not_late_yet money_was_received no_reason : InvoiceConflict

-- The domain events, with the aggregate's id, the instant and the payload.
pub data InvoiceEvent : Type 0 where
  raised : Text → Instant → Text → Text → Text → Option Text → ℤ → Currency → InvoiceEvent
  payment_received : Text → Instant → Text → Text → ℤ → ℤ → Bool → InvoiceEvent
  overdue : Text → Instant → Text → Text → ℤ → Instant → InvoiceEvent
  cancelled : Text → Instant → Text → Text → Text → InvoiceEvent
