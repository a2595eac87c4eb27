-- ===== src/Billing/Invoice.antt =====
-- packages/modules/billing/domain/invoice.ts: an invoice, its payments and its lateness.
pub mod State
pub mod Amounts
pub mod Raising
pub mod Payments
pub mod Lifecycle
pub mod Validity
pub mod Tests
use amc_system.Base.{
  ℕ, ◌+◌, ◌≡◌, Bool, true, false, not, ◌&&◌, ◌||◌, Option, none, some, List, [], ◌∷◌, map, any,
  push, flat_map, length, ltb, ◌==◌, is_some, if◌then◌else◌,
}
use amc_system.Base.Int.{ℤ, pos, ltb_ℤ, leb_ℤ}
use amc_system.Base.Text.{Text, eq_text, trim, is_empty, non_blank}
use amc_system.Kernel.Throws as Throws
use amc_system.Kernel.Throws.{Throws}
use amc_system.Kernel.Aggregate.{
  Aggregate, Outcome, Method, ok, err, threw, ◌>>=◌, ◌>>◌, pure, refuse_if, refuse, call,
  this_state, assign, emit,
}
use amc_system.Kernel.Money.{
  Money, Currency, eq_currency, add, subtract, sum, zero_money, percentage_in_basis_points,
  is_negative, is_positive, compare_money, Order, less, equal, greater,
}
use amc_system.Kernel.Duration.{Instant}
use amc_system.Billing.Invoice.State.{
  Settlement, Status, InvoiceLine, Payment, InvoiceSnapshot, RaiseParams, InvoiceConflict,
  InvoiceEvent,
}

-- An invoice, and a method of one.
abbrev pub Invoice : Type 0
Invoice = Aggregate InvoiceSnapshot InvoiceEvent

abbrev pub InvoiceMethod : Type 0 → Type 0
InvoiceMethod = Method InvoiceSnapshot InvoiceEvent InvoiceConflict

-- `net`
unfoldable pub net : InvoiceSnapshot → Throws Money
net s = sum (map (λ line. line.amount) s.lines) s.currency

unfoldable pub vat : InvoiceSnapshot → Throws Money
vat s = Throws.◌>>=◌ (net s) (λ n. percentage_in_basis_points n s.vat_basis_points)

unfoldable pub total : InvoiceSnapshot → Throws Money
total s = Throws.◌>>=◌ (net s) (λ n. Throws.◌>>=◌ (vat s) (λ v. add n v))

unfoldable pub paid : InvoiceSnapshot → Throws Money
paid s = sum (map (λ p. p.amount) s.payments) s.currency

unfoldable pub discounted : InvoiceSnapshot → Throws Money
discounted s = sum (map (λ p. p.discount) s.payments) s.currency

-- `total - paid - discounted`, before it is cut off at zero.
unfoldable pub outstanding : InvoiceSnapshot → Throws Money
outstanding s = Throws.◌>>=◌ (total s) (λ t.
    Throws.◌>>=◌ (paid s)
      (λ p. Throws.◌>>=◌ (subtract t p) (λ u. Throws.◌>>=◌ (discounted s) (λ d. subtract u d))))

unfoldable pub balance : InvoiceSnapshot → Throws Money
balance s =
    Throws.◌>>=◌ (outstanding s)
      (λ o. Throws.done (if is_negative o then zero_money s.currency else o))

abbrev pub is_cancelled : Settlement → Bool
is_cancelled Settlement.cancelled = true
is_cancelled _ = false

abbrev pub is_paid : Settlement → Bool
is_paid Settlement.paid = true
is_paid _ = false

abbrev as_status : Settlement → Status
as_status Settlement.issued = Status.issued
as_status Settlement.part_paid = Status.part_paid
as_status Settlement.paid = Status.paid
as_status Settlement.cancelled = Status.cancelled

-- `status`: one word for a screen, where lateness wins over part payment.
unfoldable pub status : InvoiceSnapshot → Status
status s =
    if is_cancelled s.settlement
    then Status.cancelled
    else if is_paid s.settlement
    then Status.paid
    else if is_some s.overdue_since
    then Status.overdue
    else as_status s.settlement

-- `isOverdue`
abbrev pub is_overdue : InvoiceSnapshot → Bool
is_overdue s = is_some s.overdue_since

-- The loop of `raise` over the lines: the first that is refused, and why.
unfoldable pub refused_line : Currency → List InvoiceLine → Option InvoiceConflict
refused_line c [] = none
refused_line c (line ∷ lines) =
    if is_empty (trim line.project_id)
    then some InvoiceConflict.line_without_project
    else if not (eq_currency line.amount.currency c)
    then some InvoiceConflict.line_in_other_currency
    else if is_negative line.amount
    then some InvoiceConflict.negative_line
    else refused_line c lines

-- The state that `raise` builds.
abbrev pub raised_state : RaiseParams → InvoiceSnapshot
raised_state p = record {
  id = p.id;
  client_id = p.client_id;
  statement_id = p.statement_id;
  branch_code = p.branch_code;
  number = trim p.number;
  settlement = Settlement.issued;
  currency = p.currency;
  lines = p.lines;
  payments = [];
  vat_basis_points = p.vat_basis_points;
  issued_on = p.issued_on;
  due_on = p.due_on;
  overdue_since = none;
  issued_by = p.issued_by;
  notes_en = non_blank p.notes_en;
  notes_ar = non_blank p.notes_ar;
}

-- The guards of `raise`.
unfoldable pub refused_raise : RaiseParams → Option InvoiceConflict
refused_raise p =
    if is_empty (trim p.number)
    then some InvoiceConflict.no_number
    else if length p.lines == 0
    then some InvoiceConflict.no_lines
    else if ltb_ℤ p.due_on p.issued_on
    then some InvoiceConflict.due_before_issue
    else if ltb_ℤ p.vat_basis_points (pos 0) || ltb_ℤ (pos 10_000) p.vat_basis_points
    then some InvoiceConflict.not_a_vat_rate
    else refused_line p.currency p.lines

-- The new invoice, with the event that tells of it and of its total.
abbrev pub raised_invoice : RaiseParams → Money → Invoice
raised_invoice p t = record {
  state = raised_state p;
  pending =
      InvoiceEvent.raised p.id p.issued_on p.client_id p.statement_id (trim p.number) p.branch_code
        t.minor_units p.currency
      ∷ [];
}

-- `Invoice.raise`
unfoldable pub raise : RaiseParams → Outcome InvoiceConflict Invoice
raise p = elim (refused_raise p) [
  | some why ↦ err why
  | none ↦ elim (total (raised_state p)) [
    | Throws.threw e ↦ threw e
    | Throws.done t ↦ ok (raised_invoice p t)
  ]
]

abbrev pub amount_and_discount : Payment → List Money
amount_and_discount p = p.amount ∷ p.discount ∷ []

abbrev pub is_less : Order → Bool
is_less less = true
is_less equal = false
is_less greater = false

-- The state after a payment that was accepted.
abbrev pub with_payment : InvoiceSnapshot → Payment → Bool → InvoiceSnapshot
with_payment s p settled = record s {
  payments = push s.payments p;
  settlement = if settled then Settlement.paid else Settlement.part_paid;
  overdue_since = if settled then none else s.overdue_since;
}

-- Whether what was paid and forgiven, with this payment, covers the total.
unfoldable pub is_settled_by : InvoiceSnapshot → Payment → Throws Bool
is_settled_by s p =
    Throws.◌>>=◌ (sum (flat_map amount_and_discount (push s.payments p)) s.currency) (λ covered.
      Throws.◌>>=◌ (total s)
        (λ t. Throws.◌>>=◌ (compare_money covered t) (λ o. Throws.done (not (is_less o)))))

-- The guards of `recordPayment`.
unfoldable pub refused_payment : InvoiceSnapshot → Payment → Option InvoiceConflict
refused_payment s p =
    if is_cancelled s.settlement
    then some InvoiceConflict.was_cancelled
    else if not (eq_currency p.amount.currency s.currency)
    then some InvoiceConflict.payment_in_other_currency
    else if not (is_positive p.amount)
    then some InvoiceConflict.payment_for_nothing
    else if ltb_ℤ p.received_on s.issued_on
    then some InvoiceConflict.payment_predates_invoice
    else if any (λ q. eq_text q.id p.id) s.payments
    then some InvoiceConflict.payment_recorded_already
    else none

-- `recordPayment`
unfoldable pub record_payment : Payment → InvoiceMethod (Unit {0})
record_payment p = do
  s ← this_state
  refuse (refused_payment s p)
  settled ← call (is_settled_by s p)
  assign (with_payment s p settled)
  left ← call (balance (with_payment s p settled))
  emit (
      InvoiceEvent.payment_received s.id p.received_on s.client_id p.id p.amount.minor_units
        left.minor_units settled)

-- `markOverdue`
unfoldable pub mark_overdue : Instant → InvoiceMethod (Unit {0})
mark_overdue as_of = do
  s ← this_state
  refuse_if (is_paid s.settlement || is_cancelled s.settlement) InvoiceConflict.is_settled
  refuse_if (leb_ℤ as_of s.due_on) InvoiceConflict.not_late_yet
  if is_some s.overdue_since then pure tt else (do
    assign (record s { overdue_since = some as_of })
    left ← call (balance (record s { overdue_since = some as_of }))
    emit (InvoiceEvent.overdue s.id as_of s.client_id s.number left.minor_units s.due_on))

-- `cancel`
unfoldable pub cancel : Text → Instant → InvoiceMethod (Unit {0})
cancel reason now = do
  s ← this_state
  if is_cancelled s.settlement then pure tt else (do
    refuse_if (ltb 0 (length s.payments)) InvoiceConflict.money_was_received
    refuse_if (ltb (length (trim reason)) 3) InvoiceConflict.no_reason
    assign (record s { settlement = Settlement.cancelled; overdue_since = none })
    emit (InvoiceEvent.cancelled s.id now s.client_id s.statement_id (trim reason)))
