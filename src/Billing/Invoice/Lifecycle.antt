-- ===== src/Billing/Invoice/Lifecycle.antt =====
-- Calls on an invoice (`recordPayment`, `markOverdue`, `cancel`), one and several in a row.
use amc_system.Base.{◌≤◌, ◌≡◌, ap, List, [], ◌∷◌, arith, ◌⊎◌, ◌↔◌, length}
use amc_system.Base.Int.{◌<ℤ◌}
use amc_system.Base.Text.{Text, trim}
use amc_system.Kernel.Aggregate.{ok, err}
use amc_system.Kernel.Duration.{Instant}
use amc_system.Billing.Invoice.State.{Settlement, Payment, InvoiceConflict}
use amc_system.Billing.Invoice.{Invoice, InvoiceMethod, record_payment, mark_overdue, cancel}
use amc_system.Billing.Invoice.Payments.{
  Way, refused, uncovered, unbalanced, taken_with, record_payment-Way,
}

-- The calls that change an invoice.
pub data Command : Type 0 where
  pay : Payment → Command
  fall_due : Instant → Command
  call_off : Text → Instant → Command

unfoldable pub execute : Command → InvoiceMethod (Unit {0})
execute (Command.pay p) = record_payment p
execute (Command.fall_due as_of) = mark_overdue as_of
execute (Command.call_off reason now) = cancel reason now

-- Calls in a row: each meets the invoice that the one before it left, however that one ended.
unfoldable pub execute_all : List Command → Invoice → Invoice
execute_all [] a = a
execute_all (c ∷ cs) a = execute_all cs (execute c a).1

unpaid_unchanged :
    (p : Payment) (a : Invoice) (e : InvoiceConflict)
    → Way p a (record_payment p a)
    → (record_payment p a).0 ≡ err e
    → (record_payment p a).1 ≡ a
unpaid_unchanged p a e (refused f r) h = ap (λ t. t.1) r
unpaid_unchanged p a e (uncovered f r) h = absurd (cc (ap (λ t. t.0) r))
unpaid_unchanged p a e (unbalanced f s fine covers r) h = absurd (cc (ap (λ t. t.0) r))
unpaid_unchanged p a e (taken_with s left fine covers owes r) h = absurd (cc (ap (λ t. t.0) r))

mark_overdue_refused :
    (as_of : Instant) (a : Invoice) (e : InvoiceConflict)
    → (mark_overdue as_of a).0 ≡ err e
    → (mark_overdue as_of a).1 ≡ a
unfolding mark_overdue
mark_overdue_refused as_of a e h = ground arith

cancel_refused :
    (reason : Text) (now : Instant) (a : Invoice) (e : InvoiceConflict)
    → (cancel reason now a).0 ≡ err e
    → (cancel reason now a).1 ≡ a
unfolding cancel
cancel_refused reason now a e h = ground arith

-- A call that is refused changes nothing and tells of nothing.
pub execute_refused :
    (c : Command) (a : Invoice) {e : InvoiceConflict}
    → (execute c a).0 ≡ err e
    → (execute c a).1 ≡ a
unfolding execute
execute_refused (Command.pay p) a {e} h = unpaid_unchanged p a e (record_payment-Way p a) h
execute_refused (Command.fall_due as_of) a {e} h = mark_overdue_refused as_of a e h
execute_refused (Command.call_off reason now) a {e} h = cancel_refused reason now a e h

-- The sweep keeps the first day: once it has marked an invoice, marking it on any later day past
-- the due day ends well, and changes and tells nothing.
pub mark_overdue_once :
    (first later : Instant) (a : Invoice) {a' : Invoice}
    → mark_overdue first a ≡ (ok tt, a')
    → a.state.due_on <ℤ later
    → mark_overdue later a' ≡ (ok tt, a')
unfolding mark_overdue
mark_overdue_once first later a h late = ground arith

-- Cancelling ends well exactly where it is done already, or where no money was received and the
-- trimmed reason has three characters at least.
pub cancel_iff :
    (reason : Text) (now : Instant) (a : Invoice)
    → ((cancel reason now a).0 ≡ ok tt) ↔ (
        (a.state.settlement ≡ Settlement.cancelled)
        ⊎ ((a.state.payments ≡ []) × (3 ≤ length (trim reason))))
unfolding cancel
cancel_iff reason now a = (λ h. grind arith, λ h. grind arith)
