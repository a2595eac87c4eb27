-- ===== src/Billing/Sweep.antt =====
-- The morning sweep for late invoices: `sweepOverdue` of
-- packages/modules/billing/application/settle-invoice.ts, over the query `lateAsOf` of
-- packages/modules/billing/infrastructure/invoice.repository.ts. The order in
-- which that query gives its rows is an argument, as invoices due at one instant come in any order.
pub mod Starved
pub mod Order
pub mod Tests
use amc_system.Base.{
  ℕ, ◌+◌, Bool, true, false, ◌&&◌, List, [], ◌∷◌, map, filter, take, if◌then◌else◌,
}
use amc_system.Base.Int.{ltb_ℤ, leb_ℤ}
use amc_system.Base.Text.{eq_text}
use amc_system.Kernel.Throws as Throws
use amc_system.Kernel.Throws.{Throws}
use amc_system.Kernel.Aggregate.{ok, err, threw}
use amc_system.Kernel.Duration.{Instant}
use amc_system.Billing.Invoice.State.{Settlement}
use amc_system.Billing.Invoice.{Invoice, is_overdue, mark_overdue}

-- `settlement IN ('issued', 'part_paid')`
abbrev pub is_unsettled : Settlement → Bool
is_unsettled Settlement.issued = true
is_unsettled Settlement.part_paid = true
is_unsettled Settlement.paid = false
is_unsettled Settlement.cancelled = false

-- The WHERE of `lateAsOf`.
abbrev pub is_late : Instant → Invoice → Bool
is_late as_of a = is_unsettled a.state.settlement && ltb_ℤ a.state.due_on as_of

-- `lateAsOf`, where `order` is the database's `ORDER BY due_on`.
abbrev pub late_as_of : (List Invoice → List Invoice) → Instant → ℕ → List Invoice → List Invoice
late_as_of order as_of limit invoices = take limit (order (filter (is_late as_of) invoices))

-- `save` of an invoice that is in the table.
abbrev pub save_invoice : Invoice → List Invoice → List Invoice
save_invoice a invoices =
    map (λ b. if eq_text b.state.id a.state.id then record a { pending = [] } else b) invoices

-- The loop of `sweepOverdue`, with what was marked and skipped so far. An exception leaves it.
unfoldable pub sweep_each :
    Instant → List Invoice → ℕ → ℕ → List Invoice → Throws (ℕ × ℕ) × List Invoice
sweep_each as_of [] marked skipped invoices = (Throws.done (marked, skipped), invoices)
sweep_each as_of (a ∷ late) marked skipped invoices =
    let next = sweep_each as_of late marked (skipped + 1) invoices in
    if is_overdue a.state then next else elim (mark_overdue as_of a).0 [
      | ok _ ↦
          sweep_each as_of late (marked + 1) skipped
            (save_invoice (mark_overdue as_of a).1 invoices)
      | err _ ↦ sweep_each as_of late marked (skipped + 1) invoices
      | threw e ↦ (Throws.threw e, invoices)
    ]

-- `sweepOverdue`
abbrev pub sweep_overdue :
    (List Invoice → List Invoice) → Instant → ℕ → List Invoice → Throws (ℕ × ℕ) × List Invoice
sweep_overdue order as_of limit invoices =
    sweep_each as_of (late_as_of order as_of limit invoices) 0 0 invoices
