-- ===== src/Billing/Sweep/Tests.antt =====
-- A sweep that takes one invoice at once, over two late ones.
use amc_system.Base.{◌≡◌, Option, none, some, [], ◌∷◌, arith}
use amc_system.Base.Int.{pos}
use amc_system.Base.Text.{Text, text}
use amc_system.Kernel.Throws.{done}
use amc_system.Kernel.Money.{Currency}
use amc_system.Kernel.Duration.{Instant}
use amc_system.Billing.Invoice.State.{Settlement}
use amc_system.Billing.Invoice.{Invoice}
use amc_system.Billing.Sweep.{sweep_overdue}
use amc_system.Billing.Sweep.Order.{insert_due, sort_by_due, sort_by_due-IsOrder}
use amc_system.Billing.Sweep.Starved.{sweep_overdue_starves}

abbrev invoice : Text → Instant → Option Instant → Invoice
invoice id due_on overdue_since = record {
  state = record {
    id = id;
    client_id = text "c1";
    statement_id = text "s1";
    branch_code = none;
    number = id;
    settlement = Settlement.issued;
    currency = Currency.aed;
    lines = [];
    payments = [];
    vat_basis_points = pos 500;
    issued_on = pos 0;
    due_on = due_on;
    overdue_since = overdue_since;
    issued_by = text "u1";
    notes_en = none;
    notes_ar = none;
  };
  pending = [];
}

abbrev old : Invoice
old = invoice (text "i1") (pos 10) (some (pos 12))

abbrev late : Invoice
late = invoice (text "i2") (pos 20) none

sweep_overdue_starves_example :
    sweep_overdue sort_by_due (pos 9_000) 1 (late ∷ old ∷ []) ≡ (done (0, 1), late ∷ old ∷ [])
unfolding sort_by_due insert_due
sweep_overdue_starves_example =
    sweep_overdue_starves sort_by_due (pos 9_000) 1 (late ∷ old ∷ []) sort_by_due-IsOrder
      (λ _. omega arith, (λ unmarked. absurd (cc), tt))
