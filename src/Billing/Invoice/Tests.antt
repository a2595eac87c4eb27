-- ===== src/Billing/Invoice/Tests.antt =====
-- An invoice at concrete arguments: one line at 5% VAT, a first payment and the rest.
use amc_system.Base.{◌≡◌, refl, true, false, List, [], ◌∷◌, All, none, some, flat_map, push}
use amc_system.Base.Int.{ℤ, pos, ◌+ℤ◌, ◌-ℤ◌, ◌*ℤ◌, negate}
use amc_system.Base.Text.{Text, text, eq_text, trim}
use amc_system.Kernel.Throws.{done}
use amc_system.Kernel.Aggregate.{ok, err}
use amc_system.Kernel.Money.{
  Money, money, Currency, eq_currency, add, subtract, same_currency, assert_safe_integer,
  is_safe_integer, sum, sum_from, scale_by_ratio, divide_rounding, percentage_in_basis_points,
  compare_money,
}
use amc_system.Kernel.Money.Sums.{InCurrency}
use amc_system.Kernel.Duration.{duration}
use amc_system.Billing.Invoice.State.{
  Settlement, InvoiceLine, Payment, RaiseParams, InvoiceConflict, InvoiceEvent,
}
use amc_system.Billing.Invoice.{
  Invoice, net, vat, total, paid, discounted, outstanding, balance, refused_line, refused_raise,
  raise, raised_state, raised_invoice, is_settled_by, refused_payment, record_payment, mark_overdue,
  cancel, amount_and_discount,
}
use amc_system.Billing.Invoice.Raising.{raise-returns}
use amc_system.Billing.Invoice.Payments.{IsAcceptable, Owes, taken, record_payment_settles}
use amc_system.Billing.Invoice.Lifecycle.{Command, pay, fall_due, call_off, execute, execute_all}
use amc_system.Billing.Invoice.Validity.{IsValid, execute_all-raised}

abbrev aed : ℤ → Money
aed n = money n Currency.aed

abbrev line : InvoiceLine
line = record {
  id = text "l1";
  project_id = text "p1";
  service = text "audit";
  description_en = text "Audit";
  description_ar = [];
  worked = duration (pos 36000);
  amount = aed (pos 100_000);
  quantity_centi = pos 1000;
  unit_rate = some (aed (pos 10_000));
}

abbrev params : RaiseParams
params = record {
  id = text "i1";
  client_id = text "c1";
  statement_id = text "s1";
  number = text " AMC-1 ";
  branch_code = none;
  currency = Currency.aed;
  lines = line ∷ [];
  vat_basis_points = pos 500;
  issued_on = pos 1_000;
  due_on = pos 2_000;
  issued_by = text "u1";
  notes_en = some (text " ");
  notes_ar = none;
}

abbrev payment : Text → ℤ → ℤ → Payment
payment id amount discount = record {
  id = id;
  amount = aed amount;
  received_on = pos 1_500;
  method = text "cash";
  reference = none;
  cheque_number = none;
  cheque_date = none;
  bank_name = none;
  discount = aed discount;
  discount_reason = none;
  recorded_by = text "u2";
}

abbrev issued : Invoice
issued = raised_invoice params (aed (pos 105_000))

-- The total is the net and its VAT.
issued_total : total (raised_state params) ≡ done (aed (pos 105_000))
unfolding total net vat sum sum_from add same_currency eq_currency assert_safe_integer
    is_safe_integer percentage_in_basis_points scale_by_ratio divide_rounding negate ◌+ℤ◌ ◌*ℤ◌
issued_total = refl

no_refusal : refused_raise params ≡ none
unfolding refused_raise refused_line trim eq_currency
no_refusal = refl

raised : raise params ≡ ok issued
raised = raise-returns params (aed (pos 105_000)) no_refusal issued_total

-- Part of the total, then the rest with a small discount.
abbrev first_payment : Payment
first_payment = payment (text "a") (pos 50_000) (pos 0)

abbrev second_payment : Payment
second_payment = payment (text "b") (pos 54_000) (pos 1_000)

abbrev part_paid_invoice : Invoice
part_paid_invoice = taken first_payment issued false (aed (pos 55_000))

abbrev paid_invoice : Invoice
paid_invoice = taken second_payment part_paid_invoice true (aed (pos 0))

first_taken : record_payment first_payment issued ≡ (ok tt, part_paid_invoice)
unfolding record_payment refused_payment is_settled_by balance outstanding total net vat paid
    discounted sum sum_from add subtract same_currency eq_currency assert_safe_integer
    is_safe_integer percentage_in_basis_points scale_by_ratio divide_rounding compare_money negate
    eq_text ◌+ℤ◌ ◌-ℤ◌ ◌*ℤ◌
first_taken = refl

second_taken : record_payment second_payment part_paid_invoice ≡ (ok tt, paid_invoice)
unfolding record_payment refused_payment is_settled_by balance outstanding total net vat paid
    discounted sum sum_from add subtract same_currency eq_currency assert_safe_integer
    is_safe_integer percentage_in_basis_points scale_by_ratio divide_rounding compare_money negate
    eq_text ◌+ℤ◌ ◌-ℤ◌ ◌*ℤ◌
second_taken = refl

record_payment_settles_example :
    IsAcceptable part_paid_invoice.state second_payment
    × (paid_invoice.state.payments ≡ push part_paid_invoice.state.payments second_payment)
    × All (InCurrency Currency.aed) (flat_map amount_and_discount paid_invoice.state.payments)
    × ((left : Money) × (balance paid_invoice.state ≡ done left) × Owes paid_invoice.state left)
    × (paid_invoice.state.settlement ≡ Settlement.paid → paid_invoice.state.overdue_since ≡ none)
record_payment_settles_example =
    record_payment_settles second_payment part_paid_invoice second_taken

abbrev calls : List Command
calls =
    fall_due (pos 2_001)
    ∷ pay first_payment
    ∷ pay second_payment
    ∷ call_off (text "no") (pos 9)
    ∷ []

execute_all-raised_example : IsValid (execute_all calls issued).state
execute_all-raised_example = execute_all-raised params calls raised

cancelled_late :
    (execute (call_off (text "mistake") (pos 9)) part_paid_invoice).0
    ≡ err InvoiceConflict.money_was_received
unfolding execute cancel
cancelled_late = refl

abbrev late_invoice : Invoice
late_invoice = record {
  state = record issued.state { overdue_since = some (pos 2_001) };
  pending = push issued.pending (
      InvoiceEvent.overdue (text "i1") (pos 2_001) (text "c1") (trim (text " AMC-1 ")) (pos 105_000)
        (pos 2_000));
}

marked : mark_overdue (pos 2_001) issued ≡ (ok tt, late_invoice)
unfolding mark_overdue balance outstanding total net vat paid discounted sum sum_from add subtract
    same_currency eq_currency assert_safe_integer is_safe_integer percentage_in_basis_points
    scale_by_ratio divide_rounding negate ◌+ℤ◌ ◌-ℤ◌ ◌*ℤ◌
marked = refl
