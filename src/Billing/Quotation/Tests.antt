-- ===== src/Billing/Quotation/Tests.antt =====
-- A quotation at concrete arguments: two and a half hours with a discount, at 5% VAT.
use amc_system.Base.{◌≡◌, refl, [], ◌∷◌, none, some, push, ap, ◌∙◌}
use amc_system.Base.Int.{ℤ, pos, ◌+ℤ◌, ◌-ℤ◌, ◌*ℤ◌, ◌≤ℤ◌, negate}
use amc_system.Base.Text.{text, trim, non_blank}
use amc_system.Kernel.Throws.{done}
use amc_system.Kernel.Result as Result
use amc_system.Billing.Quotation.Worth.{total-nonneg}
use amc_system.Kernel.Aggregate.{run_all, ok}
use amc_system.Kernel.Money.{
  Money, money, Currency, eq_currency, add, subtract, same_currency, assert_safe_integer,
  is_safe_integer, sum, sum_from, scale_by_ratio, divide_rounding, percentage_in_basis_points,
  compare_money,
}
use amc_system.Billing.Quotation.State.{
  Standing, Pricing, QuotationLine, QuotationEvent, DraftParams,
}
use amc_system.Billing.Quotation.Amounts.{
  quoted_price, line_net, line_vat, line_chargeable, amounts_of, sum_of, subtotal, discount_total,
  net, vat_total, total,
}
use amc_system.Billing.Quotation.{
  Quotation, offer, execute, issue_link, draft, add_line, refused_price,
}
use amc_system.Billing.Quotation.Figures.{figures_agree}
use amc_system.Billing.Quotation.Standings.{IsSameOffer, execute-IsSameOffer}

abbrev aed : ℤ → Money
aed n = money n Currency.aed

abbrev line : QuotationLine
line = record {
  id = text "q1";
  service_code = none;
  description_en = text "Advice";
  description_ar = [];
  pricing = Pricing.hours (pos 250) (aed (pos 33_333));
  discount = aed (pos 333);
  vat_basis_points = some (pos 500);
}

abbrev quotation : Standing → Quotation
quotation standing = record {
  state = record {
    id = text "q";
    client_id = text "c1";
    branch_code = none;
    reference = text "Q-1";
    state = standing;
    currency = Currency.aed;
    lines = line ∷ [];
    valid_until = some (pos 900);
    sent_at = none;
    sent_via = none;
    link_token_hash = none;
    link_expires_at = none;
    link_opened_at = none;
    decided_by = none;
    decided_at = none;
    notes_en = none;
    notes_ar = none;
    created_by = text "u1";
    created_at = pos 0;
  };
  pending = [];
}

abbrev drafted : Quotation
drafted = quotation Standing.draft

abbrev with_client : Quotation
with_client = quotation Standing.sent

-- The half fils of two and a half hours at AED 333.33 is rounded up.
is_subtotal : subtotal drafted.state ≡ done (aed (pos 83_333))
unfolding subtotal sum_of amounts_of quoted_price sum sum_from add same_currency eq_currency
    assert_safe_integer is_safe_integer scale_by_ratio divide_rounding negate ◌+ℤ◌ ◌*ℤ◌
is_subtotal = refl

is_discount_total : discount_total drafted.state ≡ done (aed (pos 333))
unfolding discount_total sum_of amounts_of sum sum_from add same_currency eq_currency
    assert_safe_integer ◌+ℤ◌
is_discount_total = refl

is_net : net drafted.state ≡ done (aed (pos 83_000))
unfolding net sum_of amounts_of line_net quoted_price sum sum_from add subtract same_currency
    eq_currency assert_safe_integer is_safe_integer scale_by_ratio divide_rounding negate ◌+ℤ◌ ◌-ℤ◌
    ◌*ℤ◌
is_net = refl

is_vat_total : vat_total drafted.state ≡ done (aed (pos 4_150))
unfolding vat_total sum_of amounts_of line_vat line_net quoted_price sum sum_from add subtract
    same_currency eq_currency assert_safe_integer is_safe_integer percentage_in_basis_points
    scale_by_ratio divide_rounding negate ◌+ℤ◌ ◌-ℤ◌ ◌*ℤ◌
is_vat_total = refl

is_total : total drafted.state ≡ done (aed (pos 87_150))
unfolding total sum_of amounts_of line_chargeable line_vat line_net quoted_price sum sum_from add
    subtract same_currency eq_currency assert_safe_integer is_safe_integer
    percentage_in_basis_points scale_by_ratio divide_rounding negate ◌+ℤ◌ ◌-ℤ◌ ◌*ℤ◌
is_total = refl

figures_agree_example :
    (pos 83_000 ≡ pos 83_333 -ℤ pos 333) × (pos 87_150 ≡ pos 83_000 +ℤ pos 4_150)
figures_agree_example =
    figures_agree drafted.state is_subtotal is_discount_total is_net is_vat_total is_total

execute-IsSameOffer_example :
    IsSameOffer with_client.state (execute (offer line) with_client).1.state
execute-IsSameOffer_example = execute-IsSameOffer (offer line) with_client refl

abbrev with_link : Quotation
with_link = record {
  state = record with_client.state {
    link_token_hash = some (text "hash");
    link_expires_at = some (pos 500);
  };
  pending = push [] (QuotationEvent.link_issued (text "q") (pos 100) (text "c1") (pos 500));
}

link_given : issue_link (text "hash") (pos 500) (pos 100) with_client ≡ (ok tt, with_link)
unfolding issue_link
link_given = refl

-- The same quotation, from its first call on.
abbrev params : DraftParams
params = record {
  id = text "q";
  client_id = text "c1";
  reference = text " Q-1 ";
  currency = Currency.aed;
  created_by = text "u1";
  branch_code = none;
  valid_until = some (pos 900);
  notes_en = none;
  notes_ar = none;
  now = pos 0;
}

abbrev empty : Quotation
empty = record { state = record drafted.state { lines = [] }; pending = [] }

draft_made : draft params ≡ Result.ok empty
unfolding draft trim non_blank
draft_made = refl

line_taken : add_line line empty ≡ (ok tt, drafted)
unfolding add_line refused_price quoted_price compare_money trim same_currency eq_currency
    assert_safe_integer is_safe_integer scale_by_ratio divide_rounding negate ◌+ℤ◌ ◌*ℤ◌
line_taken = refl

is_total_after : total (run_all execute (offer line ∷ []) empty).state ≡ done (aed (pos 87_150))
unfolding run_all execute
is_total_after = ap (λ r. total r.1.state) line_taken ∙ is_total

total-nonneg_example : pos 0 ≤ℤ pos 87_150
total-nonneg_example = total-nonneg params (offer line ∷ []) draft_made is_total_after
