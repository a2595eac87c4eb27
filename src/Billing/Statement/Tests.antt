-- ===== src/Billing/Statement/Tests.antt =====
-- A statement at concrete arguments: two lines, one by the hour and one for a fixed fee.
use amc_system.Base.{◌≡◌, refl, false, List, [], ◌∷◌, none, some}
use amc_system.Base.Int.{ℤ, pos, ◌+ℤ◌, ◌*ℤ◌, negate}
use amc_system.Base.Text.{Text, text, eq_text}
use amc_system.Kernel.Throws.{done}
use amc_system.Kernel.Aggregate.{run_all}
use amc_system.Kernel.Money.{
  Money, money, Currency, eq_currency, add, same_currency, assert_safe_integer, is_safe_integer,
  sum, sum_from, scale_by_ratio, divide_rounding,
}
use amc_system.Kernel.Rate.{per_hour, amount_for}
use amc_system.Kernel.Duration.{duration}
use amc_system.Billing.Statement.State.{Standing, Pricing, StatementLine}
use amc_system.Billing.Statement.{
  Statement, Command, leave_out, bill_at, sign_off, convert, call_off, execute, total, total_worked,
  worth, line_amount, amounts_of, as_worked, entry_ids,
}
use amc_system.Billing.Statement.Lines.{AreDistinct}
use amc_system.Billing.Statement.Review.{works, review_keeps_work}
use amc_system.Billing.Statement.Standings.{
  ◌⟶◌, IsBacked, statement_follows_diagram, approved_for_something,
}

abbrev aed : ℤ → Money
aed n = money n Currency.aed

abbrev line : Text → Pricing → Text → StatementLine
line id pricing entry = record {
  id = id;
  project_id = text "p1";
  service = text "audit";
  performed_on = pos 10;
  user_id = some (text "u1");
  worked = duration (pos 5_400);
  pricing = pricing;
  entry_ids = entry ∷ [];
  excluded = false;
  excluded_reason = none;
  adjusted_to = none;
  adjusted_reason = none;
}

abbrev drafted : Statement
drafted = record {
  state = record {
    id = text "s1";
    client_id = text "c1";
    period_start = pos 0;
    period_end = pos 100;
    state = Standing.draft;
    currency = Currency.aed;
    lines =
        line (text "a") (Pricing.hourly (aed (pos 30_000))) (text "e1")
        ∷ line (text "b") (Pricing.fixed (aed (pos 20_000))) (text "e2")
        ∷ [];
    created_by = text "u1";
    created_at = pos 100;
    approved_at = none;
    approved_by = none;
  };
  pending = [];
}

abbrev calls : List Command
calls =
    leave_out (text "b") (text "goodwill") (pos 101)
    ∷ bill_at (text "a") (aed (pos 40_000)) (text "agreed") (pos 102)
    ∷ sign_off (text "u9") (pos 103)
    ∷ convert (pos 104)
    ∷ call_off (text "too late") (pos 105)
    ∷ []

-- An hour and a half at AED 300, and AED 200.
worth_before : total drafted.state ≡ done (aed (pos 65_000))
unfolding total line_amount worth amounts_of per_hour amount_for sum sum_from add same_currency
    eq_currency assert_safe_integer is_safe_integer scale_by_ratio divide_rounding negate ◌+ℤ◌ ◌*ℤ◌
worth_before = refl

distinct : AreDistinct (works drafted)
unfolding eq_text
distinct = (refl, (refl, tt))

review_keeps_work_example :
    let a' = run_all execute calls drafted in
    (entry_ids a'.state ≡ entry_ids drafted.state)
    × (total_worked a'.state ≡ total_worked drafted.state)
    × (amounts_of as_worked a'.state.lines ≡ amounts_of as_worked drafted.state.lines)
review_keeps_work_example = review_keeps_work calls drafted distinct

approved_for_something_example : IsBacked (run_all execute calls drafted).state
approved_for_something_example = approved_for_something calls drafted refl

statement_follows_diagram_example :
    (Standing.draft ⟶ (execute (sign_off (text "u9") (pos 103)) drafted).1.state.state)
    × (Standing.draft ≡ Standing.invoiced
        → (execute (sign_off (text "u9") (pos 103)) drafted).1 ≡ drafted)
statement_follows_diagram_example =
    statement_follows_diagram (sign_off (text "u9") (pos 103)) drafted
