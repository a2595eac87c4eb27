-- ===== src/Billing/Tests.antt =====
-- A month of one client at concrete arguments: three entries, the statement that is drafted from them,
-- the bill for it, and the release of its hours.
use amc_system.Base.{
  ℕ, ◌≡◌, refl, ap, true, false, none, some, List, [], ◌∷◌, map, All, push, length, ltb, ◌==◌,
  if◌then◌else◌, arith, ◌+◌,
}
use amc_system.Base.Int.{◌≤ℤ◌, ltb_ℤ, ℤ, pos, ◌+ℤ◌, ◌*ℤ◌, negate}
use amc_system.Base.Text.{
  Text, text, eq_text, eq_of_eq_text, eq_text_refl, trim, trim_start, non_blank, is_space,
}
use amc_system.Kernel.Caller.{CallerLike, may}
use amc_system.Kernel.Throws.{done}
use amc_system.Kernel.Aggregate.{ok, err}
use amc_system.Kernel.Money.{
  money, Currency, eq_currency, of_minor, is_safe_integer, add, sum, sum_from, same_currency,
  assert_safe_integer, scale_by_ratio, divide_rounding, percentage_in_basis_points,
}
use amc_system.Kernel.Rate.{per_hour, amount_for}
use amc_system.Kernel.Duration.{of_seconds, duration}
use amc_system.Billing.Statement.State.{Standing, Pricing, StatementLine}
use amc_system.Billing.Statement as Statement
use amc_system.Billing.Statement.{
  Statement, total, line_amount, worth, amounts_of, entry_ids, is_invoiced, mark_invoiced,
}
use amc_system.Billing.Invoice as Invoice
use amc_system.Billing.Invoice.{Invoice, net, raise, refused_raise, refused_line}
use amc_system.Billing.Store.{
  WorkPricing, hourly, fixed, BillableWork, Row, Store, IsKeyed, is_unbilled, for_client,
  find_by_id, read_back, save,
}
use amc_system.Billing.Store.Attaching.{Among, named_on}
use amc_system.Billing.Generate as Generate
use amc_system.Billing.Generate.{
  RateReader, Request, no_unbilled_hours, eq_key, put, group_from, group_by, pricing_of, group_line,
  lines_from, attach_all, seconds_of, entries_of,
}
use amc_system.Billing.Generate.Grouping.{seconds_on, occurrences, generated_lines_conserve}
use amc_system.Base.Date.{day_of}
use amc_system.Billing.Generate.Runs.{generate_all}
use amc_system.Billing.Generate.Once.{generate_once}
use amc_system.Billing.Raise as Raise
use amc_system.Billing.Raise.{Ports, invoiced_already, service_names, printed_as, billed_lines}
use amc_system.Billing.Raise.Billed.{raise_bills_once}
use amc_system.Billing.Release as Release
use amc_system.Billing.Release.{no_hours}
use amc_system.Billing.Release.Freeing.{is_on, release_frees}

abbrev row : Text → WorkPricing → ℤ → Row
row id pricing seconds = record {
  work = record {
    entry_id = id;
    project_id = text "p1";
    client_service_id = text "cs1";
    service = text "audit";
    performed_on = pos 86_400_000;
    user_id = some (text "u1");
    seconds = seconds;
    pricing = pricing;
    fee_minor = some (pos 20_000);
  };
  client_id = text "c1";
  billable = true;
  finished = true;
  approved = true;
  statement_line_id = none;
}

abbrev rows : List Row
rows =
    row (text "e1") hourly (pos 3_600)
    ∷ row (text "e2") fixed (pos 60)
    ∷ row (text "e3") hourly (pos 1_800)
    ∷ []

abbrev waiting : Store
waiting = record { rows = rows; statements = λ id. none; invoices = []; numbers = 0 }

abbrev rates : RateReader
rates = record {
  per_hour_on = λ client_id day. money (pos 30_000) Currency.aed;
  currency_for = λ client_id. Currency.aed;
}

abbrev ids : ℕ → Text
ids n = (100 + n) ∷ []

abbrev month : Request
month = record {
  created_by = text "u1";
  client_id = text "c1";
  from = pos 0;
  to = pos 172_800_000;
  now = pos 172_900_000;
}

abbrev generated : Store
generated = (Generate.execute rates ids month waiting).1

generated_well : Generate.execute rates ids month waiting ≡ (ok (102 ∷ [], 2), generated)
unfolding Generate.execute is_unbilled eq_text lines_from group_line pricing_of of_seconds of_minor
    is_safe_integer eq_currency group_from put eq_key Statement.draft ◌+ℤ◌
generated_well = refl

-- The days from the first on of the month that was billed.
abbrev part : Request
part = record month { created_by = text "u2"; from = pos 86_400_000 }

generate_once_example :
    let last = generate_all (record { rates = rates; ids = ids; request = month } ∷ []) generated in
    ((x : Text)
      → Among x (entries_of (for_client (text "c1") month.from month.to waiting.rows))
      → ¬ Among x (entries_of (for_client (text "c1") part.from part.to last.rows)))
    × (text "c1" ≡ text "c1"
        → day_of month.from ≤ℤ day_of part.from
        → day_of part.to ≤ℤ day_of month.to
        → ltb_ℤ part.to part.from ≡ false
        → Generate.execute rates ids part last ≡ (err no_unbilled_hours, last))
generate_once_example =
    generate_once rates rates ids ids month part
      (record { rates = rates; ids = ids; request = month } ∷ []) waiting generated_well

abbrev work : List BillableWork
work = map (λ (r : Row). r.work) rows

abbrev line : Text → ℤ → Pricing → List Text → StatementLine
line id seconds pricing entries = record {
  id = id;
  project_id = text "p1";
  service = text "audit";
  performed_on = pos 86_400_000;
  user_id = some (text "u1");
  worked = duration seconds;
  pricing = pricing;
  entry_ids = entries;
  excluded = false;
  excluded_reason = none;
  adjusted_to = none;
  adjusted_reason = none;
}

abbrev lines : List StatementLine
lines =
    line (ids 0) (pos 5_400) (Pricing.hourly (money (pos 30_000) Currency.aed))
      (text "e1" ∷ text "e3" ∷ [])
    ∷ line (ids 1) (pos 60) (Pricing.fixed (money (pos 20_000) Currency.aed)) (text "e2" ∷ [])
    ∷ []

lines_made : lines_from rates (text "c1") Currency.aed ids 0 (group_by work) ≡ ok lines
unfolding eq_text lines_from group_line pricing_of of_seconds of_minor is_safe_integer eq_currency
    group_from put eq_key ◌+ℤ◌
lines_made = refl

generated_lines_conserve_example :
    (seconds_on lines ≡ seconds_of work)
    × ((x : Text) → occurrences x (named_on lines) ≡ occurrences x (entries_of work))
generated_lines_conserve_example =
    generated_lines_conserve rates (text "c1") Currency.aed ids work lines_made

abbrev approved : Statement
approved = record {
  state = record {
    id = text "s1";
    client_id = text "c1";
    period_start = pos 0;
    period_end = pos 172_800_000;
    state = Standing.approved;
    currency = Currency.aed;
    lines = lines;
    created_by = text "u1";
    created_at = pos 172_900_000;
    approved_at = some (pos 172_900_000);
    approved_by = some (text "u9");
  };
  pending = [];
}

-- The store that keeps one statement, with every row on its first line.
abbrev keeping : Statement → Store
keeping a = record {
  rows = map (λ (r : Row). record r { statement_line_id = some (ids 0) }) rows;
  statements = λ id. if eq_text id a.state.id then some a else none;
  invoices = [];
  numbers = 7;
}

keeping-IsKeyed : (a : Statement) → IsKeyed (keeping a)
keeping-IsKeyed a id b h = ground (arith, eq_of_eq_text id a.state.id)

abbrev ports : Ports
ports = record {
  number_at = λ n. text " INV-8 ";
  vat_basis_points = pos 500;
  payment_terms_days = pos 30;
  now = pos 180_000_000;
  ids = ids;
  is_live = λ code. true;
  any_live = false;
  month_en = λ day. text "January 1970";
  month_ar = λ day. text "1/1970";
}

abbrev billed : Store
billed = (Raise.execute ports (text "u9") (text "s1") none (keeping approved)).1

bill_is_made :
    (Raise.execute ports (text "u9") (text "s1") none (keeping approved)).0
    ≡ ok (102 ∷ [], text " INV-8 ")
unfolding Raise.execute find_by_id eq_text billed_lines line_amount worth per_hour amount_for
    scale_by_ratio divide_rounding assert_safe_integer raise refused_raise trim trim_start is_space
    non_blank refused_line eq_currency ◌*ℤ◌ ◌+ℤ◌ negate Invoice.total net Invoice.vat mark_invoiced
    save add percentage_in_basis_points same_currency sum sum_from is_safe_integer
bill_is_made = refl

billed_well :
    Raise.execute ports (text "u9") (text "s1") none (keeping approved)
    ≡ (ok (102 ∷ [], text " INV-8 "), billed)
billed_well = ap (λ r. (r, billed)) bill_is_made

-- The statement as it is read, with the rows on its first line.
abbrev read : Statement → Statement
read a = read_back (keeping a).rows a

found :
    (a : Statement) → a.state.id ≡ text "s1" → find_by_id (text "s1") (keeping a) ≡ some (read a)
unfolding find_by_id
found a e = rw (e, eq_text_refl (text "s1")) refl

due : total (read approved).state ≡ done (money (pos 65_000) Currency.aed)
unfolding total line_amount worth amounts_of per_hour amount_for sum sum_from add same_currency
    eq_currency assert_safe_integer scale_by_ratio divide_rounding negate ◌+ℤ◌ ◌*ℤ◌ is_safe_integer
due = refl

raise_bills_once_example :
    ((invoice : Invoice) × (billed.invoices ≡ push [] invoice)
      × (net invoice.state ≡ done (money (pos 65_000) Currency.aed))
      × (invoice.state.statement_id ≡ text "s1")
      × (invoice.state.number ≡ trim (text " INV-8 ")))
    × (billed.numbers ≡ 7 + 1)
    × (Raise.execute ports (text "u2") (text "s1") (some (text "DXB")) billed
        ≡ (err invoiced_already, billed))
raise_bills_once_example =
    raise_bills_once ports ports (text "u9") (text "u2") (text "s1") none (some (text "DXB"))
      (keeping approved) (keeping-IsKeyed approved) (found approved refl) due billed_well

abbrev manager : CallerLike
manager = record {
  user_id = text "u9";
  permissions = text "billing.entries.unlink" ∷ [];
  roles = [];
  display_name = text "M";
  session_id = none;
}

allowed : may manager (text "billing.entries.unlink") ≡ true
unfolding eq_text
allowed = refl

said : ltb (length (trim (text " sent twice"))) 3 ≡ false
unfolding trim trim_start is_space
said = refl

hours : length (entry_ids (read approved).state) == 0 ≡ false
unfolding entry_ids eq_text
hours = refl

release_frees_example :
    let (r, store) =
      Release.execute manager
        (text "s1")
        (text " sent twice")
        (pos 190_000_000)
        (keeping approved) in
    (r ≡ ok (length (entry_ids (read approved).state)))
    × All (λ row. is_on (read approved).state.lines row ≡ false) store.rows
    × (map (λ row. row.work) store.rows ≡ map (λ row. row.work) (keeping approved).rows)
    × ((b : Statement) × (find_by_id (text "s1") store ≡ some b)
        × (b.state.state ≡ Standing.cancelled)
        × (entry_ids b.state ≡ []))
    × (Release.execute manager (text "s1") (text " sent twice") (pos 190_000_000) store
        ≡ (err no_hours, store))
release_frees_example =
    release_frees manager (text "s1") (text " sent twice") (pos 190_000_000) (keeping approved)
      (keeping-IsKeyed approved) allowed said (found approved refl) refl hours
