-- ===== src/Billing/Raise.antt =====
-- packages/modules/billing/application/raise-invoice.ts: an approved statement becomes a bill.
pub mod Billed
use amc_system.Base.{
  ℕ, ◌+◌, Bool, true, false, not, Option, none, some, List, [], ◌∷◌, ◌++◌, push, is_some, length,
  ◌==◌, if◌then◌else◌,
}
use amc_system.Base.Int.{ℤ, pos, ◌+ℤ◌, ◌*ℤ◌, ltb_ℤ}
use amc_system.Base.Text.{Text, text, eq_text}
use amc_system.Base.Date.{floor_div, ms_per_day}
use amc_system.Kernel.Throws as Throws
use amc_system.Kernel.Throws.{Throws, done}
use amc_system.Kernel.Aggregate.{Outcome, ok, err, threw}
use amc_system.Kernel.Money.{Money}
use amc_system.Kernel.Duration.{Instant}
use amc_system.Billing.Statement.State.{
  Standing, Pricing, StatementLine, StatementSnapshot, StatementConflict,
}
use amc_system.Billing.Statement as Statement
use amc_system.Billing.Statement.{Statement, line_amount, is_approved, is_invoiced, mark_invoiced}
use amc_system.Billing.Invoice.State.{InvoiceLine, RaiseParams, InvoiceConflict}
use amc_system.Billing.Invoice as Invoice
use amc_system.Billing.Invoice.{Invoice}
use amc_system.Billing.Store.{Store, find_by_id, save}

-- What the use case asks of the rest of the program: the run of numbers, the settings, the clock, the
-- generator of identifiers, the branches, and the name of a month in English and in Arabic.
pub record Ports : Type 0 where
  pub number_at : ℕ → Text
  pub vat_basis_points : ℤ
  pub payment_terms_days : ℤ
  pub now : Instant
  pub ids : ℕ → Text
  pub is_live : Text → Bool
  pub any_live : Bool
  pub month_en : Instant → Text
  pub month_ar : Instant → Text

pub data RaiseConflict : Type 0 where
  no_such_statement invoiced_already not_approved no_such_branch no_branch nothing_to_bill :
      RaiseConflict
  not_raised : InvoiceConflict → RaiseConflict
  not_marked : StatementConflict → RaiseConflict

-- The names of a service in the two languages; the Arabic ones are written in UTF-16 code units.
abbrev vat_return_ar : Text
vat_return_ar =
    1575 ∷ 1604 ∷ 1573 ∷ 1602 ∷ 1585 ∷ 1575 ∷ 1585 ∷ 32 ∷ 1575 ∷ 1604 ∷ 1590 ∷ 1585 ∷ 1610 ∷ 1576
    ∷ 1610 ∷ []

abbrev ct_return_ar : Text
ct_return_ar =
    1573 ∷ 1602 ∷ 1585 ∷ 1575 ∷ 1585 ∷ 32 ∷ 1590 ∷ 1585 ∷ 1610 ∷ 1576 ∷ 1577 ∷ 32 ∷ 1575 ∷ 1604
    ∷ 1588 ∷ 1585 ∷ 1603 ∷ 1575 ∷ 1578 ∷ []

abbrev monthly_accounting_ar : Text
monthly_accounting_ar =
    1575 ∷ 1604 ∷ 1605 ∷ 1581 ∷ 1575 ∷ 1587 ∷ 1576 ∷ 1577 ∷ 32 ∷ 1575 ∷ 1604 ∷ 1588 ∷ 1607 ∷ 1585
    ∷ 1610 ∷ 1577 ∷ []

abbrev bookkeeping_ar : Text
bookkeeping_ar = 1605 ∷ 1587 ∷ 1603 ∷ 32 ∷ 1575 ∷ 1604 ∷ 1583 ∷ 1601 ∷ 1575 ∷ 1578 ∷ 1585 ∷ []

abbrev professional_services_ar : Text
professional_services_ar =
    1582 ∷ 1583 ∷ 1605 ∷ 1575 ∷ 1578 ∷ 32 ∷ 1605 ∷ 1607 ∷ 1606 ∷ 1610 ∷ 1577 ∷ []

unfoldable pub service_names : Text → Text × Text
service_names service =
    if eq_text service (text "vat_return")
    then (text "VAT return", vat_return_ar)
    else if eq_text service (text "ct_return")
    then (text "Corporate tax return", ct_return_ar)
    else if eq_text service (text "monthly_accounting")
    then (text "Monthly accounting", monthly_accounting_ar)
    else if eq_text service (text "bookkeeping")
    then (text "Bookkeeping", bookkeeping_ar)
    else (text "Professional services", professional_services_ar)

-- `describe`, with the name of the month.
abbrev describe : Text → Text → Text
describe name month = name ++ text " — " ++ month

-- `Math.round((line.worked.seconds * 100) / 3600)`
abbrev centi_hours : ℤ → ℤ
centi_hours seconds = floor_div (seconds *ℤ pos 200 +ℤ pos 3600) 7200

abbrev printed_hours : ℤ → Money → Money → ℤ × Option Money
printed_hours seconds per_hour charged =
    if ltb_ℤ (pos 0) (centi_hours seconds)
    then (centi_hours seconds, some per_hour)
    else (pos 100, some charged)

abbrev printed_worked : Pricing → ℤ → Money → ℤ × Option Money
printed_worked (Pricing.fixed fee) seconds charged = (pos 100, some fee)
printed_worked (Pricing.hourly per_hour) seconds charged = printed_hours seconds per_hour charged

-- `printedAs`, with what the line charges.
unfoldable pub printed_as : StatementLine → Money → ℤ × Option Money
printed_as line charged =
    if is_some line.adjusted_to
    then (pos 100, some charged)
    else if line.excluded
    then (pos 100, some charged)
    else printed_worked line.pricing line.worked.seconds charged

-- The line of the bill for a line of the statement.
abbrev pub billed_line : Ports → Text → StatementLine → Money → InvoiceLine
billed_line ports id line charged = record {
  id = id;
  project_id = line.project_id;
  service = line.service;
  description_en = describe (service_names line.service).0 (ports.month_en line.performed_on);
  description_ar = describe (service_names line.service).1 (ports.month_ar line.performed_on);
  worked = line.worked;
  amount = charged;
  quantity_centi = (printed_as line charged).0;
  unit_rate = (printed_as line charged).1;
}

-- `snapshot.lines.filter(…).map(…)`, where an amount may throw. `n` identifiers were taken.
unfoldable pub billed_lines : Ports → ℕ → List StatementLine → Throws (List InvoiceLine)
billed_lines ports n [] = done []
billed_lines ports n (line ∷ lines) =
    let next = billed_lines ports (n + 1) lines in
    let same = billed_lines ports n lines in
    if line.excluded
    then same
    else Throws.◌>>=◌ (line_amount line)
        (λ m. Throws.◌>>=◌ next (λ rest. done (billed_line ports (ports.ids n) line m ∷ rest)))

abbrev pub params_of :
    Ports → Text → Text → Option Text → Text → StatementSnapshot → List InvoiceLine → RaiseParams
params_of ports issued_by statement_id branch_code number s lines = record {
  id = ports.ids (length lines);
  client_id = s.client_id;
  statement_id = statement_id;
  number = number;
  branch_code = branch_code;
  currency = s.currency;
  lines = lines;
  vat_basis_points = ports.vat_basis_points;
  issued_on = ports.now;
  due_on = ports.now +ℤ ports.payment_terms_days *ℤ pos ms_per_day;
  issued_by = issued_by;
  notes_en = none;
  notes_ar = none;
}

-- The end of `execute`, where the statement was asked to be marked.
abbrev marked :
    Text
    → Text
    → Outcome StatementConflict (Unit {0}) × Statement
    → Store
    → Outcome RaiseConflict (Text × Text) × Store
marked id number (ok _, a) store = (ok (id, number), save a store)
marked id number (err e, a) store = (err (not_marked e), store)
marked id number (threw e, a) store = (threw e, store)

-- `execute` once a number was taken, from the call of `Invoice.raise` on.
abbrev raised :
    Instant
    → Text
    → Statement
    → Outcome InvoiceConflict Invoice
    → Store
    → Outcome RaiseConflict (Text × Text) × Store
raised now number a (err e) store = (err (not_raised e), store)
raised now number a (threw e) store = (threw e, store)
raised now number a (ok invoice) store =
    marked invoice.state.id number (mark_invoiced now a)
      (record store { invoices = push store.invoices invoice })

abbrev number_taken : Store → Store
number_taken store = record store { numbers = store.numbers + 1 }

-- `execute` from the lines of the bill on.
abbrev bill :
    Ports
    → Text
    → Text
    → Option Text
    → Statement
    → Throws (List InvoiceLine)
    → Store
    → Outcome RaiseConflict (Text × Text) × Store
bill ports issued_by statement_id branch_code a (Throws.threw e) store = (threw e, store)
bill ports issued_by statement_id branch_code a (Throws.done lines) store =
    if length lines == 0
    then (err nothing_to_bill, store)
    else raised ports.now (ports.number_at store.numbers) a
        (Invoice.raise (
          params_of ports issued_by statement_id branch_code (ports.number_at store.numbers) a.state
            lines))
        (number_taken store)

abbrev refused_branch : Ports → Option Text → Option RaiseConflict
refused_branch ports (some code) = if ports.is_live code then none else some no_such_branch
refused_branch ports none = if ports.any_live then some no_branch else none

abbrev refused_standing : Standing → Option RaiseConflict
refused_standing Standing.approved = none
refused_standing Standing.invoiced = some invoiced_already
refused_standing Standing.draft = some not_approved
refused_standing Standing.cancelled = some not_approved

abbrev raise_found :
    Ports
    → Text
    → Text
    → Option Text
    → Option Statement
    → Store
    → Outcome RaiseConflict (Text × Text) × Store
raise_found ports issued_by statement_id branch_code none store = (err no_such_statement, store)
raise_found ports issued_by statement_id branch_code (some a) store =
    elim (refused_standing a.state.state) [
      | some why ↦ (err why, store)
      | none ↦ elim (refused_branch ports branch_code) [
        | some why ↦ (err why, store)
        | none ↦
            bill ports issued_by statement_id branch_code a (billed_lines ports 0 a.state.lines)
              store
      ]
    ]

-- `execute`
unfoldable pub execute :
    Ports → Text → Text → Option Text → Store → Outcome RaiseConflict (Text × Text) × Store
execute ports issued_by statement_id branch_code store =
    raise_found ports issued_by statement_id branch_code (find_by_id statement_id store) store
