-- ===== src/Billing/Store.antt =====
-- What billing keeps between two requests, and how it is read and written:
-- apps/api/src/billing/adapters.ts and
-- packages/modules/billing/infrastructure/statement.repository.ts.
--
-- A row of work is a time entry with what the query of `unbilledWork` joins to it. Rows stand in the
-- order in which that query asks for them.
pub mod Attaching
pub mod Reading
use amc_system.Base.{
  ℕ, ◌≡◌, Bool, true, false, not, ◌&&◌, Option, none, some, List, [], ◌∷◌, map, filter, any,
  is_some, if◌then◌else◌,
}
use amc_system.Base.Int.{ℤ, pos, ltb_ℤ, leb_ℤ}
use amc_system.Base.Text.{Text, eq_text}
use amc_system.Base.Date.{day_of, midnight}
use amc_system.Kernel.Duration.{Instant}
use amc_system.Billing.Statement.State.{StatementLine}
use amc_system.Billing.Statement.{Statement}
use amc_system.Billing.Invoice.{Invoice}

pub data WorkPricing : Type 0 where
  hourly fixed retainer : WorkPricing

pub record BillableWork : Type 0 where
  pub entry_id : Text
  pub project_id : Text
  pub client_service_id : Text
  pub service : Text
  pub performed_on : Instant
  pub user_id : Option Text
  pub seconds : ℤ
  pub pricing : WorkPricing
  pub fee_minor : Option ℤ

pub record Row : Type 0 where
  pub work : BillableWork
  pub client_id : Text
  pub billable : Bool
  pub finished : Bool
  pub approved : Bool
  pub statement_line_id : Option Text

pub record Store : Type 0 where
  pub rows : List Row
  pub statements : Text → Option Statement
  pub invoices : List Invoice
  -- How many invoice numbers were taken.
  pub numbers : ℕ

-- The WHERE of the query of `forClient`.
unfoldable pub is_unbilled : Text → Instant → Instant → Row → Bool
is_unbilled client_id from to row =
    eq_text row.client_id client_id
    && not (is_some row.statement_line_id)
    && row.billable
    && row.finished
    && row.approved
    && ltb_ℤ (pos 0) row.work.seconds
    && leb_ℤ (day_of from) (day_of row.work.performed_on)
    && leb_ℤ (day_of row.work.performed_on) (day_of to)

-- `forClient`
abbrev pub for_client : Text → Instant → Instant → List Row → List BillableWork
for_client client_id from to rows =
    map (λ row. row.work) (filter (is_unbilled client_id from to) rows)

-- `id = ANY(entryIds)`
abbrev pub is_named : List Text → Row → Bool
is_named entry_ids row = any (λ x. eq_text x row.work.entry_id) entry_ids

abbrev pub attached : Text → List Text → Row → Row
attached line_id entry_ids row =
    if is_named entry_ids row && not (is_some row.statement_line_id)
    then record row { statement_line_id = some line_id }
    else row

-- `attach`: an entry that a line holds already is left alone.
abbrev pub attach : Text → List Text → List Row → List Row
attach line_id entry_ids rows = map (attached line_id entry_ids) rows

abbrev pub freed : List Text → Row → Row
freed entry_ids row =
    if is_named entry_ids row then record row { statement_line_id = none } else row

-- `release`
abbrev pub release : List Text → List Row → List Row
release entry_ids rows = map (freed entry_ids) rows

abbrev pub is_held_by : Text → Option Text → Bool
is_held_by line_id none = false
is_held_by line_id (some held) = eq_text held line_id

-- The `entry_ids` of a line in `findById`: the entries that name it.
abbrev pub entries_on : Text → List Row → List Text
entries_on line_id rows =
    map (λ row. row.work.entry_id) (filter (λ row. is_held_by line_id row.statement_line_id) rows)

abbrev pub read_line : List Row → StatementLine → StatementLine
read_line rows line = record line {
  performed_on = midnight (day_of line.performed_on);
  entry_ids = entries_on line.id rows;
}

-- A statement as it is read back: its lines with the entries that name them now, and its dates as
-- days.
abbrev pub read_back : List Row → Statement → Statement
read_back rows a = record {
  state = record a.state {
    period_start = midnight (day_of a.state.period_start);
    period_end = midnight (day_of a.state.period_end);
    lines = map (read_line rows) a.state.lines;
  };
  pending = [];
}

abbrev read_found : List Row → Option Statement → Option Statement
read_found rows none = none
read_found rows (some a) = some (read_back rows a)

-- The key of the table of statements.
abbrev pub IsKeyed : Store → Type 0
IsKeyed store = (id : Text) (a : Statement) → store.statements id ≡ some a → a.state.id ≡ id

-- `findById`
unfoldable pub find_by_id : Text → Store → Option Statement
find_by_id id store = read_found store.rows (store.statements id)

-- `save`. The lines of a statement are never taken away, and of a line that is written again only
-- what a review changes is written, which is all that any call on a statement changes.
unfoldable pub save : Statement → Store → Store
save a store = record store {
  statements = λ id. if eq_text id a.state.id then some a else store.statements id;
}
