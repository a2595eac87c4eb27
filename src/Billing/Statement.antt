-- ===== src/Billing/Statement.antt =====
-- packages/modules/billing/domain/statement.ts: work done, reviewed line by line before it is billed.
pub mod State
pub mod Lines
pub mod Review
pub mod Standings
pub mod Tests
use amc_system.Base.{
  ℕ, ◌≡◌, Bool, true, false, not, ◌&&◌, ◌||◌, Option, none, some, List, [], ◌∷◌, map, any, find,
  flat_map, length, ltb, ◌==◌, if◌then◌else◌,
}
use mathlib.Core.Option
use amc_system.Base.Int.{ℤ, ltb_ℤ}
use amc_system.Base.Text.{Text, eq_text, trim}
use amc_system.Kernel.Throws as Throws
use amc_system.Kernel.Throws.{Throws}
use amc_system.Kernel.Result as Result
use amc_system.Kernel.Result.{Result}
use amc_system.Kernel.Aggregate.{
  Aggregate, Method, ok, err, threw, ◌>>=◌, ◌>>◌, pure, refuse_if, refuse, call, this_state, assign,
  emit,
}
use amc_system.Kernel.Money.{Money, Currency, eq_currency, sum, zero_money, is_negative, is_zero}
use amc_system.Kernel.Duration.{Instant, Duration, sum_durations}
use amc_system.Kernel.Rate.{per_hour, amount_for}
use amc_system.Billing.Statement.State.{
  Standing, Pricing, hourly, fixed, StatementLine, StatementSnapshot, DraftParams,
  StatementConflict, StatementEvent,
}

abbrev pub Statement : Type 0
Statement = Aggregate StatementSnapshot StatementEvent

abbrev pub StatementMethod : Type 0 → Type 0
StatementMethod = Method StatementSnapshot StatementEvent StatementConflict

abbrev currency_of : Pricing → Currency
currency_of (fixed fee) = fee.currency
currency_of (hourly rate) = rate.currency

-- `lineCurrency`
abbrev pub line_currency : StatementLine → Currency
line_currency line = currency_of line.pricing

-- `asWorked`, by the pricing and the time.
unfoldable pub worth : Pricing → Duration → Throws Money
worth (fixed fee) worked = Throws.done fee
worth (hourly rate) worked = Throws.◌>>=◌ (per_hour rate) (λ r. amount_for r worked)

abbrev pub as_worked : StatementLine → Throws Money
as_worked line = worth line.pricing line.worked

abbrev adjusted_or_worked : Option Money → StatementLine → Throws Money
adjusted_or_worked (some to) line = Throws.done to
adjusted_or_worked none line = as_worked line

-- `lineAmount`
unfoldable pub line_amount : StatementLine → Throws Money
line_amount line =
    if line.excluded
    then Throws.done (zero_money (line_currency line))
    else adjusted_or_worked line.adjusted_to line

-- `lines.map(amount)`, where an amount may throw.
unfoldable pub amounts_of :
    (StatementLine → Throws Money) → List StatementLine → Throws (List Money)
amounts_of f [] = Throws.done []
amounts_of f (line ∷ lines) =
    Throws.◌>>=◌ (f line) (λ m. Throws.◌>>=◌ (amounts_of f lines) (λ ms. Throws.done (m ∷ ms)))

unfoldable pub total : StatementSnapshot → Throws Money
total s = Throws.◌>>=◌ (amounts_of line_amount s.lines) (λ ms. sum ms s.currency)

-- `totalAsWorked`
unfoldable pub total_as_worked : StatementSnapshot → Throws Money
total_as_worked s = Throws.◌>>=◌ (amounts_of as_worked s.lines) (λ ms. sum ms s.currency)

-- `totalWorked`
unfoldable pub total_worked : StatementSnapshot → Throws Duration
total_worked s = sum_durations (map (λ line. line.worked) s.lines)

-- `entryIds`
unfoldable pub entry_ids : StatementSnapshot → List Text
entry_ids s = flat_map (λ line. line.entry_ids) s.lines

-- `Statement.draft`
unfoldable pub draft : DraftParams → Result StatementConflict Statement
draft p =
    if ltb_ℤ p.period_end p.period_start
    then Result.err StatementConflict.period_ends_early
    else if any (λ line. not (eq_currency (line_currency line) p.currency)) p.lines
    then Result.err StatementConflict.line_in_other_currency
    else Result.ok (record {
      state = record {
        id = p.id;
        client_id = p.client_id;
        period_start = p.period_start;
        period_end = p.period_end;
        state = Standing.draft;
        currency = p.currency;
        lines = p.lines;
        created_by = p.created_by;
        created_at = p.now;
        approved_at = none;
        approved_by = none;
      };
      pending = [];
    })

abbrev pub is_draft : Standing → Bool
is_draft Standing.draft = true
is_draft _ = false

abbrev pub is_approved : Standing → Bool
is_approved Standing.approved = true
is_approved _ = false

abbrev pub is_invoiced : Standing → Bool
is_invoiced Standing.invoiced = true
is_invoiced _ = false

-- `lines.find((candidate) => candidate.id === lineId)`
abbrev pub line_with : Text → List StatementLine → Option StatementLine
line_with line_id lines = find (λ candidate. eq_text candidate.id line_id) lines

-- `replace`: every line of that id gives way to the new one.
abbrev pub replace_line : StatementLine → List StatementLine → List StatementLine
replace_line line [] = []
replace_line line (candidate ∷ lines) =
    (if eq_text candidate.id line.id then line else candidate) ∷ replace_line line lines

abbrev pub with_lines : StatementSnapshot → List StatementLine → StatementSnapshot
with_lines s lines = record s { lines = lines }

abbrev minor_of : Option Money → Option ℤ
minor_of none = none
minor_of (some m) = some m.minor_units

-- The end of `reviseLine`, where the line was looked for.
abbrev revise_found :
    Text
    → Instant
    → Text
    → (StatementLine → Text → StatementLine)
    → Option StatementLine
    → StatementMethod (Unit {0})
revise_found line_id now trimmed change none = refuse (some StatementConflict.no_such_line)
revise_found line_id now trimmed change (some line) = do
  s ← this_state
  let revised = change line trimmed
  assign (with_lines s (replace_line revised s.lines))
  emit (
      StatementEvent.line_revised s.id now line_id revised.excluded (minor_of revised.adjusted_to)
        trimmed)

-- `reviseLine`
unfoldable pub revise_line :
    Text → Text → Instant → (StatementLine → Text → StatementLine) → StatementMethod (Unit {0})
revise_line line_id reason now change = do
  s ← this_state
  refuse_if (not (is_draft s.state)) StatementConflict.not_a_draft
  refuse_if (ltb (length (trim reason)) 3) StatementConflict.no_reason
  revise_found line_id now (trim reason) change (line_with line_id s.lines)

abbrev pub excluded_for : StatementLine → Text → StatementLine
excluded_for line reason = record line { excluded = true; excluded_reason = some reason }

abbrev pub adjusted_for : Money → StatementLine → Text → StatementLine
adjusted_for to line reason = record line { adjusted_to = some to; adjusted_reason = some reason }

unfoldable pub exclude : Text → Text → Instant → StatementMethod (Unit {0})
exclude line_id reason now = revise_line line_id reason now excluded_for

unfoldable pub adjust : Text → Money → Text → Instant → StatementMethod (Unit {0})
adjust line_id to reason now = do
  s ← this_state
  refuse_if (not (eq_currency to.currency s.currency)) StatementConflict.adjusted_in_other_currency
  refuse_if (is_negative to) StatementConflict.adjusted_below_zero
  revise_line line_id reason now (adjusted_for to)

abbrev pub restored : StatementLine → StatementLine
restored line = record line { excluded = false; excluded_reason = none }

abbrev restore_found : Text → Instant → Option StatementLine → StatementMethod (Unit {0})
restore_found line_id now none = refuse (some StatementConflict.no_such_line)
restore_found line_id now (some line) = do
  s ← this_state
  refuse_if (not line.excluded) StatementConflict.not_excluded
  assign (with_lines s (replace_line (restored line) s.lines))
  emit (StatementEvent.line_restored s.id now line_id)

unfoldable pub restore : Text → Instant → StatementMethod (Unit {0})
restore line_id now = do
  s ← this_state
  refuse_if (not (is_draft s.state)) StatementConflict.not_a_draft
  restore_found line_id now (line_with line_id s.lines)

abbrev pub approved_state : StatementSnapshot → Text → Instant → StatementSnapshot
approved_state s user_id now = record s {
  state = Standing.approved;
  approved_at = some now;
  approved_by = some user_id;
}

-- `approve`
unfoldable pub approve : Text → Instant → StatementMethod (Unit {0})
approve user_id now = do
  s ← this_state
  refuse_if (not (is_draft s.state)) StatementConflict.not_a_draft
  refuse_if (length s.lines == 0) StatementConflict.nothing_on_it
  due ← call (total s)
  refuse_if (is_zero due) StatementConflict.nothing_to_bill
  assign (approved_state s user_id now)
  billed ← call (total (approved_state s user_id now))
  emit (StatementEvent.approved s.id now s.client_id billed.minor_units s.currency (length s.lines))

unfoldable pub reopen : Instant → StatementMethod (Unit {0})
reopen now = do
  s ← this_state
  refuse_if (not (is_approved s.state)) StatementConflict.not_approved
  assign (record s { state = Standing.draft; approved_at = none; approved_by = none })
  emit (StatementEvent.reopened s.id now)

-- `markInvoiced`
unfoldable pub mark_invoiced : Instant → StatementMethod (Unit {0})
mark_invoiced now = do
  s ← this_state
  refuse_if (not (is_approved s.state)) StatementConflict.not_approved
  assign (record s { state = Standing.invoiced })
  emit (StatementEvent.invoiced s.id now s.client_id)

unfoldable pub cancel : Text → Instant → StatementMethod (Unit {0})
cancel reason now = do
  s ← this_state
  refuse_if (is_invoiced s.state) StatementConflict.was_invoiced
  refuse_if (ltb (length (trim reason)) 3) StatementConflict.no_reason
  assign (record s { state = Standing.cancelled })
  emit (
      StatementEvent.cancelled s.id now s.client_id (trim reason)
        (length (entry_ids (record s { state = Standing.cancelled }))))

-- The calls that change a statement.
pub data Command : Type 0 where
  leave_out : Text → Text → Instant → Command
  put_back : Text → Instant → Command
  bill_at : Text → Money → Text → Instant → Command
  sign_off : Text → Instant → Command
  send_back : Instant → Command
  convert : Instant → Command
  call_off : Text → Instant → Command

unfoldable pub execute : Command → StatementMethod (Unit {0})
execute (leave_out line_id reason now) = exclude line_id reason now
execute (put_back line_id now) = restore line_id now
execute (bill_at line_id to reason now) = adjust line_id to reason now
execute (sign_off user_id now) = approve user_id now
execute (send_back now) = reopen now
execute (convert now) = mark_invoiced now
execute (call_off reason now) = cancel reason now
