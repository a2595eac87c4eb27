-- ===== src/Billing/Generate.antt =====
-- packages/modules/billing/application/generate-statement.ts: a period of recorded work becomes a
-- statement, one line for each group.
pub mod Grouping
pub mod Ending
pub mod Runs
pub mod Once
use amc_system.Base.{
  ℕ, ◌+◌, Bool, true, false, not, ◌&&◌, Option, none, some, List, [], ◌∷◌, map, push, length, ◌==◌,
  get_or, if◌then◌else◌,
}
use amc_system.Base.Int.{ℤ, pos, ◌+ℤ◌, ltb_ℤ, eqb_ℤ}
use amc_system.Base.Text.{Text, eq_text}
use amc_system.Base.Date.{day_of, civil_of, Civil}
use amc_system.Kernel.Throws as Throws
use amc_system.Kernel.Throws.{Throws}
use amc_system.Kernel.Result as Result
use amc_system.Kernel.Result.{Result}
use amc_system.Kernel.Aggregate.{Outcome, ok, err, threw}
use amc_system.Kernel.Money.{Money, Currency, eq_currency, of_minor}
use amc_system.Kernel.Duration.{Instant, Duration, of_seconds}
use amc_system.Billing.Statement.State.{Pricing, StatementLine, StatementConflict}
use amc_system.Billing.Statement as Statement
use amc_system.Billing.Statement.{Statement}
use amc_system.Billing.Store.{
  WorkPricing, hourly, fixed, retainer, BillableWork, Store, for_client, attach, save,
}

-- The parts of a group's key. The source joins them by bars, which no identifier has in it.
pub data Key : Type 0 where
  retainer_key : Text → ℤ → ℕ → Key
  fixed_key : Text → Key
  hourly_key : Text → ℤ → Text → Key

unfoldable pub eq_key : Key → Key → Bool
eq_key (retainer_key s y m) (retainer_key t z n) = eq_text s t && eqb_ℤ y z && m == n
eq_key (fixed_key s) (fixed_key t) = eq_text s t
eq_key (hourly_key s d u) (hourly_key t e v) = eq_text s t && eqb_ℤ d e && eq_text u v
eq_key _ _ = false

abbrev key_at : WorkPricing → BillableWork → Key
key_at retainer w =
    let c = civil_of (day_of w.performed_on) in retainer_key w.client_service_id c.year c.month
key_at fixed w = fixed_key w.project_id
key_at hourly w = hourly_key w.project_id (day_of w.performed_on) (get_or w.user_id [])

abbrev pub key_of : BillableWork → Key
key_of w = key_at w.pricing w

abbrev pub Groups : Type 0
Groups = List (Key × List BillableWork)

-- `groups.get(key)`, and then `push` or `set`.
unfoldable pub put : Key → BillableWork → Groups → Groups
put key w [] = (key, w ∷ []) ∷ []
put key w ((k, group) ∷ groups) =
    let rest = put key w groups in
    if eq_key k key then (k, push group w) ∷ groups else (k, group) ∷ rest

-- The loop of `groupBy`, with the groups so far.
unfoldable pub group_from : Groups → List BillableWork → Groups
group_from groups [] = groups
group_from groups (w ∷ work) = group_from (put (key_of w) w groups) work

abbrev pub group_by : List BillableWork → Groups
group_by work = group_from [] work

-- `RateReader`, which asks the clients for their rates.
pub record RateReader : Type 0 where
  pub per_hour_on : Text → Instant → Money
  pub currency_for : Text → Currency

pub data GenerateConflict : Type 0 where
  period_ends_early no_unbilled_hours no_fee_agreed rates_in_two_currencies : GenerateConflict
  not_drafted : StatementConflict → GenerateConflict

abbrev pub seconds_of : List BillableWork → ℤ
seconds_of [] = pos 0
seconds_of (w ∷ work) = w.seconds +ℤ seconds_of work

abbrev pub entries_of : List BillableWork → List Text
entries_of work = map (λ w. w.entry_id) work

-- The line of a group, but for what it charges.
abbrev pub line_of : Text → BillableWork → Duration → List Text → Pricing → StatementLine
line_of id first worked entry_ids pricing = record {
  id = id;
  project_id = first.project_id;
  service = first.service;
  performed_on = first.performed_on;
  user_id = first.user_id;
  worked = worked;
  pricing = pricing;
  entry_ids = entry_ids;
  excluded = false;
  excluded_reason = none;
  adjusted_to = none;
  adjusted_reason = none;
}

abbrev fee_pricing : Currency → Option ℤ → Outcome GenerateConflict Pricing
fee_pricing c none = err no_fee_agreed
fee_pricing c (some fee) = elim (of_minor fee c) [
  | Throws.threw e ↦ threw e
  | Throws.done amount ↦ ok (Pricing.fixed amount)
]

abbrev hourly_pricing : Currency → Money → Outcome GenerateConflict Pricing
hourly_pricing c rate =
    if not (eq_currency rate.currency c)
    then err rates_in_two_currencies
    else ok (Pricing.hourly rate)

-- What a group charges, by its first item.
unfoldable pub pricing_of :
    RateReader → Text → Currency → BillableWork → Outcome GenerateConflict Pricing
pricing_of rates client_id c first = elim first.pricing [
  | hourly ↦ hourly_pricing c (rates.per_hour_on client_id first.performed_on)
  | fixed ↦ fee_pricing c first.fee_minor
  | retainer ↦ fee_pricing c first.fee_minor
]

-- One round of the loop over the groups.
unfoldable pub group_line :
    RateReader
    → Text
    → Currency
    → Text
    → BillableWork
    → List BillableWork
    → Outcome GenerateConflict StatementLine
group_line rates client_id c id first group = elim (of_seconds (seconds_of group)) [
  | Throws.threw e ↦ threw e
  | Throws.done worked ↦ elim (pricing_of rates client_id c first) [
    | threw e ↦ threw e
    | err e ↦ err e
    | ok pricing ↦ ok (line_of id first worked (entries_of group) pricing)
  ]
]

abbrev pub one_more :
    Outcome GenerateConflict StatementLine
    → Outcome GenerateConflict (List StatementLine)
    → Outcome GenerateConflict (List StatementLine)
one_more (threw e) rest = threw e
one_more (err e) rest = err e
one_more (ok line) (threw e) = threw e
one_more (ok line) (err e) = err e
one_more (ok line) (ok lines) = ok (line ∷ lines)

-- The loop over the groups. `ids n` is the n-th identifier that the generator gives.
unfoldable pub lines_from :
    RateReader
    → Text
    → Currency
    → (ℕ → Text)
    → ℕ
    → Groups
    → Outcome GenerateConflict (List StatementLine)
lines_from rates client_id c ids n [] = ok []
lines_from rates client_id c ids n ((_, []) ∷ groups) = lines_from rates client_id c ids n groups
lines_from rates client_id c ids n ((_, first ∷ group) ∷ groups) =
    one_more (group_line rates client_id c (ids n) first (first ∷ group))
      (lines_from rates client_id c ids (n + 1) groups)

-- The loop that attaches the hours to their lines.
unfoldable pub attach_all : List StatementLine → Store → Store
attach_all [] store = store
attach_all (line ∷ lines) store =
    attach_all lines (record store { rows = attach line.id line.entry_ids store.rows })

-- `GenerateStatementCommand`, with who asks and when.
pub record Request : Type 0 where
  pub created_by : Text
  pub client_id : Text
  pub from : Instant
  pub to : Instant
  pub now : Instant

-- The end of `execute`, where the statement was drafted or not.
abbrev pub saved :
    List StatementLine
    → Result StatementConflict Statement
    → Store
    → Outcome GenerateConflict (Text × ℕ) × Store
saved lines (Result.err e) store = (err (not_drafted e), store)
saved lines (Result.ok a) store = (ok (a.state.id, length lines), attach_all lines (save a store))

abbrev pub drafted :
    Currency → (ℕ → Text) → Request → List StatementLine → Result StatementConflict Statement
drafted c ids q lines = Statement.draft (record {
  id = ids (length lines);
  client_id = q.client_id;
  period_start = q.from;
  period_end = q.to;
  currency = c;
  lines = lines;
  created_by = q.created_by;
  now = q.now;
})

abbrev pub generate_from :
    Currency
    → (ℕ → Text)
    → Request
    → Outcome GenerateConflict (List StatementLine)
    → Store
    → Outcome GenerateConflict (Text × ℕ) × Store
generate_from c ids q (threw e) store = (threw e, store)
generate_from c ids q (err e) store = (err e, store)
generate_from c ids q (ok lines) store = saved lines (drafted c ids q lines) store

-- `execute`
unfoldable pub execute :
    RateReader → (ℕ → Text) → Request → Store → Outcome GenerateConflict (Text × ℕ) × Store
execute rates ids q store =
    let work = for_client q.client_id q.from q.to store.rows in
    let c = rates.currency_for q.client_id in
    if ltb_ℤ q.to q.from
    then (err period_ends_early, store)
    else if length work == 0
    then (err no_unbilled_hours, store)
    else generate_from c ids q (lines_from rates q.client_id c ids 0 (group_by work)) store
