-- ===== src/Billing/Generate/Runs.antt =====
-- What generations one after another leave of the rows (generate-statement.ts over adapters.ts).
use amc_system.Base.{
  ◌≡◌, refl, ap, sym, subst, ◌∙◌, true, false, List, [], ◌∷◌, map, filter, length, All, is_some,
  ◌==◌, ◌||◌, ◌⊎◌, any, if◌then◌else◌, arith, Bool-cases, inl, inr, ℕ,
}
use amc_system.Base.Int.{◌≤ℤ◌, ltb_ℤ}
use amc_system.Base.Text.{Text, eq_text, eq_of_eq_text}
use amc_system.Kernel.Result.{Result-cases}
use amc_system.Kernel.Aggregate.{Outcome-cases}
use amc_system.Kernel.Duration.{Instant}
use amc_system.Billing.Statement.State.{StatementLine}
use amc_system.Billing.Store.{Row, Store, is_unbilled, for_client, is_named, save}
use amc_system.Base.Date.{day_of}
use amc_system.Billing.Store.Attaching.{
  attached_by-held, attached_by-work, Among, named_on, attached_by, attached_by-named,
  attached_by-unbilled,
}
use amc_system.Billing.Generate.{
  RateReader, Request, group_by, lines_from, drafted, execute, entries_of,
}
use amc_system.Billing.Generate.Ending.{map_same, attach_all-rows, save-rows}

-- Every generation, however it ends, only attaches rows to lines.
execute-rows :
    (rates : RateReader) (ids : ℕ → Text) (q : Request) (store : Store)
    → (lines : List StatementLine) × ((execute rates ids q store).1.rows
        ≡ map (attached_by lines) store.rows)
unfolding execute
execute-rows rates ids q store =
    let c = rates.currency_for q.client_id in
    let work = for_client q.client_id q.from q.to store.rows in
    let kept : store.rows ≡ map (attached_by []) store.rows = sym (map_same store.rows) in
    elim (Bool-cases (ltb_ℤ q.to q.from)) [
      | inl early ↦ ([], rw early kept)
      | inr period ↦ elim (Bool-cases (length work == 0)) [
        | inl nothing ↦ ([], rw (period, nothing) kept)
        | inr something ↦
            elim (Outcome-cases (lines_from rates q.client_id c ids 0 (group_by work))) [
              | inr (inl (e, refused)) ↦ ([], rw (period, something, refused) kept)
              | inr (inr (e, thrown)) ↦ ([], rw (period, something, thrown) kept)
              | inl (lines, made) ↦ elim (Result-cases (drafted c ids q lines)) [
                | inr (e, refused) ↦ ([], rw (period, something, made, refused) kept)
                | inl (a, well) ↦ (
                  lines,
                  rw (period, something, made, well)
                      (attach_all-rows lines (save a store)
                        ∙ ap (map (attached_by lines)) (save-rows a store)),
                )
              ]
            ]
      ]
    ]

-- What is asked for in one generation, and of whom.
pub record Run : Type 0 where
  pub rates : RateReader
  pub ids : ℕ → Text
  pub request : Request

-- Generations one after another.
unfoldable pub generate_all : List Run → Store → Store
generate_all [] store = store
generate_all (run ∷ runs) store = generate_all runs (execute run.rates run.ids run.request store).1

All-attached {ℓ} :
    (P : Row → Type ℓ)
    → ((lines : List StatementLine) (row : Row) → P row → P (attached_by lines row))
    → (lines : List StatementLine) (rows : List Row) → All P rows
    → All P (map (attached_by lines) rows)
All-attached P keeps lines [] h = tt
All-attached P keeps lines (row ∷ rows) h =
    (keeps lines row h.0, All-attached P keeps lines rows h.1)

-- What attaching keeps of every row, generations keep.
pub generate_all-All {ℓ} :
    (P : Row → Type ℓ)
    → ((lines : List StatementLine) (row : Row) → P row → P (attached_by lines row))
    → (runs : List Run) (store : Store) → All P store.rows
    → All P (generate_all runs store).rows
unfolding generate_all
generate_all-All P keeps [] store h = h
generate_all-All P keeps (run ∷ runs) store h =
    let (lines, e) = execute-rows run.rates run.ids run.request store in
    generate_all-All P keeps runs (execute run.rates run.ids run.request store).1
      (subst (All P) (sym e) (All-attached P keeps lines store.rows h))

-- A row whose entry is among the ids is on a line.
abbrev pub IsBilled : List Text → Row → Type 0
IsBilled ids row = is_named ids row ≡ true → is_some row.statement_line_id ≡ true

pub attached_by-IsBilled :
    (ids : List Text) (lines : List StatementLine) (row : Row)
    → IsBilled ids row
    → IsBilled ids (attached_by lines row)
attached_by-IsBilled ids lines row h named =
    let before : is_named ids row ≡ true =
      subst (λ w. any (λ x. eq_text x w.entry_id) ids ≡ true) (attached_by-work lines row) named in
    subst (λ r. is_some r.statement_line_id ≡ true) (sym (attached_by-held lines row (h before)))
      (h before)

abbrev pub IsDone : Text → Instant → Instant → Row → Type 0
IsDone client_id from to row = is_unbilled client_id from to row ≡ false

pub attached_by-IsDone :
    (client_id : Text) (from to : Instant) (lines : List StatementLine) (row : Row)
    → IsDone client_id from to row
    → IsDone client_id from to (attached_by lines row)
attached_by-IsDone client_id from to lines row h =
    elim (Bool-cases (is_unbilled client_id from to (attached_by lines row))) [
      | inr done ↦ done
      | inl waiting ↦
          let before = attached_by-unbilled client_id from to lines row waiting in
          let clash : true ≡ false = sym before ∙ h in absurd (cc)
    ]

-- A row that is on a line waits for nobody.
held_row-IsDone :
    (client_id : Text) (from to : Instant) (row : Row)
    → is_some row.statement_line_id ≡ true
    → IsDone client_id from to row
unfolding is_unbilled
held_row-IsDone client_id from to row h = ground arith

-- What the first generation leaves: rows named by its lines on a line, and none that wait for it.
pub after_first :
    (client_id : Text) (from to : Instant) (lines : List StatementLine) (rows : List Row)
    → All
        (λ row. is_unbilled client_id from to row ≡ true → is_named (named_on lines) row ≡ true)
        rows
    → All
        (λ row. IsBilled (named_on lines) row × IsDone client_id from to row)
        (map (attached_by lines) rows)
after_first client_id from to lines [] h = tt
after_first client_id from to lines (row ∷ rows) h =
    ((billed, settled), after_first client_id from to lines rows h.1)
  where
    billed : IsBilled (named_on lines) (attached_by lines row)
    billed named = attached_by-named lines row (
        subst (λ w. any (λ x. eq_text x w.entry_id) (named_on lines) ≡ true)
          (attached_by-work lines row) named)

    settled : IsDone client_id from to (attached_by lines row)
    settled = elim (Bool-cases (is_unbilled client_id from to row)) [
      | inr not_waiting ↦ attached_by-IsDone client_id from to lines row not_waiting
      | inl waiting ↦
          held_row-IsDone client_id from to (attached_by lines row)
            (attached_by-named lines row (h.0 waiting))
    ]

-- An entry that waits among more rows is the first one's, or waits among the rest.
waiting_first :
    (client_id : Text) (from to : Instant) (x : Text) (row : Row) (rows : List Row)
    → Among x (entries_of (for_client client_id from to (row ∷ rows)))
    → ((is_unbilled client_id from to row ≡ true) × (eq_text row.work.entry_id x ≡ true))
      ⊎ Among x (entries_of (for_client client_id from to rows))
waiting_first client_id from to x row rows h =
    let rest = filter (is_unbilled client_id from to) rows in
    elim (Bool-cases (is_unbilled client_id from to row)) [
      | inr done ↦ inr (
          subst (λ b. Among x (entries_of (map (λ r. r.work) (if b then row ∷ rest else rest))))
            done h)
      | inl waiting ↦ elim (Bool-cases (eq_text row.work.entry_id x)) [
        | inl this ↦ inl (waiting, this)
        | inr other ↦ inr (
            subst (λ c. (c || any (λ y. eq_text y x) (entries_of (map (λ r. r.work) rest))) ≡ true)
              other
              (subst
                (λ b. Among x (entries_of (map (λ r. r.work) (if b then row ∷ rest else rest))))
                waiting h))
      ]
    ]

-- No entry that the ids name waits for anybody.
pub billed_not_waiting :
    (client_id : Text) (from to : Instant) (ids : List Text) (x : Text) (rows : List Row)
    → All (IsBilled ids) rows
    → Among x ids
    → ¬ Among x (entries_of (for_client client_id from to rows))
billed_not_waiting client_id from to ids x [] h named k = cc
billed_not_waiting client_id from to ids x (row ∷ rows) h named k =
    elim (waiting_first client_id from to x row rows k) [
      | inr later ↦ billed_not_waiting client_id from to ids x rows h.1 named later
      | inl (waiting, this) ↦
          let e : row.work.entry_id ≡ x = eq_of_eq_text row.work.entry_id x this in
          let held = h.0 (subst (λ y. any (λ z. eq_text z y) ids ≡ true) (sym e) named) in
          let clash : true ≡ false = sym waiting ∙ held_row-IsDone client_id from to row held in cc
    ]

-- A period within another one.
within :
    (client_id : Text) (from to from' to' : Instant) (row : Row)
    → day_of from ≤ℤ day_of from'
    → day_of to' ≤ℤ day_of to
    → IsDone client_id from to row
    → IsDone client_id from' to' row
unfolding is_unbilled
within client_id from to from' to' row h k done = ground arith

pub none_within :
    (client_id : Text) (from to from' to' : Instant) (rows : List Row)
    → day_of from ≤ℤ day_of from'
    → day_of to' ≤ℤ day_of to
    → All (IsDone client_id from to) rows
    → for_client client_id from' to' rows ≡ []
none_within client_id from to from' to' [] h k done = refl
none_within client_id from to from' to' (row ∷ rows) h k done =
    rw (within client_id from to from' to' row h k done.0)
      (none_within client_id from to from' to' rows h k done.1)
