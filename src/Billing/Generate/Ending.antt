-- ===== src/Billing/Generate/Ending.antt =====
-- How one generation ends, and what it leaves in the store (generate-statement.ts over adapters.ts).
use amc_system.Base.{
  ◌≡◌, refl, ap, sym, subst, ◌∙◌, false, List, [], ◌∷◌, map, length, ◌==◌, arith, Bool-cases, inl,
  inr, ℕ,
}
use amc_system.Base.Int.{pos, ◌≤ℤ◌, ltb_ℤ, int_laws}
use amc_system.Base.Text.{Text, eq_text}
use amc_system.Kernel.Result as Result
use amc_system.Kernel.Result.{Result-cases}
use amc_system.Kernel.Aggregate.{Outcome-cases, ok, err}
use amc_system.Billing.Statement.State.{StatementLine}
use amc_system.Billing.Statement.{Statement}
use amc_system.Billing.Store.{Row, Store, for_client, attach, attached, save}
use amc_system.Billing.Store.Attaching.{Among, attached_by}
use amc_system.Billing.Generate.{
  RateReader, Request, no_unbilled_hours, group_by, lines_from, attach_all, drafted, execute,
  entries_of,
}
use amc_system.Billing.Generate.Grouping.{occurrences}

map_attached :
    (line : StatementLine) (lines : List StatementLine) (rows : List Row)
    → map (attached_by lines) (attach line.id line.entry_ids rows)
      ≡ map (attached_by (line ∷ lines)) rows
unfolding attached_by
map_attached line lines [] = refl
map_attached line lines (row ∷ rows) =
    ap (λ rs. attached_by lines (attached line.id line.entry_ids row) ∷ rs)
      (map_attached line lines rows)

pub map_same : (rows : List Row) → map (attached_by []) rows ≡ rows
unfolding attached_by
map_same [] = refl
map_same (row ∷ rows) = ap (λ rs. row ∷ rs) (map_same rows)

pub attach_all-rows :
    (lines : List StatementLine) (store : Store)
    → (attach_all lines store).rows ≡ map (attached_by lines) store.rows
unfolding attach_all
attach_all-rows [] store = sym (map_same store.rows)
attach_all-rows (line ∷ lines) store =
    attach_all-rows lines (record store { rows = attach line.id line.entry_ids store.rows })
    ∙ map_attached line lines store.rows

occurrences-nonneg : (x : Text) (es : List Text) → pos 0 ≤ℤ occurrences x es
occurrences-nonneg x [] = omega arith
occurrences-nonneg x (e ∷ es) = elim (Bool-cases (eq_text e x)) [
  | inl same ↦ rw same (omega (int_laws, occurrences-nonneg x es))
  | inr other ↦ rw other (omega (int_laws, occurrences-nonneg x es))
]

pub occurrences-Among : (x : Text) (es : List Text) → Among x es → pos 1 ≤ℤ occurrences x es
occurrences-Among x [] h = cc
occurrences-Among x (e ∷ es) h = elim (Bool-cases (eq_text e x)) [
  | inl same ↦ rw same (omega (int_laws, occurrences-nonneg x es))
  | inr other ↦
      let rest : Among x es = ground arith in
      rw other (omega (int_laws, occurrences-Among x es rest))
]

pub Among-occurrences : (x : Text) (es : List Text) → pos 1 ≤ℤ occurrences x es → Among x es
Among-occurrences x [] h = absurd (omega arith)
Among-occurrences x (e ∷ es) h = elim (Bool-cases (eq_text e x)) [
  | inl same ↦ rw same refl
  | inr other ↦ rw other (Among-occurrences x es (less other h))
]
  where
    less : eq_text e x ≡ false → pos 1 ≤ℤ occurrences x (e ∷ es) → pos 1 ≤ℤ occurrences x es
    less other k =
        let same : occurrences x (e ∷ es) ≡ occurrences x es = rw other (omega int_laws) in
        subst (λ n. pos 1 ≤ℤ n) same k

-- A generation that ended well drafted a statement from all the work that waited.
pub execute-ok :
    (rates : RateReader) (ids : ℕ → Text) (q : Request) (store : Store) {r : Text × ℕ}
    {store' : Store}
    → execute rates ids q store ≡ (ok r, store')
    → (ltb_ℤ q.to q.from ≡ false)
      × ((lines : List StatementLine) × (a : Statement) × (lines_from rates q.client_id
              (rates.currency_for q.client_id)
              ids
              0
              (group_by (for_client q.client_id q.from q.to store.rows))
            ≡ ok lines)
          × (drafted (rates.currency_for q.client_id) ids q lines ≡ Result.ok a)
          × (store' ≡ attach_all lines (save a store)))
unfolding execute
execute-ok rates ids q store {r} {store'} h =
    let work = for_client q.client_id q.from q.to store.rows in
    let c = rates.currency_for q.client_id in
    elim (Bool-cases (ltb_ℤ q.to q.from)) [
      | inl early ↦ absurd (ground arith)
      | inr period ↦ elim (Bool-cases (length work == 0)) [
        | inl nothing ↦ absurd (ground arith)
        | inr something ↦
            elim (Outcome-cases (lines_from rates q.client_id c ids 0 (group_by work))) [
              | inr (inl (e, refused)) ↦ absurd (ground arith)
              | inr (inr (e, thrown)) ↦ absurd (ground arith)
              | inl (lines, made) ↦ elim (Result-cases (drafted c ids q lines)) [
                | inr (e, refused) ↦ absurd (ground arith)
                | inl (a, well) ↦ (period, (lines, a, made, well, ground arith))
              ]
            ]
      ]
    ]

pub save-rows : (a : Statement) (store : Store) → (save a store).rows ≡ store.rows
unfolding save
save-rows a store = refl

pub entries_of-rows :
    (rows : List Row)
    → entries_of (map (λ row. row.work) rows) ≡ map (λ row. row.work.entry_id) rows
entries_of-rows [] = refl
entries_of-rows (row ∷ rows) = ap (λ ids. row.work.entry_id ∷ ids) (entries_of-rows rows)

-- Where nothing waits, a generation for the period is refused.
pub execute-nothing :
    (rates : RateReader) (ids : ℕ → Text) (q : Request) (store : Store)
    → ltb_ℤ q.to q.from ≡ false
    → for_client q.client_id q.from q.to store.rows ≡ []
    → execute rates ids q store ≡ (err no_unbilled_hours, store)
unfolding execute
execute-nothing rates ids q store period nothing = rw (period, nothing) refl
