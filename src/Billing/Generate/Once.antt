-- ===== src/Billing/Generate/Once.antt =====
-- What is billed once (generate-statement.ts over adapters.ts).
use amc_system.Base.{◌≡◌, ap, sym, subst, ◌∙◌, false, List, [], ◌∷◌, map, filter, All, ℕ}
use amc_system.Base.Int.{pos, ◌≤ℤ◌, ltb_ℤ}
use amc_system.Base.Text.{Text}
use amc_system.Kernel.Aggregate.{ok, err}
use amc_system.Billing.Store.{Row, Store, is_unbilled, for_client, save}
use amc_system.Base.Date.{day_of}
use amc_system.Billing.Store.Attaching.{Among, named_on, rows_named, attached_by}
use amc_system.Billing.Generate.{RateReader, Request, no_unbilled_hours, execute, entries_of}
use amc_system.Billing.Generate.Ending.{
  attach_all-rows, save-rows, execute-ok, execute-nothing, entries_of-rows, occurrences-Among,
  Among-occurrences,
}
use amc_system.Billing.Generate.Runs.{
  Run, generate_all, generate_all-All, IsBilled, attached_by-IsBilled, IsDone, attached_by-IsDone,
  after_first, billed_not_waiting, none_within,
}
use amc_system.Billing.Generate.Grouping.{generated_lines_conserve}

All-first {ℓ} :
    (P Q : Row → Type ℓ) (rows : List Row) → All (λ row. P row × Q row) rows → All P rows
All-first P Q [] h = tt
All-first P Q (row ∷ rows) h = (h.0.0, All-first P Q rows h.1)

All-second {ℓ} :
    (P Q : Row → Type ℓ) (rows : List Row) → All (λ row. P row × Q row) rows → All Q rows
All-second P Q [] h = tt
All-second P Q (row ∷ rows) h = (h.0.1, All-second P Q rows h.1)

-- The rows after a generation that ended well and any others after it.
pub left_by :
    (rates : RateReader) (ids : ℕ → Text) (q : Request) (runs : List Run) (store : Store)
    {r : Text × ℕ} {store' : Store}
    → execute rates ids q store ≡ (ok r, store')
    → (named : List Text) × ((x : Text)
        → Among x (entries_of (for_client q.client_id q.from q.to store.rows))
        → Among x named)
      × All (IsBilled named) (generate_all runs store').rows
      × All (IsDone q.client_id q.from q.to) (generate_all runs store').rows
left_by rates ids q runs store {r} {store'} h =
    let (period, (lines, a, made, _, after)) = execute-ok rates ids q store h in
    let work = for_client q.client_id q.from q.to store.rows in
    let (_, entries) =
      generated_lines_conserve rates q.client_id (rates.currency_for q.client_id) ids work made in
    let test = is_unbilled q.client_id q.from q.to in
    let waiting = filter test store.rows in
    let on_lines : (x : Text) → Among x (entries_of work) → Among x (named_on lines) = λ x k.
      Among-occurrences x (named_on lines)
        (subst (λ n. pos 1 ≤ℤ n) (sym (entries x)) (occurrences-Among x (entries_of work) k)) in
    let named =
      rows_named test store.rows (named_on lines)
        (λ x k. on_lines x (subst (Among x) (sym (entries_of-rows waiting)) k)) in
    let rows : store'.rows ≡ map (attached_by lines) store.rows =
      ap (λ (s : Store). s.rows) after
      ∙ attach_all-rows lines (save a store)
      ∙ ap (map (attached_by lines)) (save-rows a store) in
    let first = after_first q.client_id q.from q.to lines store.rows named in
    (
      named_on lines,
      on_lines,
      generate_all-All (IsBilled (named_on lines)) (attached_by-IsBilled (named_on lines)) runs
          store' (subst (All (IsBilled (named_on lines))) (sym rows) (All-first _ _ _ first)),
      generate_all-All (IsDone q.client_id q.from q.to) (attached_by-IsDone q.client_id q.from q.to)
          runs store'
          (subst (All (IsDone q.client_id q.from q.to)) (sym rows) (All-second _ _ _ first)),
    )

-- Generations bill no hour twice. Once one has ended well, and after any further ones, for anybody and
-- of any periods, no entry that waited for the first is one that waits for a generation, whoever asks
-- and whatever the period is, however much it overlaps the first; and to generate for the same client,
-- of that period or of days within it (ending no earlier than they begin), is refused for want of hours
-- and changes nothing. Nothing but generations happens in between: what a release frees waits again.
pub generate_once :
    (rates rates' : RateReader) (ids ids' : ℕ → Text) (q q' : Request) (runs : List Run)
    (store : Store) {r : Text × ℕ} {store' : Store}
    → execute rates ids q store ≡ (ok r, store')
    → let last = generate_all runs store' in
      ((x : Text)
        → Among x (entries_of (for_client q.client_id q.from q.to store.rows))
        → ¬ Among x (entries_of (for_client q'.client_id q'.from q'.to last.rows)))
      × (q'.client_id ≡ q.client_id
          → day_of q.from ≤ℤ day_of q'.from
          → day_of q'.to ≤ℤ day_of q.to
          → ltb_ℤ q'.to q'.from ≡ false
          → execute rates' ids' q' last ≡ (err no_unbilled_hours, last))
generate_once rates rates' ids ids' q q' runs store {r} {store'} h =
    let (named, on_lines, billed, done) = left_by rates ids q runs store h in
    let last = generate_all runs store' in
    (
      λ x k. billed_not_waiting q'.client_id q'.from q'.to named x last.rows billed (on_lines x k),
      λ same_client starts ends period. execute-nothing rates' ids' q' last period (
          rw same_client
            (none_within q.client_id q.from q.to q'.from q'.to last.rows starts ends done)),
    )
