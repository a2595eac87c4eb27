-- ===== src/Billing/Raise/Billed.antt =====
-- What the raising of an invoice leaves in the store (raise-invoice.ts).
use amc_system.Base.{
  ℕ, ◌+◌, ◌≡◌, refl, ap, ap₂, sym, subst, ◌∙◌, true, Option, none, some, List, [], ◌∷◌, map, push,
  length, ◌==◌, arith, Bool-cases, Option-cases, inl, inr,
}
use amc_system.Base.Int.{pos, int_laws}
use amc_system.Base.Text.{Text, trim}
use amc_system.Kernel.Throws as Throws
use amc_system.Kernel.Throws.{Throws, done, Throws-cases, >>=-eq-done}
use amc_system.Kernel.Aggregate.{Outcome-cases, ok, err}
use amc_system.Kernel.Money.{Money, money}
use amc_system.Kernel.Money.Sums.{total_minor, sum-done}
use amc_system.Kernel.Duration.{Instant}
use amc_system.Billing.Statement.State.{Standing, StatementLine}
use amc_system.Billing.Statement.{Statement, line_amount, amounts_of, total, mark_invoiced}
use amc_system.Billing.Invoice.State.{InvoiceLine}
use amc_system.Billing.Invoice as Invoice
use amc_system.Billing.Invoice.{Invoice, net}
use amc_system.Billing.Invoice.Raising.{raise_lem}
use amc_system.Billing.Store.Reading.{some_injective, find_by_id-id, find_by_id-save, save-rest}
use amc_system.Billing.Store.{Store, find_by_id, save, IsKeyed, read_back}
use amc_system.Billing.Raise.{
  Ports, invoiced_already, billed_lines, billed_line, params_of, refused_standing, refused_branch,
  execute,
}

abbrev amounts : List InvoiceLine → List Money
amounts lines = map (λ line. line.amount) lines

excluded_amount :
    (line : StatementLine) {m : Money}
    → line.excluded ≡ true
    → line_amount line ≡ done m
    → m.minor_units ≡ pos 0
unfolding line_amount
excluded_amount line e h = ground arith

done_injective {ℓ} : {A : Type ℓ} {x y : A} → done x ≡ done y → x ≡ y
done_injective h = cc

-- What the bill's lines charge is what the statement's lines come to.
billed_lines-total :
    (ports : Ports) (n : ℕ) (lines : List StatementLine) {bs : List InvoiceLine} {ms : List Money}
    → billed_lines ports n lines ≡ done bs
    → amounts_of line_amount lines ≡ done ms
    → total_minor (amounts bs) ≡ total_minor ms
unfolding billed_lines amounts_of
billed_lines-total ports n [] h k = rw (sym (done_injective h), sym (done_injective k)) refl
billed_lines-total ports n (line ∷ lines) {bs} {ms} h k =
    let (m, charged, k₁) = >>=-eq-done (line_amount line) _ k in
    let (rest, others, k₂) = >>=-eq-done (amounts_of line_amount lines) _ k₁ in
    elim (Bool-cases line.excluded) [
      | inl out ↦
          let same : billed_lines ports n lines ≡ done bs = ground arith in
          let ih = billed_lines-total ports n lines same others in
          rw (sym (done_injective k₂), excluded_amount line out charged, ih) (omega int_laws)
      | inr kept ↦
          let h₀ : Throws.◌>>=◌ (line_amount line) (λ x.
            Throws.◌>>=◌ (billed_lines ports (n + 1) lines)
              (λ xs. done (billed_line ports (ports.ids n) line x ∷ xs)))
              ≡ done bs =
            ground arith in
          let (m', charged', h₁) = >>=-eq-done (line_amount line) _ h₀ in
          let (bs', others', h₂) = >>=-eq-done (billed_lines ports (n + 1) lines) _ h₁ in
          let ih = billed_lines-total ports (n + 1) lines others' others in
          let one : m' ≡ m = done_injective (sym charged' ∙ charged) in
          rw (sym (done_injective k₂), sym (done_injective h₂), one, ih) refl
    ]

-- What a raising that ended well went through.
record Raised (ports : Ports) (issued_by id : Text) (branch_code : Option Text)
    (store store' : Store) (r : Text × Text) : Type 0 where
  a : Statement
  lines : List InvoiceLine
  invoice : Invoice
  found : find_by_id id store ≡ some a
  approved : a.state.state ≡ Standing.approved
  billed : billed_lines ports 0 a.state.lines ≡ done lines
  raised :
      Invoice.raise
        (params_of ports issued_by id branch_code (ports.number_at store.numbers) a.state lines)
      ≡ ok invoice
  after :
      store'
      ≡ save
          (mark_invoiced ports.now a).1
          (record store { invoices = push store.invoices invoice; numbers = store.numbers + 1 })

refused_standing-none : (st : Standing) → refused_standing st ≡ none → st ≡ Standing.approved
refused_standing-none Standing.draft h = cc
refused_standing-none Standing.approved h = refl
refused_standing-none Standing.invoiced h = cc
refused_standing-none Standing.cancelled h = cc

mark_invoiced-approved :
    (now : Instant) (a : Statement)
    → a.state.state ≡ Standing.approved
    → ((mark_invoiced now a).0 ≡ ok tt)
      × ((mark_invoiced now a).1.state ≡ record a.state { state = Standing.invoiced })
unfolding mark_invoiced
mark_invoiced-approved now a h = rw h (refl, refl)

execute-ok :
    (ports : Ports) (issued_by id : Text) (branch_code : Option Text) (store : Store)
    {r : Text × Text} {store' : Store}
    → execute ports issued_by id branch_code store ≡ (ok r, store')
    → Raised ports issued_by id branch_code store store' r
unfolding execute
execute-ok ports issued_by id branch_code store {r} {store'} h =
    elim (Option-cases (find_by_id id store)) [
      | inl missing ↦ absurd (ground arith)
      | inr (a, found) ↦ elim (Option-cases (refused_standing a.state.state)) [
        | inr (e, refused) ↦ absurd (ground arith)
        | inl approved ↦ elim (Option-cases (refused_branch ports branch_code)) [
          | inr (e, refused) ↦ absurd (ground arith)
          | inl branch ↦ elim (Throws-cases (billed_lines ports 0 a.state.lines)) [
            | inr (e, thrown) ↦ absurd (ground arith)
            | inl (lines, billed) ↦ elim (Bool-cases (length lines == 0)) [
              | inl empty ↦ absurd (ground arith)
              | inr some_lines ↦
                  elim (Outcome-cases (
                    Invoice.raise (
                      params_of ports issued_by id branch_code (ports.number_at store.numbers)
                        a.state lines))) [
                          | inr (inl (e, refused)) ↦ absurd (ground arith)
                          | inr (inr (e, thrown)) ↦ absurd (ground arith)
                          | inl (invoice, raised) ↦
                              let (marked, _) =
                                mark_invoiced-approved ports.now a
                                  (refused_standing-none a.state.state approved) in
                              record {
                                a = a;
                                lines = lines;
                                invoice = invoice;
                                found = found;
                                approved = refused_standing-none a.state.state approved;
                                billed = billed;
                                raised = raised;
                                after = ground arith;
                              }
                        ]
            ]
          ]
        ]
      ]
    ]

execute-invoiced :
    (ports : Ports) (issued_by id : Text) (branch_code : Option Text) (store : Store)
    {a : Statement}
    → find_by_id id store ≡ some a
    → a.state.state ≡ Standing.invoiced
    → execute ports issued_by id branch_code store ≡ (err invoiced_already, store)
unfolding execute
execute-invoiced ports issued_by id branch_code store found invoiced = rw (found, invoiced) refl

-- The net of the bill is what the statement comes to.
net-total :
    (ports : Ports) (issued_by id : Text) (branch_code : Option Text) (number : Text)
    (a : Statement) (lines : List InvoiceLine) {invoice : Invoice} {t : Money}
    → billed_lines ports 0 a.state.lines ≡ done lines
    → Invoice.raise (params_of ports issued_by id branch_code number a.state lines) ≡ ok invoice
    → total a.state ≡ done t
    → net invoice.state ≡ done t
unfolding net total Invoice.total
net-total ports issued_by id branch_code number a lines {invoice} {t} billed raised due =
    let p = params_of ports issued_by id branch_code number a.state lines in
    let (_, (asked, totalled, is_raised)) = raise_lem p raised in
    let (n, netted, _) = >>=-eq-done (net (Invoice.raised_state p)) _ totalled in
    let (ms, charged, summed) = >>=-eq-done (amounts_of line_amount a.state.lines) _ due in
    let (_, n_currency, n_minor) = sum-done (amounts lines) a.state.currency netted in
    let (_, t_currency, t_minor) = sum-done ms a.state.currency summed in
    let minor : n.minor_units ≡ t.minor_units =
      n_minor ∙ billed_lines-total ports 0 a.state.lines billed charged ∙ sym t_minor in
    let same : n ≡ t = ap₂ money minor (n_currency ∙ sym t_currency) in
    subst (λ i. net i.state ≡ done t) (sym is_raised) (netted ∙ ap done same)

-- An approved statement is billed once, for what it comes to. A raising that ends well takes one number
-- of the run and adds one invoice, which names the statement, bears that number with no blanks around
-- it, and has for its net the statement's total. To raise from that statement again, on the store that
-- this leaves and whoever asks for it, is refused since it was invoiced, and changes nothing.
-- (Statements are stored under their own ids, and the total of the statement returns.)
pub raise_bills_once :
    (ports ports' : Ports) (issued_by issued_by' id : Text) (branch_code branch_code' : Option Text)
    (store : Store) {r : Text × Text} {store' : Store} {a : Statement} {t : Money}
    → IsKeyed store
    → find_by_id id store ≡ some a
    → total a.state ≡ done t
    → execute ports issued_by id branch_code store ≡ (ok r, store')
    → ((invoice : Invoice) × (store'.invoices ≡ push store.invoices invoice)
        × (net invoice.state ≡ done t)
        × (invoice.state.statement_id ≡ id)
        × (invoice.state.number ≡ trim (ports.number_at store.numbers)))
      × (store'.numbers ≡ store.numbers + 1)
      × (execute ports' issued_by' id branch_code' store' ≡ (err invoiced_already, store'))
raise_bills_once ports ports' issued_by issued_by' id branch_code branch_code' store {r} {store'}
      {a} {t} keyed found due h =
    let w = execute-ok ports issued_by id branch_code store h in
    let number = ports.number_at store.numbers in
    let p = params_of ports issued_by id branch_code number w.a.state w.lines in
    let same : w.a ≡ a = some_injective (sym w.found ∙ found) in
    let (_, (asked, _, is_raised)) = raise_lem p w.raised in
    let due' = subst (λ x. total x.state ≡ done t) (sym same) due in
    let billed =
      net-total ports issued_by id branch_code number w.a w.lines w.billed w.raised due' in
    let (_, marked) = mark_invoiced-approved ports.now w.a w.approved in
    let b = (mark_invoiced ports.now w.a).1 in
    let id_kept : b.state.id ≡ id = ap (λ s. s.id) marked ∙ find_by_id-id id store keyed w.found in
    let store₁ = record store {
      invoices = push store.invoices w.invoice;
      numbers = store.numbers + 1;
    } in
    let read : find_by_id id store' ≡ some (read_back store.rows b) =
      subst (λ x. find_by_id id x ≡ some (read_back store.rows b)) (sym w.after)
        (find_by_id-save id b store₁ id_kept) in
    (
      (
        w.invoice,
        ap (λ x. x.invoices) w.after ∙ (save-rest b store₁).0,
        billed,
        ap (λ i. i.state.statement_id) is_raised,
        ap (λ i. i.state.number) is_raised,
      ),
      ap (λ x. x.numbers) w.after ∙ (save-rest b store₁).1,
      execute-invoiced ports' issued_by' id branch_code' store' read (ap (λ s. s.state) marked),
    )
