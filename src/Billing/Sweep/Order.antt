-- ===== src/Billing/Sweep/Order.antt =====
-- What `ORDER BY due_on` does, and one order that does it.
use mathlib.Core.List.{Perm}
use mathlib.Core.List.Perm
use amc_system.Base.{List, [], ◌∷◌, All, arith, inl, inr, Bool-cases, if◌then◌else◌}
use amc_system.Base.Int.{◌≤ℤ◌, leb_ℤ}
use amc_system.Billing.Invoice.{Invoice}

-- The invoices stand in the order of their due dates.
abbrev pub IsByDue : List Invoice → Type 0
IsByDue [] = Unit
IsByDue (a ∷ invoices) = All (λ b. a.state.due_on ≤ℤ b.state.due_on) invoices × IsByDue invoices

-- The same rows, by due date; of those due at one instant, in any order.
abbrev pub IsOrder : (List Invoice → List Invoice) → Type 0
IsOrder order =
    (invoices : List Invoice) → Perm (order invoices) invoices × IsByDue (order invoices)

unfoldable pub insert_due : Invoice → List Invoice → List Invoice
insert_due a [] = a ∷ []
insert_due a (b ∷ invoices) =
    let rest = insert_due a invoices in
    if leb_ℤ a.state.due_on b.state.due_on then a ∷ b ∷ invoices else b ∷ rest

-- The order that leaves invoices due at one instant as they are in the table.
unfoldable pub sort_by_due : List Invoice → List Invoice
sort_by_due [] = []
sort_by_due (a ∷ invoices) = insert_due a (sort_by_due invoices)

insert_due-Perm : (a : Invoice) (xs : List Invoice) → Perm (insert_due a xs) (a ∷ xs)
unfolding insert_due
insert_due-Perm a [] = Perm.refl (a ∷ [])
insert_due-Perm a (b ∷ xs) = elim (Bool-cases (leb_ℤ a.state.due_on b.state.due_on)) [
  | inl first ↦ rw first (Perm.refl (a ∷ b ∷ xs))
  | inr later ↦ rw later (Perm.trans (Perm.cons b (insert_due-Perm a xs)) (Perm.swap a b xs))
]

-- What is before an invoice and all others is before them together.
insert_due-All {ℓ} :
    (P : Invoice → Type ℓ) (a : Invoice) (xs : List Invoice)
    → P a
    → All P xs
    → All P (insert_due a xs)
unfolding insert_due
insert_due-All P a [] p h = (p, tt)
insert_due-All P a (b ∷ xs) p h = elim (Bool-cases (leb_ℤ a.state.due_on b.state.due_on)) [
  | inl first ↦ rw first (p, h)
  | inr later ↦ rw later (h.0, insert_due-All P a xs p h.1)
]

All-earlier :
    (a b : Invoice) (xs : List Invoice)
    → a.state.due_on ≤ℤ b.state.due_on
    → All (λ c. b.state.due_on ≤ℤ c.state.due_on) xs
    → All (λ c. a.state.due_on ≤ℤ c.state.due_on) xs
All-earlier a b [] e h = tt
All-earlier a b (c ∷ xs) e h = ((let f = h.0 in omega arith), All-earlier a b xs e h.1)

insert_due-IsByDue : (a : Invoice) (xs : List Invoice) → IsByDue xs → IsByDue (insert_due a xs)
unfolding insert_due
insert_due-IsByDue a [] h = (tt, tt)
insert_due-IsByDue a (b ∷ xs) h = elim (Bool-cases (leb_ℤ a.state.due_on b.state.due_on)) [
  | inl first ↦
      let e : a.state.due_on ≤ℤ b.state.due_on = ground arith in
      rw first ((e, All-earlier a b xs e h.0), h)
  | inr later ↦
      let e : b.state.due_on ≤ℤ a.state.due_on = ground arith in
      rw later (
        insert_due-All (λ c. b.state.due_on ≤ℤ c.state.due_on) a xs e h.0,
        insert_due-IsByDue a xs h.1,
      )
]

pub sort_by_due-IsOrder : IsOrder sort_by_due
unfolding sort_by_due
sort_by_due-IsOrder [] = (Perm.refl [], tt)
sort_by_due-IsOrder (a ∷ xs) =
    let (same, sorted) = sort_by_due-IsOrder xs in
    (
      Perm.trans (insert_due-Perm a (sort_by_due xs)) (Perm.cons a same),
      insert_due-IsByDue a (sort_by_due xs) sorted,
    )
