-- ===== src/Billing/Invoice/Amounts.antt =====
-- The figures of an invoice (`balance`, `paid`, `discounted` of invoice.ts) as sums.
use amc_system.Base.{
  ◌+◌, ◌≡◌, subst, ◌∙◌, Bool, true, false, not, List, [], ◌∷◌, map, arith, All, flat_map, push,
  if◌then◌else◌,
}
use amc_system.Base.Int.{ℤ, pos, pos_part, neg_part, ◌+ℤ◌, ◌-ℤ◌, ◌≤ℤ◌, ◌<ℤ◌, int_laws, eq_of_parts}
use amc_system.Kernel.Throws.{done, >>=-eq-done}
use amc_system.Kernel.Money.{
  Money, Currency, sum, subtract, is_negative, zero_money, compare_money, Order,
}
use amc_system.Kernel.Money.Sums.{InCurrency, total_minor, sum-done, subtract-done}
use amc_system.Billing.Invoice.State.{Payment, InvoiceSnapshot}
use amc_system.Billing.Invoice.{
  total, paid, discounted, outstanding, balance, amount_and_discount, is_settled_by, is_less,
}

-- Amounts and discounts, in the order of the payments, add up to both sums.
total_minor-amount_and_discount :
    (ps : List Payment)
    → total_minor (flat_map amount_and_discount ps)
      ≡ total_minor (map (λ p. p.amount) ps) +ℤ total_minor (map (λ p. p.discount) ps)
total_minor-amount_and_discount [] = omega int_laws
total_minor-amount_and_discount (p ∷ ps) = rw (total_minor-amount_and_discount ps) (omega int_laws)

-- What is left after the payments and discounts, with no cut at zero.
abbrev pub left_minor : Money → List Payment → ℤ
left_minor t ps =
    t.minor_units -ℤ total_minor (map (λ p. p.amount) ps) -ℤ total_minor (map (λ p. p.discount) ps)

pub outstanding-done :
    (s : InvoiceSnapshot) {o : Money}
    → outstanding s ≡ done o
    → (t : Money) × (total s ≡ done t)
      × (o.currency ≡ t.currency)
      × (o.minor_units ≡ left_minor t s.payments)
unfolding outstanding paid discounted
outstanding-done s {o} h =
    let (t, is_total, h₁) = >>=-eq-done (total s) _ h in
    let (p, is_paid, h₂) = >>=-eq-done (paid s) _ h₁ in
    let (u, is_less_paid, h₃) = >>=-eq-done (subtract t p) _ h₂ in
    let (d, is_discounted, h₄) = >>=-eq-done (discounted s) _ h₃ in
    let (_, u_currency, u_minor, _) = subtract-done t p is_less_paid in
    let (_, o_currency, o_minor, _) = subtract-done u d h₄ in
    let (_, _, p_minor) = sum-done (map (λ q. q.amount) s.payments) s.currency is_paid in
    let (_, _, d_minor) = sum-done (map (λ q. q.discount) s.payments) s.currency is_discounted in
    (t, is_total, o_currency ∙ u_currency, o_minor ∙ rw (u_minor, p_minor, d_minor))

-- A balance is what is left, and nothing where that is below zero.
abbrev pub IsBalance : ℤ → ℤ → Type 0
IsBalance left b =
    (pos 0 ≤ℤ b) × (left ≤ℤ b) × (pos 0 ≤ℤ left → b ≡ left) × (left ≤ℤ pos 0 → b ≡ pos 0)

cut_at_zero :
    (o b : Money) (c : Currency)
    → done (if is_negative o then zero_money c else o) ≡ done b
    → IsBalance o.minor_units b.minor_units
cut_at_zero o b c h = ground (arith, eq_of_parts o.minor_units (pos 0))

pub balance-done :
    (s : InvoiceSnapshot) {b : Money}
    → balance s ≡ done b
    → (t : Money) × (total s ≡ done t) × IsBalance (left_minor t s.payments) b.minor_units
unfolding balance
balance-done s {b} h =
    let (o, is_outstanding, last) = >>=-eq-done (outstanding s) _ h in
    let (t, is_total, _, minor) = outstanding-done s is_outstanding in
    (
      t,
      is_total,
      subst (λ left. IsBalance left b.minor_units) minor (cut_at_zero o b s.currency last),
    )

covers :
    (covered t : Money) (o : Order) (settled : Bool)
    → compare_money covered t ≡ done o
    → done (not (is_less o)) ≡ done settled
    → (settled ≡ true → t.minor_units ≤ℤ covered.minor_units)
      × (settled ≡ false → covered.minor_units <ℤ t.minor_units)
unfolding compare_money
covers covered t o settled h last = ground arith

covered_left :
    (t covered a d : ℤ)
    → covered ≡ a +ℤ d
    → (t ≤ℤ covered → t -ℤ a -ℤ d ≤ℤ pos 0) × (covered <ℤ t → pos 0 <ℤ t -ℤ a -ℤ d)
covered_left t covered a d e =
    let parts : pos_part covered + neg_part (a +ℤ d) ≡ pos_part (a +ℤ d) + neg_part covered =
      rw e (omega arith) in
    (λ h. omega int_laws, λ h. omega int_laws)

-- A payment settles exactly when the amounts and discounts, its own included, reach the total; and
-- then every amount and discount is in the invoice's currency.
pub is_settled_by-done :
    (s : InvoiceSnapshot) (p : Payment) {settled : Bool}
    → is_settled_by s p ≡ done settled
    → (t : Money) × (total s ≡ done t)
      × All (InCurrency s.currency) (flat_map amount_and_discount (push s.payments p))
      × (settled ≡ true → left_minor t (push s.payments p) ≤ℤ pos 0)
      × (settled ≡ false → pos 0 <ℤ left_minor t (push s.payments p))
unfolding is_settled_by
is_settled_by-done s p {settled} h =
    let ps = push s.payments p in
    let (covered, is_covered, h₁) =
      >>=-eq-done (sum (flat_map amount_and_discount ps) s.currency) _ h in
    let (t, is_total, h₂) = >>=-eq-done (total s) _ h₁ in
    let (o, compared, last) = >>=-eq-done (compare_money covered t) _ h₂ in
    let (all, _, exact) = sum-done (flat_map amount_and_discount ps) s.currency is_covered in
    let minor = exact ∙ total_minor-amount_and_discount ps in
    let (reaches, short) = covers covered t o settled compared last in
    let (nothing, something) = covered_left t.minor_units covered.minor_units _ _ minor in
    (t, is_total, all, λ e. nothing (reaches e), λ e. something (short e))
