-- ===== src/Billing/Invoice/Raising.antt =====
-- `Invoice.raise` and `total` of invoice.ts: their guards and their figures.
use amc_system.Base.{
  ℕ, ◌≤◌, ◌≡◌, ◌≢◌, false, List, [], ◌∷◌, map, arith, All, none, Option-cases, inl, inr,
}
use amc_system.Base.Int.{ℤ, pos, ◌≤ℤ◌, ◌+ℤ◌, int_laws, nat_abs}
use amc_system.Base.Text.{trim, is_empty}
use amc_system.Kernel.Throws.{done, Throws-cases}
use amc_system.Kernel.Aggregate.{ok}
use amc_system.Kernel.Money.{Money, money, percentage_in_basis_points, max_safe_integer, Currency}
use amc_system.Kernel.Money.Sums.{
  eq_of_eq_currency, InCurrency, IsNonneg, total_minor, total_minor-nonneg, sum-returns,
  IsSafe-of_bounds, add-returns, IsSafe,
}
use amc_system.Kernel.Money.Rounding.{percentage_bounds}
use amc_system.Billing.Invoice.State.{InvoiceLine, InvoiceSnapshot, RaiseParams}
use amc_system.Billing.Invoice.{
  Invoice, net, vat, total, raise, raised_state, raised_invoice, refused_raise, refused_line,
}

-- What every line of an invoice is: for a project, in its currency, and not negative.
pub record IsBillable (c : Currency) (line : InvoiceLine) : Type 0 where
  pub has_project : is_empty (trim line.project_id) ≡ false
  pub in_currency : line.amount.currency ≡ c
  pub not_negative : pos 0 ≤ℤ line.amount.minor_units

pub refused_line-none :
    (c : Currency) (lines : List InvoiceLine)
    → refused_line c lines ≡ none
    → All (IsBillable c) lines
unfolding refused_line
refused_line-none c [] h = tt
refused_line-none c (line ∷ lines) h =
    ground (arith, eq_of_eq_currency line.amount.currency c, refused_line-none c lines)

-- What the guards of `raise` have established of its argument.
pub record IsRaisable (p : RaiseParams) : Type 0 where
  pub has_number : is_empty (trim p.number) ≡ false
  pub has_lines : p.lines ≢ []
  pub due_after_issue : p.issued_on ≤ℤ p.due_on
  pub vat_low : pos 0 ≤ℤ p.vat_basis_points
  pub vat_high : p.vat_basis_points ≤ℤ pos 10_000
  pub billable : All (IsBillable p.currency) p.lines

refused_raise-none : (p : RaiseParams) → refused_raise p ≡ none → IsRaisable p
unfolding refused_raise
refused_raise-none p h = ground (arith, refused_line-none p.currency p.lines)

-- An invoice that is raised has passed every guard. It starts issued, unpaid and on time, with its
-- number trimmed, and has told of itself with the total that it asks for.
pub raise_lem :
    (p : RaiseParams) {a : Invoice}
    → raise p ≡ ok a
    → IsRaisable p × ((t : Money) × (total (raised_state p) ≡ done t) × (a ≡ raised_invoice p t))
unfolding raise
raise_lem p {a} h = elim (Option-cases (refused_raise p)) [
  | inr (e, refused) ↦ absurd (ground arith)
  | inl guards ↦ elim (Throws-cases (total (raised_state p))) [
    | inl (t, e) ↦ (refused_raise-none p guards, (t, e, ground arith))
    | inr (e, thrown) ↦ absurd (ground arith)
  ]
]

pub raise-returns :
    (p : RaiseParams) (t : Money)
    → refused_raise p ≡ none
    → total (raised_state p) ≡ done t
    → raise p ≡ ok (raised_invoice p t)
unfolding raise
raise-returns p t guards asked = ground arith

minors-billable :
    (c : Currency) (lines : List InvoiceLine)
    → All (IsBillable c) lines
    → let amounts = map (λ line. line.amount) lines in
      All (InCurrency c) amounts × All IsNonneg amounts
minors-billable c [] h = (tt, tt)
minors-billable c (line ∷ lines) h =
    let (currencies, nonneg) = minors-billable c lines h.1 in
    ((h.0.in_currency, currencies), (h.0.not_negative, nonneg))

-- The lines' sum before VAT.
abbrev pub net_minor : InvoiceSnapshot → ℤ
net_minor s = total_minor (map (λ line. line.amount) s.lines)

half : (n : ℤ) → pos 0 ≤ℤ n → n +ℤ n ≤ℤ pos max_safe_integer → n ≤ℤ pos max_safe_integer
half n h k = omega int_laws

net-returns :
    (s : InvoiceSnapshot)
    → let amounts = map (λ line. line.amount) s.lines in
      All (InCurrency s.currency) amounts
      → All IsNonneg amounts
      → net_minor s ≤ℤ pos max_safe_integer
      → net s ≡ done (money (net_minor s) s.currency)
unfolding net
net-returns s currencies nonneg small = sum-returns _ s.currency currencies nonneg small

le_of_sizes : (a b : ℤ) → pos 0 ≤ℤ a → pos 0 ≤ℤ b → nat_abs a ≤ nat_abs b → a ≤ℤ b
le_of_sizes a b h k le = ground arith

vat-returns :
    (s : InvoiceSnapshot) (n v : Money)
    → net s ≡ done n
    → percentage_in_basis_points n s.vat_basis_points ≡ done v
    → vat s ≡ done v
unfolding vat
vat-returns s n v netted shared = rw netted shared

total-eq :
    (s : InvoiceSnapshot) (n v : Money)
    → net s ≡ done n
    → vat s ≡ done v
    → v.currency ≡ n.currency
    → IsSafe (n.minor_units +ℤ v.minor_units)
    → total s ≡ done (money (n.minor_units +ℤ v.minor_units) n.currency)
unfolding total
total-eq s n v netted charged same safe = rw (netted, charged) (add-returns n v same safe)

IsSafe-sum : (n v : ℤ) → pos 0 ≤ℤ v → v ≤ℤ n → n +ℤ n ≤ℤ pos max_safe_integer → IsSafe (n +ℤ v)
IsSafe-sum n v h k small = IsSafe-of_bounds (n +ℤ v) (omega int_laws) (omega int_laws)

-- With billable lines, a VAT rate of at most the whole and a net whose double is a safe integer,
-- the total does not throw: it is the net and a VAT that is between nothing and the net.
pub total-returns :
    (s : InvoiceSnapshot) (rate : ℕ)
    → s.vat_basis_points ≡ pos rate
    → rate ≤ 10_000
    → All (IsBillable s.currency) s.lines
    → net_minor s +ℤ net_minor s ≤ℤ pos max_safe_integer
    → (v : Money) × (vat s ≡ done v)
      × (total s ≡ done (money (net_minor s +ℤ v.minor_units) s.currency))
      × (pos 0 ≤ℤ v.minor_units)
      × (v.minor_units ≤ℤ net_minor s)
total-returns s rate e h fine small =
    let n = money (net_minor s) s.currency in
    let (currencies, nonneg) = minors-billable s.currency s.lines fine in
    let positive = total_minor-nonneg (map (λ line. line.amount) s.lines) nonneg in
    let fits = half n.minor_units positive small in
    let netted : net s ≡ done n = net-returns s currencies nonneg fits in
    let (v, shared, currency, smaller, sign) =
      percentage_bounds n rate h (IsSafe-of_bounds n.minor_units positive fits) in
    let at_rate : percentage_in_basis_points n s.vat_basis_points ≡ done v = rw e shared in
    let charged : vat s ≡ done v = vat-returns s n v netted at_rate in
    let below = le_of_sizes v.minor_units n.minor_units (sign positive) positive smaller in
    (
      v,
      charged,
      total-eq s n v netted charged currency
          (IsSafe-sum n.minor_units v.minor_units (sign positive) below small),
      sign positive,
      below,
    )
