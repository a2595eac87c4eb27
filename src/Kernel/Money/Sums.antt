-- ===== src/Kernel/Money/Sums.antt =====
-- `add`, `subtract`, `compare` and `sum` of money.ts.
use amc_system.Base.{◌≤◌, ◌≡◌, ◌≢◌, ap, subst, ◌∙◌, true, List, [], ◌∷◌, arith, All}
use amc_system.Base.Int.{ℤ, pos, negsuc, nat_abs, ◌+ℤ◌, ◌-ℤ◌, ◌≤ℤ◌, int_laws}
use amc_system.Kernel.Throws.{done, >>=-eq-done}
use amc_system.Kernel.Money.{
  Money, Currency, eq_currency, max_safe_integer, add, subtract, sum_from, sum, zero_money, money,
  compare_money, Order, less, greater,
}
use amc_system.Kernel.Money.Rounding.{assert_safe_integer-done, assert_safe_integer-safe}

pub eq_currency_refl : (a : Currency) → eq_currency a a ≡ true
unfolding eq_currency
eq_currency_refl a = ground arith

pub eq_of_eq_currency : (a b : Currency) → eq_currency a b ≡ true → a ≡ b
unfolding eq_currency
eq_of_eq_currency a b h = ground arith

abbrev pub IsSafe : ℤ → Type 0
IsSafe n = nat_abs n ≤ max_safe_integer

abbrev pub InCurrency : Currency → Money → Type 0
InCurrency c a = a.currency ≡ c

pub add-done :
    (a b : Money) {t : Money}
    → add a b ≡ done t
    → (b.currency ≡ a.currency)
      × (t.currency ≡ a.currency)
      × (t.minor_units ≡ a.minor_units +ℤ b.minor_units)
      × IsSafe t.minor_units
unfolding add
add-done a b h = grind (arith, eq_of_eq_currency, assert_safe_integer-done)

pub subtract-done :
    (a b : Money) {t : Money}
    → subtract a b ≡ done t
    → (b.currency ≡ a.currency)
      × (t.currency ≡ a.currency)
      × (t.minor_units ≡ a.minor_units -ℤ b.minor_units)
      × IsSafe t.minor_units
unfolding subtract
subtract-done a b h = grind (arith, eq_of_eq_currency, assert_safe_integer-done)

pub compare_money-done :
    (a b : Money) {o : Order}
    → compare_money a b ≡ done o
    → (b.currency ≡ a.currency)
      × (o ≡ less → a.minor_units +ℤ pos 1 ≤ℤ b.minor_units)
      × (o ≢ less → b.minor_units ≤ℤ a.minor_units)
      × (o ≢ greater → a.minor_units ≤ℤ b.minor_units)
      × (o ≡ greater → b.minor_units +ℤ pos 1 ≤ℤ a.minor_units)
unfolding compare_money ◌+ℤ◌
compare_money-done a b h = ground (arith, eq_of_eq_currency b.currency a.currency)

-- The mathematical sum of the amounts.
abbrev pub total_minor : List Money → ℤ
total_minor [] = pos 0
total_minor (a ∷ rest) = a.minor_units +ℤ total_minor rest

pub sum_from-done :
    (total : Money) (amounts : List Money) {t : Money}
    → sum_from total amounts ≡ done t
    → All (InCurrency total.currency) amounts
      × (t.currency ≡ total.currency)
      × (t.minor_units ≡ total.minor_units +ℤ total_minor amounts)
unfolding sum_from
sum_from-done total [] h = (tt, ground arith, grind int_laws)
sum_from-done total (a ∷ rest) h =
    let (next, added, summed) = >>=-eq-done (add total a) (λ t. sum_from t rest) h in
    let (same, currency, minor, _) = add-done total a added in
    let (all, last, exact) = sum_from-done next rest summed in
    (
      (same, subst (λ c. All (InCurrency c) rest) currency all),
      last ∙ currency,
      exact ∙ rw minor (omega int_laws),
    )

-- A sum that returns has only amounts in the currency asked for, and is their exact sum.
pub sum-done :
    (amounts : List Money) (c : Currency) {t : Money}
    → sum amounts c ≡ done t
    → All (InCurrency c) amounts × (t.currency ≡ c) × (t.minor_units ≡ total_minor amounts)
unfolding sum
sum-done amounts c h =
    let (all, currency, exact) = sum_from-done (zero_money c) amounts h in
    (all, currency, exact ∙ omega int_laws)

abbrev pub IsNonneg : Money → Type 0
IsNonneg a = pos 0 ≤ℤ a.minor_units

pub total_minor-nonneg :
    (amounts : List Money) → All IsNonneg amounts → pos 0 ≤ℤ total_minor amounts
total_minor-nonneg [] h = omega arith
total_minor-nonneg (a ∷ rest) h = omega (int_laws, total_minor-nonneg rest h.1)

pub IsSafe-of_bounds : (n : ℤ) → pos 0 ≤ℤ n → n ≤ℤ pos max_safe_integer → IsSafe n
IsSafe-of_bounds (pos n) h k = omega arith
IsSafe-of_bounds (negsuc n) h k = absurd (omega arith)

pub add-returns :
    (a b : Money)
    → b.currency ≡ a.currency
    → IsSafe (a.minor_units +ℤ b.minor_units)
    → add a b ≡ done (money (a.minor_units +ℤ b.minor_units) a.currency)
unfolding add
add-returns a b same safe = ground (
  arith,
  eq_currency_refl a.currency,
  assert_safe_integer-safe (a.minor_units +ℤ b.minor_units) safe,
)

pub sum_from-returns :
    (total : Money) (amounts : List Money)
    → pos 0 ≤ℤ total.minor_units
    → All (InCurrency total.currency) amounts
    → All IsNonneg amounts
    → total.minor_units +ℤ total_minor amounts ≤ℤ pos max_safe_integer
    → sum_from total amounts
      ≡ done (money (total.minor_units +ℤ total_minor amounts) total.currency)
unfolding sum_from
sum_from-returns total [] start all nonneg bound =
    let e : total.minor_units +ℤ pos 0 ≡ total.minor_units = omega int_laws in rw e
sum_from-returns total (a ∷ rest) start all nonneg bound =
    let next = money (total.minor_units +ℤ a.minor_units) total.currency in
    let later = total_minor-nonneg rest nonneg.1 in
    let safe = IsSafe-of_bounds next.minor_units (omega int_laws) (omega int_laws) in
    let e : total.minor_units +ℤ a.minor_units +ℤ total_minor rest
        ≡ total.minor_units +ℤ (a.minor_units +ℤ total_minor rest) =
      omega int_laws in
    rw (add-returns total a all.0 safe) (
      sum_from-returns next rest (omega int_laws) all.1 nonneg.1 (rw e bound)
      ∙ ap (λ n. done (money n total.currency)) e)

-- Amounts in the currency asked for, none of them negative, whose sum is a safe integer, add up to
-- that sum without a throw.
pub sum-returns :
    (amounts : List Money) (c : Currency)
    → All (InCurrency c) amounts
    → All IsNonneg amounts
    → total_minor amounts ≤ℤ pos max_safe_integer
    → sum amounts c ≡ done (money (total_minor amounts) c)
unfolding sum
sum-returns amounts c all nonneg bound =
    let e : pos 0 +ℤ total_minor amounts ≡ total_minor amounts = omega int_laws in
    sum_from-returns (zero_money c) amounts (omega arith) all nonneg (rw e bound)
    ∙ ap (λ n. done (money n c)) e
