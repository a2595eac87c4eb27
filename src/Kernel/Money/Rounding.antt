-- ===== src/Kernel/Money/Rounding.antt =====
-- The one rounding rule of money.ts, `divideRoundingHalfAwayFromZero`, and what goes through it.
use native.Mathlib.Nat.{div-add-mod', mod-lt, mul-le-mul, le_refl, le_trans}
use native.Mathlib.Decide.{dec_lt}
use amc_system.Base.{
  differs, ℕ, zero, suc, ◌+◌, ◌*◌, ◌/◌, ◌%◌, ◌≤◌, ◌<◌, ◌≡◌, ◌≢◌, sym, subst, ◌∙◌, refl, Bool, true,
  false, inl, inr, arith, if◌then◌else◌, leb, leb→le, Bool-cases,
}
use amc_system.Base.Int.{ℤ, pos, negsuc, nat_abs, negate, ◌*ℤ◌, ◌≤ℤ◌, ltb_ℤ}
use amc_system.Kernel.Throws.{done}
use amc_system.Kernel.Money.{
  Money, max_safe_integer, is_safe_integer, assert_safe_integer, divide_rounding, scale_by_ratio,
  percentage_in_basis_points, money,
}

pub assert_safe_integer-done :
    (n : ℤ) {m : ℤ} → assert_safe_integer n ≡ done m → (m ≡ n) × (nat_abs n ≤ max_safe_integer)
unfolding assert_safe_integer
assert_safe_integer-done n h = ground arith

pub assert_safe_integer-safe :
    (n : ℤ) → nat_abs n ≤ max_safe_integer → assert_safe_integer n ≡ done n
unfolding assert_safe_integer
assert_safe_integer-safe n h = ground arith

-- The quotient on the absolute values.
abbrev size : ℕ → ℕ → ℕ
size n d = if leb d (n % d * 2) then n / d + 1 else n / d

lt_of_leb-false : (a b : ℕ) → leb a b ≡ false → b < a
lt_of_leb-false a b h = ground arith

size_bounds :
    (n d : ℕ) → 0 < d → (2 * (size n d * d) ≤ 2 * n + d) × (2 * n + d < 2 * (size n d * d) + 2 * d)
size_bounds n d h = elim (Bool-cases (leb d (n % d * 2))) [
  | inl up ↦ rw up (omega (arith, leb→le d (n % d * 2) up, div-add-mod' n d, mod-lt n h))
  | inr down ↦
      rw down (omega (arith, lt_of_leb-false d (n % d * 2) down, div-add-mod' n d, mod-lt n h))
]

-- The sign put back.
abbrev signed : Bool → ℕ → ℤ
signed true k = negate (pos k)
signed false k = pos k

signed_lem :
    (b : Bool) (k : ℕ)
    → (nat_abs (signed b k) ≡ k)
      × (b ≡ true → signed b k ≤ℤ pos 0)
      × (b ≡ false → pos 0 ≤ℤ signed b k)
unfolding negate
signed_lem true zero = ground arith
signed_lem true (suc k) = ground arith
signed_lem false k = ground arith

abbrev differ : ℤ → ℤ → Bool
differ n d = differs (ltb_ℤ n (pos 0)) (ltb_ℤ d (pos 0))

-- A division returns but for a zero divisor.
pub divide_rounding-eq :
    (n d : ℤ)
    → 0 < nat_abs d
    → divide_rounding n d ≡ done (signed (differ n d) (size (nat_abs n) (nat_abs d)))
unfolding divide_rounding
divide_rounding-eq n d h = ground arith

-- q is n / d rounded to the nearest whole number, a half away from zero: its size is the largest
-- with 2 |q| |d| ≤ 2 |n| + |d|, and its sign is that of the quotient.
abbrev pub IsRounded : ℤ → ℤ → ℤ → Type 0
IsRounded n d q =
    (2 * (nat_abs q * nat_abs d) ≤ 2 * nat_abs n + nat_abs d)
    × (2 * nat_abs n + nat_abs d < 2 * (nat_abs q * nat_abs d) + 2 * nat_abs d)
    × (differ n d ≡ true → q ≤ℤ pos 0)
    × (differ n d ≡ false → pos 0 ≤ℤ q)

signed-IsRounded :
    (n d : ℤ) → 0 < nat_abs d → IsRounded n d (signed (differ n d) (size (nat_abs n) (nat_abs d)))
signed-IsRounded n d h =
    let k = size (nat_abs n) (nat_abs d) in
    let (abs, below, above) = signed_lem (differ n d) k in
    let (low, high) = size_bounds (nat_abs n) (nat_abs d) h in rw abs (low, high, below, above)

done_injective : {a b : ℤ} → done a ≡ done b → a ≡ b
done_injective h = cc

divides_by_zero : (n d : ℤ) {q : ℤ} → ¬ (0 < nat_abs d) → divide_rounding n d ≢ done q
unfolding divide_rounding
divides_by_zero n d p h = ground arith

pub divide_rounding-IsRounded :
    (n d : ℤ) {q : ℤ} → divide_rounding n d ≡ done q → (0 < nat_abs d) × IsRounded n d q
divide_rounding-IsRounded n d {q} h = elim (dec_lt 0 (nat_abs d)) [
  | yes p ↦
      let e : done (signed (differ n d) (size (nat_abs n) (nat_abs d))) ≡ done q =
        sym (divide_rounding-eq n d p) ∙ h in
      (p, subst (IsRounded n d) (done_injective e) (signed-IsRounded n d p))
  | no p ↦ absurd (divides_by_zero n d p h)
]

-- A scaling that returns has divided, and kept the currency.
scale_by_ratio-done :
    (a : Money) (n d : ℤ) {r : Money}
    → scale_by_ratio a n d ≡ done r
    → (r.currency ≡ a.currency)
      × (divide_rounding (a.minor_units *ℤ n) d ≡ done r.minor_units)
      × (nat_abs r.minor_units ≤ max_safe_integer)
unfolding scale_by_ratio
scale_by_ratio-done a n d h = grind (arith, assert_safe_integer-done)

-- A scaling that returns had a divisor other than zero. It keeps the currency, and gives the exact
-- ratio rounded to the nearest unit, a half away from zero, which is a safe integer.
pub scale_by_ratio-IsRounded :
    (a : Money) (n d : ℤ) {r : Money}
    → scale_by_ratio a n d ≡ done r
    → (r.currency ≡ a.currency)
      × (0 < nat_abs d)
      × IsRounded (a.minor_units *ℤ n) d r.minor_units
      × (nat_abs r.minor_units ≤ max_safe_integer)
scale_by_ratio-IsRounded a n d h =
    let (currency, divided, safe) = scale_by_ratio-done a n d h in
    let (nonzero, rounded) = divide_rounding-IsRounded (a.minor_units *ℤ n) d divided in
    (currency, nonzero, rounded, safe)

-- The other way: safe arguments, a divisor and a quotient in range do not throw.
scale_by_ratio-returns :
    (a : Money) (n d q : ℤ)
    → nat_abs n ≤ max_safe_integer
    → nat_abs d ≤ max_safe_integer
    → divide_rounding (a.minor_units *ℤ n) d ≡ done q
    → nat_abs q ≤ max_safe_integer
    → scale_by_ratio a n d ≡ done (money q a.currency)
unfolding scale_by_ratio is_safe_integer
scale_by_ratio-returns a n d q hn hd e safe = ground (arith, assert_safe_integer-safe q safe)

-- The product of an amount and a number that is not negative.
pub nat_abs-*ℤ : (a : ℤ) (k : ℕ) → nat_abs (a *ℤ pos k) ≡ nat_abs a * k
unfolding ◌*ℤ◌
nat_abs-*ℤ (pos n) k = ground arith
nat_abs-*ℤ (negsuc n) k = ground arith

pub *ℤ-nonneg : (a : ℤ) (k : ℕ) → pos 0 ≤ℤ a → pos 0 ≤ℤ a *ℤ pos k
unfolding ◌*ℤ◌
*ℤ-nonneg (pos n) k h = ground arith
*ℤ-nonneg (negsuc n) k h = absurd (omega arith)

rounded_share :
    (n q : ℤ) (size k : ℕ)
    → nat_abs n ≡ size * k
    → k ≤ 10_000
    → IsRounded n (pos 10_000) q
    → nat_abs q ≤ size
rounded_share n q size k e h (low, _, _, _) = omega (arith, mul-le-mul (le_refl size) h)

pub nonneg_quotient : (n q : ℤ) → pos 0 ≤ℤ n → IsRounded n (pos 10_000) q → pos 0 ≤ℤ q
nonneg_quotient n q h (_, _, _, above) = above (ground arith)

-- A share of between nothing and the whole, in basis points, of a safe amount does not throw. It is in
-- the amount's currency, no larger than the amount, and not negative where the amount is not.
pub percentage_bounds :
    (a : Money) (k : ℕ)
    → k ≤ 10_000
    → nat_abs a.minor_units ≤ max_safe_integer
    → (r : Money) × (percentage_in_basis_points a (pos k) ≡ done r)
      × (r.currency ≡ a.currency)
      × (nat_abs r.minor_units ≤ nat_abs a.minor_units)
      × (pos 0 ≤ℤ a.minor_units → pos 0 ≤ℤ r.minor_units)
unfolding percentage_in_basis_points
percentage_bounds a k h safe =
    let n = a.minor_units *ℤ pos k in
    let q = signed (differ n (pos 10_000)) (size (nat_abs n) 10_000) in
    let positive : 0 < 10_000 = omega arith in
    let rounded : IsRounded n (pos 10_000) q = signed-IsRounded n (pos 10_000) positive in
    let smaller : nat_abs q ≤ nat_abs a.minor_units =
      rounded_share n q (nat_abs a.minor_units) k (nat_abs-*ℤ a.minor_units k) h rounded in
    let returns : percentage_in_basis_points a (pos k) ≡ done (money q a.currency) =
      scale_by_ratio-returns a (pos k) (pos 10_000) q (small h) (omega arith)
        (divide_rounding-eq n (pos 10_000) positive) (le_trans smaller safe) in
    (
      money q a.currency,
      returns,
      refl,
      smaller,
      λ nonneg. nonneg_quotient n q (*ℤ-nonneg a.minor_units k nonneg) rounded,
    )
  where
    small : {m : ℕ} → m ≤ 10_000 → m ≤ max_safe_integer
    small le = omega arith
