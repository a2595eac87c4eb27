-- ===== src/Kernel/Money.antt =====
-- packages/kernel/src/money.ts: exact amounts in whole minor units. The source computes on BigInt
-- and puts the result back into a number, which throws outside the safe integers.
pub mod Rounding
pub mod Sums
pub mod Allocation
pub mod Major
use amc_system.Base.{
  differs, ℕ, zero, suc, ◌+◌, ◌-◌, ◌*◌, ◌/◌, ◌%◌, ◌≡◌, Bool, true, false, not, ◌&&◌, ◌||◌, List, [],
  ◌∷◌, map, leb, ltb, ◌==◌, if◌then◌else◌, any, length,
}
use amc_system.Base.Int.{
  ℤ, pos, negsuc, nat_abs, pos_part, neg_part, negate, ◌+ℤ◌, ◌-ℤ◌, ◌*ℤ◌, ltb_ℤ, leb_ℤ, eqb_ℤ,
}
use amc_system.Kernel.Throws.{
  Throws, done, threw, ◌>>=◌, ◌>>◌, throw_if, division_by_zero, unsafe_amount, unsafe_minor_units,
  mixed_currencies, unsafe_factor, unsafe_ratio, no_weights, bad_weights, zero_weights,
}

-- `CurrencyCode`
pub data Currency : Type 0 where
  aed usd eur gbp sar : Currency

abbrev currency_number : Currency → ℕ
currency_number aed = 0
currency_number usd = 1
currency_number eur = 2
currency_number gbp = 3
currency_number sar = 4

-- `a === b` on currency codes.
unfoldable pub eq_currency : Currency → Currency → Bool
eq_currency a b = currency_number a == currency_number b

pub record Money : Type 0 where
  pub minor_units : ℤ
  pub currency : Currency

abbrev pub money : ℤ → Currency → Money
money n c = record { minor_units = n; currency = c }

-- `Number.MAX_SAFE_INTEGER`
abbrev pub max_safe_integer : ℕ
max_safe_integer = 9007199254740991

-- `Number.isSafeInteger`, of a whole number.
unfoldable pub is_safe_integer : ℤ → Bool
is_safe_integer n = leb (nat_abs n) max_safe_integer

unfoldable pub assert_safe_integer : ℤ → Throws ℤ
assert_safe_integer n =
    if ltb_ℤ (pos max_safe_integer) n || ltb_ℤ n (negsuc (max_safe_integer - 1))
    then threw unsafe_amount
    else done n

-- `divideRoundingHalfAwayFromZero`: on the absolute values, with the sign put back.
unfoldable pub divide_rounding : ℤ → ℤ → Throws ℤ
divide_rounding numerator denominator =
    let negative = differs (ltb_ℤ numerator (pos 0)) (ltb_ℤ denominator (pos 0)) in
    let quotient = nat_abs numerator / nat_abs denominator in
    let remainder = nat_abs numerator % nat_abs denominator in
    let rounded = if leb (nat_abs denominator) (remainder * 2) then quotient + 1 else quotient in
    if eqb_ℤ denominator (pos 0)
    then threw division_by_zero
    else done (if negative then negate (pos rounded) else pos rounded)

unfoldable pub of_minor : ℤ → Currency → Throws Money
unfolding is_safe_integer
of_minor n c = do throw_if (not (is_safe_integer n)) unsafe_minor_units; done (money n c)

-- `Money.zero`
abbrev pub zero_money : Currency → Money
zero_money c = money (pos 0) c

-- `sameCurrency`
unfoldable pub same_currency : Money → Money → Throws (Unit {0})
same_currency a b = throw_if (not (eq_currency b.currency a.currency)) mixed_currencies

unfoldable pub add : Money → Money → Throws Money
unfolding same_currency
add a b = do
  same_currency a b
  n ← assert_safe_integer (a.minor_units +ℤ b.minor_units)
  done (money n a.currency)

unfoldable pub subtract : Money → Money → Throws Money
unfolding same_currency
subtract a b = do
  same_currency a b
  n ← assert_safe_integer (a.minor_units -ℤ b.minor_units)
  done (money n a.currency)

abbrev pub negated : Money → Money
negated a = money (negate a.minor_units) a.currency

unfoldable pub times : Money → ℤ → Throws Money
times a factor = do
  throw_if (not (is_safe_integer factor)) unsafe_factor
  n ← assert_safe_integer (a.minor_units *ℤ factor)
  done (money n a.currency)

unfoldable pub scale_by_ratio : Money → ℤ → ℤ → Throws Money
scale_by_ratio a numerator denominator = do
  throw_if (not (is_safe_integer numerator) || not (is_safe_integer denominator)) unsafe_ratio
  scaled ← divide_rounding (a.minor_units *ℤ numerator) denominator
  n ← assert_safe_integer scaled
  done (money n a.currency)

unfoldable pub percentage_in_basis_points : Money → ℤ → Throws Money
percentage_in_basis_points a basis_points = scale_by_ratio a basis_points (pos 10_000)

-- `compare`: the three results of the source.
pub data Order : Type 0 where
  less equal greater : Order

unfoldable pub compare_money : Money → Money → Throws Order
unfolding same_currency
compare_money a b = do
  same_currency a b
  done (
      if ltb_ℤ a.minor_units b.minor_units
      then less
      else if ltb_ℤ b.minor_units a.minor_units
      then greater
      else equal)

unfoldable pub equals : Money → Money → Bool
equals a b = eq_currency a.currency b.currency && eqb_ℤ a.minor_units b.minor_units

abbrev pub is_zero : Money → Bool
is_zero a = eqb_ℤ a.minor_units (pos 0)

abbrev pub is_negative : Money → Bool
is_negative a = ltb_ℤ a.minor_units (pos 0)

abbrev pub is_positive : Money → Bool
is_positive a = ltb_ℤ (pos 0) a.minor_units

-- The `reduce` of `Money.sum`, with the total so far.
unfoldable pub sum_from : Money → List Money → Throws Money
sum_from total [] = done total
sum_from total (amount ∷ amounts) = add total amount >>= λ t. sum_from t amounts

unfoldable pub sum : List Money → Currency → Throws Money
sum amounts c = sum_from (zero_money c) amounts

-- The quotient of BigInt, which goes towards zero. The divisor is a sum of weights.
unfoldable pub divide_towards_zero : ℤ → ℕ → ℤ
divide_towards_zero n d =
    if ltb_ℤ n (pos 0) then negate (pos (nat_abs n / d)) else pos (nat_abs n / d)

-- The sum of the weights. The source adds numbers, which is exact up to `max_safe_integer`.
abbrev pub total_weight : List ℕ → ℕ
total_weight [] = 0
total_weight (w ∷ ws) = w + total_weight ws

-- The shares before the remainder is handed out.
abbrev pub base_shares : ℤ → ℕ → List ℕ → List ℤ
base_shares minor total [] = []
base_shares minor total (w ∷ ws) =
    divide_towards_zero (minor *ℤ pos w) total ∷ base_shares minor total ws

abbrev pub distributed : List ℤ → ℤ
distributed [] = pos 0
distributed (s ∷ ss) = s +ℤ distributed ss

-- `shares[index] += task`
abbrev pub bump_at : List ℤ → ℕ → ℤ → List ℤ
bump_at [] i task = []
bump_at (s ∷ ss) zero task = (s +ℤ task) ∷ ss
bump_at (s ∷ ss) (suc i) task = s ∷ bump_at ss i task

-- The loop that hands the remainder out, one unit to each share from the first on, and round again.
-- `rounds` is the absolute value of the remainder, which falls by one each time.
unfoldable pub hand_out : ℕ → ℤ → ℕ → List ℤ → List ℤ
hand_out zero task index shares = shares
hand_out (suc rounds) task index shares =
    hand_out rounds task ((index + 1) % length shares) (bump_at shares index task)

abbrev pub moneys : List ℤ → Currency → List Money
moneys shares c = map (λ n. money n c) shares

-- A weight is checked to be a safe integer that is not negative; a weight here is a whole number.
abbrev pub is_bad_weight : ℤ → Bool
is_bad_weight w = not (is_safe_integer w) || ltb_ℤ w (pos 0)

unfoldable pub allocate : Money → List ℤ → Throws (List Money)
unfolding is_safe_integer
allocate a weights =
    let ws = map pos_part weights in
    let shares = base_shares a.minor_units (total_weight ws) ws in
    let remainder = a.minor_units -ℤ distributed shares in
    let task = if ltb_ℤ remainder (pos 0) then negsuc 0 else pos 1 in
    do
      throw_if (length weights == 0) no_weights
      throw_if (any is_bad_weight weights) bad_weights
      throw_if (total_weight ws == 0) zero_weights
      done (moneys (hand_out (nat_abs remainder) task 0 shares) a.currency)
