-- ===== src/Kernel/Tests.antt =====
-- The kernel at concrete arguments.
use amc_system.Base.{
  ℕ, ◌≤◌, ◌<◌, ◌≡◌, refl, Bool, true, false, List, [], ◌∷◌, arith, All, some, length,
}
use amc_system.Base.Int.{ℤ, pos, negsuc, negate, ◌+ℤ◌, ◌-ℤ◌, ◌*ℤ◌}
use amc_system.Kernel.Result.{Result}
use amc_system.Base.Text.{text, trim, trim_start, is_space}
use amc_system.Base.Digits.{decimal}
use amc_system.Kernel.Throws.{done, threw, unsafe_amount, too_many_decimals}
use amc_system.Kernel.Money.{
  Money, money, Currency, eq_currency, add, same_currency, assert_safe_integer, is_safe_integer,
  sum, sum_from, scale_by_ratio, divide_rounding, allocate, hand_out, divide_towards_zero,
  max_safe_integer,
}
use amc_system.Kernel.Money.Rounding.{IsRounded, scale_by_ratio-IsRounded}
use amc_system.Kernel.Money.Sums.{InCurrency, total_minor}
use amc_system.Kernel.Money.Allocation.{allocate_conserves}
use amc_system.Kernel.Money.Major.{of_major, to_major_string, match_decimal, span_digits}
use amc_system.Kernel.Money.Major.RoundTrip.{of_major-to_major_string}
use amc_system.Kernel.Duration.{duration, try_between}

abbrev aed : ℤ → Money
aed n = money n Currency.aed

abbrev two_answers : List (Result ℕ Bool)
two_answers = Result.ok true ∷ Result.ok false ∷ []

-- A third of one dirham, and a half fils away from zero on either side.
third : scale_by_ratio (aed (pos 100)) (pos 1) (pos 3) ≡ done (aed (pos 33))
unfolding scale_by_ratio divide_rounding assert_safe_integer is_safe_integer ◌*ℤ◌ negate
third = refl

half_up : scale_by_ratio (aed (pos 5)) (pos 1) (pos 2) ≡ done (aed (pos 3))
unfolding scale_by_ratio divide_rounding assert_safe_integer is_safe_integer ◌*ℤ◌ negate
half_up = refl

half_down : scale_by_ratio (aed (negsuc 4)) (pos 1) (pos 2) ≡ done (aed (negsuc 2))
unfolding scale_by_ratio divide_rounding assert_safe_integer is_safe_integer ◌*ℤ◌ negate
half_down = refl

too_large : add (aed (pos 9007199254740991)) (aed (pos 1)) ≡ threw unsafe_amount
unfolding add same_currency eq_currency assert_safe_integer ◌+ℤ◌
too_large = refl

two_amounts : sum (aed (pos 250) ∷ aed (negsuc 49) ∷ []) Currency.aed ≡ done (aed (pos 200))
unfolding sum sum_from add same_currency eq_currency assert_safe_integer ◌+ℤ◌
two_amounts = refl

-- Ten in three equal shares: the unit over goes to the first.
in_three :
    allocate (aed (pos 10)) (pos 1 ∷ pos 1 ∷ pos 1 ∷ [])
    ≡ done (aed (pos 4) ∷ aed (pos 3) ∷ aed (pos 3) ∷ [])
unfolding allocate hand_out divide_towards_zero is_safe_integer negate ◌+ℤ◌ ◌-ℤ◌ ◌*ℤ◌
in_three = refl

-- The unit over goes to the first share also where that one has no weight.
to_nobody :
    allocate (aed (pos 1)) (pos 0 ∷ pos 1 ∷ pos 1 ∷ [])
    ≡ done (aed (pos 1) ∷ aed (pos 0) ∷ aed (pos 0) ∷ [])
unfolding allocate hand_out divide_towards_zero is_safe_integer negate ◌+ℤ◌ ◌-ℤ◌ ◌*ℤ◌
to_nobody = refl

allocate_conserves_example :
    (shares : List Money) × (allocate (aed (pos 10)) (pos 1 ∷ pos 2 ∷ []) ≡ done shares)
    × (length shares ≡ 2)
    × All (InCurrency Currency.aed) shares
    × (total_minor shares ≡ pos 10)
allocate_conserves_example =
    allocate_conserves (aed (pos 10)) (pos 1 ∷ pos 2 ∷ []) (unfold is_safe_integer in refl)
      (omega arith) (omega arith)

scale_by_ratio-IsRounded_example :
    (Currency.aed ≡ Currency.aed)
    × (0 < 2)
    × IsRounded (negsuc 4 *ℤ pos 1) (pos 2) (negsuc 2)
    × (3 ≤ max_safe_integer)
scale_by_ratio-IsRounded_example =
    scale_by_ratio-IsRounded (aed (negsuc 4)) (pos 1) (pos 2) half_down

two_seconds : try_between (some (pos 1000)) (some (pos 3999)) ≡ Result.ok (duration (pos 2))
unfolding try_between ◌-ℤ◌
two_seconds = refl

-- Five fils less than a hundred dirhams are owed to the client.
of_major-to_major_string_example :
    of_major (to_major_string (money (negsuc 9_994) Currency.aed)) Currency.aed
    ≡ done (money (negsuc 9_994) Currency.aed)
of_major-to_major_string_example =
    of_major-to_major_string (money (negsuc 9_994) Currency.aed) (omega arith)

written : to_major_string (money (negsuc 9_994) Currency.aed) ≡ text "-99.95"
unfolding to_major_string decimal
written = refl

half_read : of_major (text " 7.5 ") Currency.usd ≡ done (money (pos 750) Currency.usd)
unfolding of_major trim trim_start is_space match_decimal span_digits assert_safe_integer
half_read = refl

too_fine : of_major (text "7.505") Currency.usd ≡ threw too_many_decimals
unfolding of_major trim trim_start is_space match_decimal span_digits assert_safe_integer
too_fine = refl
