-- ===== src/Kernel/Money/Major.antt =====
-- packages/kernel/src/money.ts, `ofMajor` and `toMajorString`: an amount as decimal text.
pub mod RoundTrip
use amc_system.Base.{
  ℕ, ◌+◌, ◌-◌, ◌*◌, Bool, true, false, Option, none, some, List, [], ◌∷◌, ◌++◌, take, drop, length,
  ltb, ◌==◌, if◌then◌else◌,
}
use amc_system.Base.Int.{ℤ, pos, negsuc, nat_abs, negate, ltb_ℤ}
use amc_system.Base.Text.{Text, trim}
use amc_system.Base.Digits.{is_digit, decimal, value, pad_start, pad_end}
use amc_system.Kernel.Throws.{Throws, done, threw, ◌>>=◌, unreadable_amount, too_many_decimals}
use amc_system.Kernel.Money.{Money, Currency, aed, usd, eur, gbp, sar, money, assert_safe_integer}

-- `MINOR_UNIT_DIGITS`
abbrev pub minor_unit_digits : Currency → ℕ
minor_unit_digits aed = 2
minor_unit_digits usd = 2
minor_unit_digits eur = 2
minor_unit_digits gbp = 2
minor_unit_digits sar = 2

-- `\d*`, as much as there is, and what stands behind it.
unfoldable pub span_digits : Text → Text × Text
span_digits [] = ([], [])
span_digits (c ∷ s) =
    let (front, behind) = span_digits s in if is_digit c then (c ∷ front, behind) else ([], c ∷ s)

-- What the pattern captures: the sign, the digits before the point, and those behind it.
pub record Match : Type 0 where
  pub sign : Bool
  pub whole : Text
  pub fraction : Text

-- `(\d+)$`, of the digits that were found behind a point and what follows them.
abbrev fraction_to_end : Bool → Text → Text × Text → Option Match
fraction_to_end sign whole ([], behind) = none
fraction_to_end sign whole (c ∷ s, []) =
    some (record { sign = sign; whole = whole; fraction = c ∷ s })
fraction_to_end sign whole (c ∷ s, _ ∷ _) = none

-- `(?:\.(\d+))?$`
abbrev pub match_fraction : Bool → Text → Text → Option Match
match_fraction sign whole [] = some (record { sign = sign; whole = whole; fraction = [] })
match_fraction sign whole (c ∷ s) =
    if c == 46 then fraction_to_end sign whole (span_digits s) else none

-- `(\d+)`, of the digits that were found and what follows them.
abbrev whole_then_rest : Bool → Text × Text → Option Match
whole_then_rest sign ([], behind) = none
whole_then_rest sign (c ∷ s, behind) = match_fraction sign (c ∷ s) behind

abbrev pub match_whole : Bool → Text → Option Match
match_whole sign s = whole_then_rest sign (span_digits s)

-- `DECIMAL_PATTERN.exec(text)`
unfoldable pub match_decimal : Text → Option Match
match_decimal [] = none
match_decimal (c ∷ s) = if c == 45 then match_whole true s else match_whole false (c ∷ s)

-- The sum that was read, in minor units.
abbrev pub minor_of : Bool → ℕ → ℤ
minor_of sign n = if sign then negate (pos n) else pos n

abbrev pub of_match : Currency → Option Match → Throws Money
of_match c none = threw unreadable_amount
of_match c (some m) =
    if ltb (minor_unit_digits c) (length m.fraction)
    then threw too_many_decimals
    else assert_safe_integer
        (minor_of m.sign (value (m.whole ++ pad_end (minor_unit_digits c) m.fraction)))
      >>= λ n. done (money n c)

-- `Money.ofMajor`, of a text.
unfoldable pub of_major : Text → Currency → Throws Money
of_major amount c = of_match c (match_decimal (trim amount))

-- `${negative ? '-' : ''}${whole}${digits > 0 ? `.${fraction}` : ''}`
abbrev pub major_text : Bool → ℕ → Text → Text
major_text negative digits absolute =
    let whole = take (length absolute - digits) absolute in
    let fraction = drop (length absolute - digits) absolute in
    (if negative then 45 ∷ [] else []) ++ (whole ++ (if ltb 0 digits then 46 ∷ fraction else []))

-- `toMajorString`. Seventeen digits have room for every safe integer.
unfoldable pub to_major_string : Money → Text
to_major_string a =
    let digits = minor_unit_digits a.currency in
    major_text (ltb_ℤ a.minor_units (pos 0)) digits
      (pad_start (digits + 1) (decimal 16 (nat_abs a.minor_units)))
