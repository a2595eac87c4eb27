-- ===== src/Kernel/Money/Major/RoundTrip.antt =====
-- What is written by `toMajorString` and read by `ofMajor` (money.ts).
use amc_system.Base.{
  ℕ, ◌-◌, ◌≤◌, ◌≡◌, refl, ap, ◌∙◌, Bool, true, false, some, [], ◌∷◌, ◌++◌, take, drop, length,
  replicate, ◌==◌, if◌then◌else◌, All, All-append, All-take, All-drop, All-replicate, All-map_of,
  length-append, length-replicate, length-drop, length-take, take-append-drop, arith,
}
use amc_system.Base.Int.{ℤ, pos, negsuc, nat_abs, negate, ltb_ℤ}
use mathlib.Core.List.{append-nil}
use amc_system.Base.Text.{Text, is_space, trim-words}
use amc_system.Base.Digits.{
  is_digit, IsDigit, decimal, value, pad_start, pad_end, value-pad_start, value-decimal,
  decimal-IsDigit,
}
use amc_system.Kernel.Throws.{done, ◌>>=◌}
use amc_system.Kernel.Money.{Money, Currency, aed, usd, eur, gbp, sar, money, assert_safe_integer}
use amc_system.Kernel.Money.Sums.{IsSafe}
use amc_system.Kernel.Money.Rounding.{assert_safe_integer-safe}
use amc_system.Kernel.Money.Major.{
  minor_unit_digits, span_digits, match_whole, match_decimal, minor_of, of_match, of_major,
  major_text, to_major_string,
}

-- Digits are read to the first that is none.
span_digits_stop :
    (s : Text) (c : ℕ) (behind : Text)
    → All IsDigit s
    → is_digit c ≡ false
    → span_digits (s ++ c ∷ behind) ≡ (s, c ∷ behind)
unfolding span_digits
span_digits_stop [] c behind h stop = rw stop refl
span_digits_stop (d ∷ s) c behind h stop = rw (span_digits_stop s c behind h.1 stop, h.0) refl

span_digits_whole : (s : Text) → All IsDigit s → span_digits s ≡ (s, [])
unfolding span_digits
span_digits_whole [] h = refl
span_digits_whole (d ∷ s) h = rw (span_digits_whole s h.1, h.0) refl

match_whole-point :
    (sign : Bool) (d : ℕ) (whole : Text) (e : ℕ) (fraction : Text)
    → All IsDigit (d ∷ whole)
    → All IsDigit (e ∷ fraction)
    → match_whole sign (d ∷ whole ++ 46 ∷ e ∷ fraction)
      ≡ some (record { sign = sign; whole = d ∷ whole; fraction = e ∷ fraction })
match_whole-point sign d whole e fraction h k =
    rw (span_digits_stop (d ∷ whole) 46 (e ∷ fraction) h refl)
      (rw (span_digits_whole (e ∷ fraction) k) refl)

abbrev minus : Bool → Text
minus negative = if negative then 45 ∷ [] else []

match_decimal-text :
    (negative : Bool) (whole fraction : Text)
    → All IsDigit whole
    → All IsDigit fraction
    → 1 ≤ length whole
    → 1 ≤ length fraction
    → match_decimal (minus negative ++ (whole ++ 46 ∷ fraction))
      ≡ some (record { sign = negative; whole = whole; fraction = fraction })
unfolding match_decimal
match_decimal-text negative [] fraction h k some_whole some_fraction = absurd (omega arith)
match_decimal-text negative (d ∷ whole) [] h k some_whole some_fraction = absurd (omega arith)
match_decimal-text true (d ∷ whole) (e ∷ fraction) h k some_whole some_fraction =
    match_whole-point true d whole e fraction h k
match_decimal-text false (d ∷ whole) (e ∷ fraction) h k some_whole some_fraction =
    rw (digit_no_minus d h.0) (match_whole-point false d whole e fraction h k)
  where
    digit_no_minus : (c : ℕ) → is_digit c ≡ true → c == 45 ≡ false
    digit_no_minus c digit = ground arith

digit_no_space : (c : ℕ) → is_digit c ≡ true → is_space c ≡ false
unfolding is_space
digit_no_space c h = ground arith

abbrev IsWord : ℕ → Type 0
IsWord c = is_space c ≡ false

minus-IsWord : (negative : Bool) → All IsWord (minus negative)
unfolding is_space
minus-IsWord true = (refl, tt)
minus-IsWord false = tt

text-IsWord :
    (negative : Bool) (whole fraction : Text)
    → All IsDigit whole
    → All IsDigit fraction
    → All IsWord (minus negative ++ (whole ++ 46 ∷ fraction))
unfolding is_space
text-IsWord negative whole fraction h k =
    All-append IsWord (minus negative) (whole ++ 46 ∷ fraction) (minus-IsWord negative) (
      All-append IsWord whole (46 ∷ fraction) (All-map_of _ _ digit_no_space whole h)
        (refl, All-map_of _ _ digit_no_space fraction k))

-- What is read of a text with two decimals.
of_major-text :
    (c : Currency) (negative : Bool) (whole fraction : Text)
    → All IsDigit whole
    → All IsDigit fraction
    → 1 ≤ length whole
    → length fraction ≡ 2
    → of_major (minus negative ++ (whole ++ 46 ∷ fraction)) c ≡ (
        assert_safe_integer (minor_of negative (value (whole ++ fraction))) >>= λ n.
        done (money n c))
unfolding of_major
of_major-text c negative whole fraction h k some_whole two =
    let read = match_decimal-text negative whole fraction h k some_whole (omega (arith, two)) in
    rw (trim-words _ (text-IsWord negative whole fraction h k), read) (same c)
  where
    padded : pad_end 2 fraction ≡ fraction
    padded = rw two (append-nil fraction)

    same :
        (c : Currency)
        → of_match c (some (record { sign = negative; whole = whole; fraction = fraction })) ≡ (
            assert_safe_integer (minor_of negative (value (whole ++ fraction))) >>= λ n.
            done (money n c))
    same aed = rw (padded, two) refl
    same usd = rw (padded, two) refl
    same eur = rw (padded, two) refl
    same gbp = rw (padded, two) refl
    same sar = rw (padded, two) refl

minor_of-parts : (n : ℤ) → minor_of (ltb_ℤ n (pos 0)) (nat_abs n) ≡ n
unfolding negate
minor_of-parts (pos n) = ground arith
minor_of-parts (negsuc n) = ground arith

length-pad_start : (n : ℕ) (s : Text) → n ≤ length (pad_start n s)
length-pad_start n s = omega (
  arith,
  length-append (replicate (n - length s) 48) s,
  length-replicate {A = ℕ} (n - length s) 48,
)

major_text-two :
    (negative : Bool) (s : Text)
    → major_text negative 2 s
      ≡ minus negative ++ (take (length s - 2) s ++ 46 ∷ drop (length s - 2) s)
major_text-two negative s = refl

two_digits : (c : Currency) → minor_unit_digits c ≡ 2
two_digits aed = refl
two_digits usd = refl
two_digits eur = refl
two_digits gbp = refl
two_digits sar = refl

to_major_string-two :
    (a : Money)
    → to_major_string a
      ≡ major_text
          (ltb_ℤ a.minor_units (pos 0))
          2
          (pad_start 3 (decimal 16 (nat_abs a.minor_units)))
unfolding to_major_string
to_major_string-two a = rw (two_digits a.currency) refl

-- An amount that is a safe integer of minor units is read back from its text as it was, whatever its
-- currency and sign.
pub of_major-to_major_string :
    (a : Money) → IsSafe a.minor_units → of_major (to_major_string a) a.currency ≡ done a
of_major-to_major_string a safe =
    let n = nat_abs a.minor_units in
    let s = pad_start 3 (decimal 16 n) in
    let negative = ltb_ℤ a.minor_units (pos 0) in
    let long : 3 ≤ length s = length-pad_start 3 (decimal 16 n) in
    let digits : All IsDigit s =
      All-append IsDigit _ (decimal 16 n) (All-replicate IsDigit (3 - length (decimal 16 n)) refl)
        (decimal-IsDigit 16 n) in
    let whole = take (length s - 2) s in
    let fraction = drop (length s - 2) s in
    let two : length fraction ≡ 2 = omega (arith, length-drop (length s - 2) s) in
    let some_whole : 1 ≤ length whole = omega (arith, length-take (length s - 2) s (omega arith)) in
    let valued : value (whole ++ fraction) ≡ n =
      ap value (take-append-drop (length s - 2) s)
      ∙ value-pad_start 3 (decimal 16 n)
      ∙ value-decimal 16 n (omega arith) in
    let minor : minor_of negative (value (whole ++ fraction)) ≡ a.minor_units =
      ap (minor_of negative) valued ∙ minor_of-parts a.minor_units in
    ap (λ t. of_major t a.currency) (to_major_string-two a)
    ∙ of_major-text a.currency negative whole fraction (All-take IsDigit _ s digits)
        (All-drop IsDigit _ s digits) some_whole two
    ∙ rw (minor, assert_safe_integer-safe a.minor_units safe) refl
