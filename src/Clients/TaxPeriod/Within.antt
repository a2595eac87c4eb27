-- ===== src/Clients/TaxPeriod/Within.antt =====
-- The dates between two months that `Date.UTC` counts (tax-period.ts).
use amc_system.Base.{ℕ, zero, suc, ◌+◌, ◌-◌, ◌≤◌, ◌<◌, ◌≡◌, ap, ap₂, sym, subst, ◌∙◌, arith}
use amc_system.Base.Int.{ℤ, pos, negsuc, pos_part, neg_part, ◌+ℤ◌, ◌-ℤ◌, ◌*ℤ◌, ◌≤ℤ◌, ◌<ℤ◌, int_laws}
use amc_system.Base.Date.{floor_div, floor_mod, ms_per_day, midnight, day_of, day_of_civil, utc}
use amc_system.Kernel.Duration.{Instant}
use amc_system.Clients.TaxPeriod.{YearMonth, next_month, year_month_of}
use amc_system.Clients.TaxPeriod.Rounds.{
  month_number, months_on, month_number-months_on, month_number-next_month, year_month_of-month,
}
use amc_system.Clients.TaxPeriod.Years.{
  times_parts, product_laws, twelfths, first_day, back, month, month_step,
}
use amc_system.Clients.TaxPeriod.Days.{date-IsIn}

-- Midnights and days.
midnight-before : (day : ℤ) (date : Instant) → day ≤ℤ day_of date → midnight day ≤ℤ date
midnight-before day (pos n) h = omega (product_laws, times_parts day ms_per_day)
midnight-before day (negsuc n) h = omega (product_laws, times_parts day ms_per_day)

before-midnight : (day : ℤ) (date : Instant) → day_of date <ℤ day → date <ℤ midnight day
before-midnight day (pos n) h = omega (product_laws, times_parts day ms_per_day)
before-midnight day (negsuc n) h = omega (product_laws, times_parts day ms_per_day)

-- Months begin in their order.
months_later :
    (k : ℕ) (m : YearMonth) → 1 ≤ m.month → m.month ≤ 12 → first_day m ≤ℤ first_day (months_on k m)
unfolding month
months_later zero m low high = omega arith
months_later (suc k) m low high =
    let (_, high') = month_number-next_month m high in
    let step = month_step m.year m.month low high in
    let rest = months_later k (next_month m) (next_month-low m) high' in omega (arith, step, rest)
  where
    next_month-low : (m : YearMonth) → 1 ≤ (next_month m).month
    next_month-low m = ground arith

same_parts : (a b : ℤ) → a ≡ b → pos_part a + neg_part b ≡ pos_part b + neg_part a
same_parts a b e = subst (λ z. pos_part a + neg_part z ≡ pos_part z + neg_part a) e (omega arith)

-- The number of a month says which one it is.
month_number_inj :
    (a b : YearMonth)
    → 1 ≤ a.month
    → a.month ≤ 12
    → 1 ≤ b.month
    → b.month ≤ 12
    → month_number a ≡ month_number b
    → a ≡ b
unfolding month
month_number_inj a b la ha lb hb e =
    let parts = same_parts (month_number a) (month_number b) e in
    let years : a.year ≡ b.year =
      omega (int_laws, parts, times_parts a.year 12, times_parts b.year 12) in
    let year_parts = same_parts a.year b.year years in
    let months : a.month ≡ b.month =
      omega (int_laws, parts, year_parts, times_parts a.year 12, times_parts b.year 12) in
    ap₂ month years months

next_month-bounds :
    (m : YearMonth) → m.month ≤ 12 → (1 ≤ (next_month m).month) × ((next_month m).month ≤ 12)
next_month-bounds m h = (ground arith, (month_number-next_month m h).1)

months_on-bounds :
    (k : ℕ) (m : YearMonth)
    → 1 ≤ m.month
    → m.month ≤ 12
    → (1 ≤ (months_on k m).month) × ((months_on k m).month ≤ 12)
months_on-bounds zero m low high = (low, high)
months_on-bounds (suc k) m low high =
    let (low', high') = next_month-bounds m high in months_on-bounds k (next_month m) low' high'

-- A month with a greater number begins no earlier.
later_first_day :
    (k : ℕ) (a b : YearMonth)
    → 1 ≤ a.month
    → a.month ≤ 12
    → 1 ≤ b.month
    → b.month ≤ 12
    → month_number b ≡ month_number a +ℤ pos k
    → first_day a ≤ℤ first_day b
later_first_day k a b la ha lb hb e =
    let (low, high) = months_on-bounds k a la ha in
    let same : months_on k a ≡ b =
      month_number_inj (months_on k a) b low high lb hb (month_number-months_on k a ha ∙ sym e) in
    subst (λ m. first_day a ≤ℤ first_day m) same (months_later k a la ha)

-- The month that `Date.UTC` takes for one that is counted from 0.
counted : ℤ → ℤ → YearMonth
counted year z = month (year +ℤ floor_div z 12) (floor_mod z 12 + 1)

floor_mod-twelve : (z : ℤ) → floor_mod z 12 + 1 ≤ 12
floor_mod-twelve (pos n) = omega arith
floor_mod-twelve (negsuc n) = omega arith

month_number-counted : (year z : ℤ) → month_number (counted year z) ≡ year *ℤ pos 12 +ℤ z +ℤ pos 1
unfolding counted month
month_number-counted year z =
    let parts = same_parts _ _ (twelfths z) in
    omega (
      int_laws,
      parts,
      times_parts year 12,
      times_parts (floor_div z 12) 12,
      times_parts (year +ℤ floor_div z 12) 12,
    )

utc-first : (year z : ℤ) → utc year z (pos 1) ≡ midnight (first_day (counted year z))
unfolding utc counted month first_day
utc-first year z = ap midnight (
    back (
      day_of_civil (record { year = year +ℤ floor_div z 12; month = floor_mod z 12 + 1; day = 1 })))

day_before : (day : ℤ) → midnight (day +ℤ pos 0 -ℤ pos 1) +ℤ pos ms_per_day ≡ midnight day
day_before day =
    omega (int_laws, times_parts day ms_per_day, times_parts (day +ℤ pos 0 -ℤ pos 1) ms_per_day)

utc-last :
    (year z : ℤ) → utc year z (pos 0) +ℤ pos ms_per_day ≡ midnight (first_day (counted year z))
unfolding utc counted month first_day
utc-last year z =
    day_before
      (day_of_civil (record { year = year +ℤ floor_div z 12; month = floor_mod z 12 + 1; day = 1 }))

counted-bounds : (year z : ℤ) → (1 ≤ (counted year z).month) × ((counted year z).month ≤ 12)
unfolding counted month
counted-bounds year z = (omega arith, floor_mod-twelve z)

-- A date is within the months from so many before a later one to that one.
pub date_within :
    (date : Instant) (last : YearMonth) (k length : ℕ)
    → k < length
    → month_number last ≡ month_number (year_month_of date) +ℤ pos k
    → (utc last.year (pos last.month -ℤ pos length) (pos 1) ≤ℤ date)
      × (date <ℤ utc last.year (pos last.month) (pos 0) +ℤ pos ms_per_day)
date_within date last k length h e =
    let m = year_month_of date in
    let (low, high) = year_month_of-month date in
    let (starts, ends) = date-IsIn date in
    let parts = same_parts _ _ e in
    let z = pos last.month -ℤ pos length in
    let from = counted last.year z in
    let to = counted last.year (pos last.month) in
    let (from_low, from_high) = counted-bounds last.year z in
    let (to_low, to_high) = counted-bounds last.year (pos last.month) in
    let from_parts = same_parts _ _ (month_number-counted last.year z) in
    let to_parts = same_parts _ _ (month_number-counted last.year (pos last.month)) in
    let (one_on, next_high) = month_number-next_month m high in
    let next_low = (next_month-bounds m high).0 in
    let next_parts = same_parts _ _ one_on in
    let first : first_day from ≤ℤ first_day m =
      later_first_day (length - 1 - k) from m from_low from_high low high
        (omega (int_laws, parts, from_parts)) in
    let after : first_day (next_month m) ≤ℤ first_day to =
      later_first_day k (next_month m) to next_low next_high to_low to_high
        (omega (int_laws, parts, to_parts, next_parts)) in
    (
      subst (λ t. t ≤ℤ date) (sym (utc-first last.year z))
          (midnight-before (first_day from) date (omega (arith, first, starts))),
      subst (λ t. date <ℤ t) (sym (utc-last last.year (pos last.month)))
          (before-midnight (first_day to) date (omega (arith, after, ends))),
    )
