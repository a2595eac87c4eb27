-- ===== src/Clients/TaxPeriod/Years.antt =====
-- The days on which years and months begin (`Date.UTC`, as tax-period.ts uses it).
use amc_system.Base.{
  ℕ, ◌+◌, ◌-◌, ◌*◌, ◌/◌, ◌%◌, ◌≤◌, ◌<◌, ◌≡◌, ap, ap₂, sym, subst, ◌∙◌, true, false, ltb, leb, arith,
  inl, inr, Bool-cases,
}
use amc_system.Base.Int.{
  ℤ, pos, negsuc, pos_part, neg_part, ◌+ℤ◌, ◌-ℤ◌, ◌*ℤ◌, ◌≤ℤ◌, ◌<ℤ◌, int_laws, eq_of_parts,
}
use amc_system.Base.Date.{floor_div, floor_mod, day_of_civil}
use amc_system.Clients.TaxPeriod.{YearMonth, next_month}

pub times_parts :
    (a : ℤ) (n : ℕ)
    → pos_part (a *ℤ pos n) + neg_part a * n ≡ neg_part (a *ℤ pos n) + pos_part a * n
unfolding ◌*ℤ◌
times_parts a n = ground arith

pub ruleset product_laws = (int_laws, times_parts)

-- Division with remainder.
pub twelfths : (z : ℤ) → floor_div z 12 *ℤ pos 12 +ℤ pos (floor_mod z 12) ≡ z
twelfths (pos n) = omega (product_laws, times_parts (pos (n / 12)) 12)
twelfths (negsuc n) = omega (product_laws, times_parts (negsuc (n / 12)) 12)

pub eras : (z : ℤ) → floor_div z 146_097 *ℤ pos 146_097 +ℤ pos (floor_mod z 146_097) ≡ z
eras (pos n) = omega (product_laws, times_parts (pos (n / 146_097)) 146_097)
eras (negsuc n) = omega (product_laws, times_parts (negsuc (n / 146_097)) 146_097)

-- The days before a year of an era, and before a year.
unfoldable pub in_era : ℕ → ℕ
in_era yoe = yoe * 365 + yoe / 4 - yoe / 100

pub year_days : ℤ → ℤ
year_days y = floor_div y 400 *ℤ pos 146_097 +ℤ pos (in_era (floor_mod y 400))

in_years : (n yoe : ℕ) → yoe < 400 → pos yoe +ℤ pos n *ℤ pos 400 ≡ pos (n * 400 + yoe)
in_years n yoe h = omega (product_laws, times_parts (pos n) 400)

in_years_before :
    (n yoe : ℕ) → yoe < 400 → pos yoe +ℤ negsuc n *ℤ pos 400 ≡ negsuc (n * 400 + (399 - yoe))
in_years_before n yoe h = omega (product_laws, times_parts (negsuc n) 400)

pub year_of_era :
    (era : ℤ) (yoe : ℕ)
    → yoe < 400
    → year_days (pos yoe +ℤ era *ℤ pos 400) ≡ era *ℤ pos 146_097 +ℤ pos (in_era yoe)
unfolding year_days
year_of_era (pos n) yoe h =
    let q : (n * 400 + yoe) / 400 ≡ n = omega arith in
    let r : (n * 400 + yoe) % 400 ≡ yoe = omega arith in
    ap year_days (in_years n yoe h) ∙ ap₂ (λ a b. pos a *ℤ pos 146_097 +ℤ pos (in_era b)) q r
year_of_era (negsuc n) yoe h =
    let q : (n * 400 + (399 - yoe)) / 400 ≡ n = omega arith in
    let r : 399 - (n * 400 + (399 - yoe)) % 400 ≡ yoe = omega arith in
    ap year_days (in_years_before n yoe h)
    ∙ ap₂ (λ a b. negsuc a *ℤ pos 146_097 +ℤ pos (in_era b)) q r

four_hundreds : (z : ℤ) → pos (floor_mod z 400) +ℤ floor_div z 400 *ℤ pos 400 ≡ z
four_hundreds (pos n) = omega (product_laws, times_parts (pos (n / 400)) 400)
four_hundreds (negsuc n) = omega (product_laws, times_parts (negsuc (n / 400)) 400)

floor_mod-small : (z : ℤ) → floor_mod z 400 < 400
floor_mod-small (pos n) = omega arith
floor_mod-small (negsuc n) = omega arith

in_era_step : (yoe : ℕ) → in_era yoe + 365 ≤ in_era (yoe + 1)
unfolding in_era
in_era_step yoe = omega arith

-- The year after a year of an era.
next_year :
    (era : ℤ) (yoe : ℕ)
    → yoe < 400
    → era *ℤ pos 146_097 +ℤ pos (in_era yoe) +ℤ pos 365
      ≤ℤ year_days (pos yoe +ℤ era *ℤ pos 400 +ℤ pos 1)
next_year era yoe h = elim (Bool-cases (ltb yoe 399)) [
  | inl within ↦
      let e : pos yoe +ℤ era *ℤ pos 400 +ℤ pos 1 ≡ pos (yoe + 1) +ℤ era *ℤ pos 400 =
        omega int_laws in
      let less : yoe + 1 < 400 = ground arith in
      rw (e, year_of_era era (yoe + 1) less) (omega (int_laws, in_era_step yoe))
  | inr last ↦
      let is_last : yoe ≡ 399 = ground arith in
      let e : pos 399 +ℤ era *ℤ pos 400 +ℤ pos 1 ≡ pos 0 +ℤ (era +ℤ pos 1) *ℤ pos 400 =
        omega (int_laws, times_parts era 400, times_parts (era +ℤ pos 1) 400) in
      rw (is_last, e, year_of_era (era +ℤ pos 1) 0 (omega arith))
        (unfold in_era in
          omega (int_laws, times_parts era 146_097, times_parts (era +ℤ pos 1) 146_097))
]

year_step : (y : ℤ) → year_days y +ℤ pos 365 ≤ℤ year_days (y +ℤ pos 1)
year_step y =
    subst (λ z. year_days z +ℤ pos 365 ≤ℤ year_days (z +ℤ pos 1)) (four_hundreds y)
      (subst
        (λ d.
          d +ℤ pos 365 ≤ℤ year_days (pos (floor_mod y 400) +ℤ floor_div y 400 *ℤ pos 400 +ℤ pos 1))
        (sym (year_of_era (floor_div y 400) (floor_mod y 400) (floor_mod-small y)))
        (next_year (floor_div y 400) (floor_mod y 400) (floor_mod-small y)))

-- The day on which a month begins.
unfoldable pub first_day : YearMonth → ℤ
first_day m = day_of_civil (record { year = m.year; month = m.month; day = 1 })

gather :
    (a : ℤ) (i j : ℕ)
    → a +ℤ pos (i + j) +ℤ pos 1 -ℤ pos 719_469 ≡ a +ℤ pos i +ℤ pos j -ℤ pos 719_468
gather a i j = omega int_laws

pub first_day_early :
    (m : YearMonth)
    → m.month ≤ 2
    → first_day m
      ≡ year_days (m.year -ℤ pos 1) +ℤ pos ((153 * (m.month + 9) + 2) / 5) -ℤ pos 719_468
unfolding first_day day_of_civil year_days in_era
first_day_early m h = let early : leb m.month 2 ≡ true = ground arith in rw early (gather _ _ _)

pub first_day_late :
    (m : YearMonth)
    → 2 < m.month
    → first_day m ≡ year_days m.year +ℤ pos ((153 * (m.month - 3) + 2) / 5) -ℤ pos 719_468
unfolding first_day day_of_civil year_days in_era
first_day_late m h = let late : leb m.month 2 ≡ false = ground arith in rw late (gather _ _ _)

pub back : (y : ℤ) → y +ℤ pos 1 -ℤ pos 1 ≡ y
back y = omega int_laws

forth : (y : ℤ) → y -ℤ pos 1 +ℤ pos 1 ≡ y
forth y = omega int_laws

unfoldable pub month : ℤ → ℕ → YearMonth
month y m = record { year = y; month = m }

-- A month begins before the next one.
pub month_step :
    (y : ℤ) (m : ℕ) → 1 ≤ m → m ≤ 12 → first_day (month y m) ≤ℤ first_day (next_month (month y m))
unfolding month
month_step y m low high = elim (Bool-cases (ltb 12 (m + 1))) [
  | inl over ↦
      let e : m ≡ 12 = ground arith in
      rw
        (
          over,
          e,
          first_day_late (month y 12) (omega arith),
          first_day_early (month (y +ℤ pos 1) 1) (omega arith),
          back y,
        )
        (omega int_laws)
  | inr within ↦ elim (Bool-cases (leb m 1)) [
    | inl first ↦
        let e : m ≡ 1 = ground arith in
        rw (e, first_day_early (month y 1) (omega arith), first_day_early (month y 2) (omega arith))
          (omega int_laws)
    | inr more ↦ elim (Bool-cases (leb m 2)) [
      | inl second ↦
          let e : m ≡ 2 = ground arith in
          let step : year_days (y -ℤ pos 1) +ℤ pos 365 ≤ℤ year_days y =
            subst (λ z. year_days (y -ℤ pos 1) +ℤ pos 365 ≤ℤ year_days z) (forth y)
              (year_step (y -ℤ pos 1)) in
          rw
            (e, first_day_early (month y 2) (omega arith), first_day_late (month y 3) (omega arith))
            (omega (int_laws, step))
      | inr later ↦
          let low' : 2 < m = ground arith in
          rw
            (
              within,
              first_day_late (month y m) low',
              first_day_late (month y (m + 1)) (omega arith),
            )
            (omega int_laws)
    ]
  ]
]

-- A day of an era is before the next year of it.
pub before_next_year :
    (era : ℤ) (yoe doe : ℕ)
    → yoe < 400
    → doe < 146_097
    → (yoe < 399 → doe < in_era (yoe + 1))
    → era *ℤ pos 146_097 +ℤ pos doe <ℤ year_days (pos yoe +ℤ era *ℤ pos 400 +ℤ pos 1)
before_next_year era yoe doe h most inside = elim (Bool-cases (ltb yoe 399)) [
  | inl within ↦
      let e : pos yoe +ℤ era *ℤ pos 400 +ℤ pos 1 ≡ pos (yoe + 1) +ℤ era *ℤ pos 400 =
        omega int_laws in
      let less : yoe + 1 < 400 = ground arith in
      let before = inside (ground arith) in
      rw (e, year_of_era era (yoe + 1) less) (omega (int_laws, before))
  | inr last ↦
      let is_last : yoe ≡ 399 = ground arith in
      let e : pos 399 +ℤ era *ℤ pos 400 +ℤ pos 1 ≡ pos 0 +ℤ (era +ℤ pos 1) *ℤ pos 400 =
        omega (int_laws, times_parts era 400, times_parts (era +ℤ pos 1) 400) in
      rw (is_last, e, year_of_era (era +ℤ pos 1) 0 (omega arith))
        (unfold in_era in
          omega (int_laws, times_parts era 146_097, times_parts (era +ℤ pos 1) 146_097))
]
