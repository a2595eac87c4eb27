-- ===== src/Clients/TaxPeriod/Days.antt =====
-- The month of a day (`getUTCMonth`, as tax-period.ts uses it).
use amc_system.Base.{
  ℕ, ◌+◌, ◌-◌, ◌*◌, ◌/◌, ◌≤◌, ◌<◌, ◌≡◌, refl, ap, sym, subst, ◌∙◌, true, false, ltb, leb, arith,
  inl, inr, Bool-cases, if◌then◌else◌,
}
use amc_system.Base.Int.{ℤ, pos, negsuc, ◌+ℤ◌, ◌-ℤ◌, ◌*ℤ◌, ◌≤ℤ◌, ◌<ℤ◌, int_laws}
use amc_system.Base.Date.{floor_div, floor_mod, day_of, civil_of, of_era}
use amc_system.Kernel.Duration.{Instant}
use amc_system.Clients.TaxPeriod.{YearMonth, next_month, year_month_of}
use amc_system.Clients.TaxPeriod.Years.{
  eras, in_era, year_of_era, first_day, first_day_early, first_day_late, back, month,
  before_next_year,
}

abbrev IsIn : ℤ → YearMonth → Type 0
IsIn day m = (first_day m ≤ℤ day) × (day <ℤ first_day (next_month m))

-- The first ten months of a year that begins in March, and the last two.
late_month-IsIn :
    (era : ℤ) (yoe doy mp : ℕ)
    → yoe < 400
    → mp < 10
    → (153 * mp + 2) / 5 ≤ doy
    → doy < (153 * (mp + 1) + 2) / 5
    → IsIn
        (era *ℤ pos 146_097 +ℤ pos (in_era yoe + doy) -ℤ pos 719_468)
        (month (pos yoe +ℤ era *ℤ pos 400) (mp + 3))
unfolding month
late_month-IsIn era yoe doy mp h m low high = let y = pos yoe +ℤ era *ℤ pos 400 in (starts, ends)
  where
    starts :
        first_day (month (pos yoe +ℤ era *ℤ pos 400) (mp + 3))
        ≤ℤ era *ℤ pos 146_097 +ℤ pos (in_era yoe + doy) -ℤ pos 719_468
    starts =
        rw
          (
            first_day_late (month (pos yoe +ℤ era *ℤ pos 400) (mp + 3)) (omega arith),
            year_of_era era yoe h,
          )
          (omega int_laws)

    ends :
        era *ℤ pos 146_097 +ℤ pos (in_era yoe + doy) -ℤ pos 719_468
        <ℤ first_day (next_month (month (pos yoe +ℤ era *ℤ pos 400) (mp + 3)))
    ends = elim (Bool-cases (ltb 12 (mp + 3 + 1))) [
      | inl over ↦
          let e : mp ≡ 9 = ground arith in
          rw
            (
              over,
              first_day_early (month (pos yoe +ℤ era *ℤ pos 400 +ℤ pos 1) 1) (omega arith),
              back (pos yoe +ℤ era *ℤ pos 400),
              year_of_era era yoe h,
            )
            (omega int_laws)
      | inr within ↦
          rw
            (
              within,
              first_day_late (month (pos yoe +ℤ era *ℤ pos 400) (mp + 3 + 1)) (omega arith),
              year_of_era era yoe h,
            )
            (omega int_laws)
    ]

early_month-IsIn :
    (era : ℤ) (yoe doy mp : ℕ)
    → yoe < 400
    → 10 ≤ mp
    → mp ≤ 11
    → (153 * mp + 2) / 5 ≤ doy
    → (mp < 11 → doy < (153 * (mp + 1) + 2) / 5)
    → in_era yoe + doy < 146_097
    → (yoe < 399 → in_era yoe + doy < in_era (yoe + 1))
    → IsIn
        (era *ℤ pos 146_097 +ℤ pos (in_era yoe + doy) -ℤ pos 719_468)
        (month (pos yoe +ℤ era *ℤ pos 400 +ℤ pos 1) (mp - 9))
unfolding month
early_month-IsIn era yoe doy mp h least most low high inside before = (starts, ends)
  where
    starts :
        first_day (month (pos yoe +ℤ era *ℤ pos 400 +ℤ pos 1) (mp - 9))
        ≤ℤ era *ℤ pos 146_097 +ℤ pos (in_era yoe + doy) -ℤ pos 719_468
    starts =
        rw
          (
            first_day_early (month (pos yoe +ℤ era *ℤ pos 400 +ℤ pos 1) (mp - 9)) (omega arith),
            back (pos yoe +ℤ era *ℤ pos 400),
            year_of_era era yoe h,
          )
          (let e : mp - 9 + 9 ≡ mp = omega arith in rw e (omega int_laws))

    ends :
        era *ℤ pos 146_097 +ℤ pos (in_era yoe + doy) -ℤ pos 719_468
        <ℤ first_day (next_month (month (pos yoe +ℤ era *ℤ pos 400 +ℤ pos 1) (mp - 9)))
    ends = elim (Bool-cases (leb mp 10)) [
      | inl january ↦
          let e : mp ≡ 10 = ground arith in
          let less : doy < 337 = (let f = high (omega arith) in omega arith) in
          rw
            (
              e,
              first_day_early (month (pos yoe +ℤ era *ℤ pos 400 +ℤ pos 1) 2) (omega arith),
              back (pos yoe +ℤ era *ℤ pos 400),
              year_of_era era yoe h,
            )
            (omega int_laws)
      | inr february ↦
          let e : mp ≡ 11 = ground arith in
          let next = before_next_year era yoe (in_era yoe + doy) h inside before in
          rw (e, first_day_late (month (pos yoe +ℤ era *ℤ pos 400 +ℤ pos 1) 3) (omega arith))
            (omega (int_laws, next))
    ]

-- The year, the day of the year and the month of a day of an era, counted from 1 March.
yoe_of : ℕ → ℕ
yoe_of doe = (doe - doe / 1460 + doe / 36524 - doe / 146096) / 365

doy_of : ℕ → ℕ
doy_of doe = doe - in_era (yoe_of doe)

yoe_of-bound : (doe : ℕ) → doe < 146_097 → yoe_of doe < 400
unfolding yoe_of
yoe_of-bound doe h = omega arith

in_era-yoe_of : (doe : ℕ) → doe < 146_097 → in_era (yoe_of doe) ≤ doe
unfolding in_era yoe_of
in_era-yoe_of doe h = omega arith

yoe_of-last : (doe : ℕ) → doe < 146_097 → yoe_of doe < 399 → doe < in_era (yoe_of doe + 1)
unfolding in_era yoe_of
yoe_of-last doe h k = omega arith

doy_of-bound : (doe : ℕ) → doe < 146_097 → doy_of doe < 366
unfolding doy_of in_era yoe_of
doy_of-bound doe h = omega arith

abbrev month_at : ℕ → ℕ
month_at mp = if ltb mp 10 then mp + 3 else mp - 9

abbrev shape : ℤ → ℕ → YearMonth
shape y mp = month (if leb (month_at mp) 2 then y +ℤ pos 1 else y) (month_at mp)

shape-month :
    (y : ℤ) (mp : ℕ)
    → mp ≤ 11
    → shape y mp ≡ (if ltb mp 10 then month y (mp + 3) else month (y +ℤ pos 1) (mp - 9))
shape-month y mp h = elim (Bool-cases (ltb mp 10)) [
  | inl late ↦ let e : leb (mp + 3) 2 ≡ false = ground arith in rw (late, e) refl
  | inr early ↦ let e : leb (mp - 9) 2 ≡ true = ground arith in rw (early, e) refl
]

of_era-month_of :
    (era : ℤ) (doe : ℕ)
    → doe < 146_097
    → let mp = (5 * doy_of doe + 2) / 153 in
      let y = pos (yoe_of doe) +ℤ era *ℤ pos 400 in
      month (of_era era doe).year (of_era era doe).month
      ≡ (if ltb mp 10 then month y (mp + 3) else month (y +ℤ pos 1) (mp - 9))
unfolding month yoe_of doy_of in_era
of_era-month_of era doe h =
    let yoe = yoe_of doe in
    let y = pos yoe +ℤ era *ℤ pos 400 in
    let e : 365 * yoe + yoe / 4 - yoe / 100 ≡ in_era yoe = omega arith in
    let bound = doy_of-bound doe h in
    let most : (5 * doy_of doe + 2) / 153 ≤ 11 = omega (arith, bound) in
    ap (λ b. shape y ((5 * (doe - b) + 2) / 153)) e
    ∙ shape-month y ((5 * doy_of doe + 2) / 153) most

of_era-IsIn :
    (era : ℤ) (doe : ℕ)
    → doe < 146_097
    → IsIn
        (era *ℤ pos 146_097 +ℤ pos doe -ℤ pos 719_468)
        (month (of_era era doe).year (of_era era doe).month)
of_era-IsIn era doe h =
    let yoe = yoe_of doe in
    let doy = doy_of doe in
    let mp = (5 * doy + 2) / 153 in
    let bound = yoe_of-bound doe h in
    let doy_bound = doy_of-bound doe h in
    let whole : in_era yoe + doy ≡ doe =
      (let f = in_era-yoe_of doe h in unfold doy_of in omega arith) in
    let inside : in_era yoe + doy < 146_097 = omega arith in
    let last : yoe < 399 → in_era yoe + doy < in_era (yoe + 1) =
      λ k. (let f = yoe_of-last doe h k in omega arith) in
    subst
      (λ n.
        IsIn (era *ℤ pos 146_097 +ℤ pos n -ℤ pos 719_468)
          (month (of_era era doe).year (of_era era doe).month))
      whole
      (subst (IsIn (era *ℤ pos 146_097 +ℤ pos (in_era yoe + doy) -ℤ pos 719_468))
        (sym (of_era-month_of era doe h))
        (elim (Bool-cases (ltb mp 10)) [
          | inl late ↦
              rw late
                (late_month-IsIn era yoe doy mp bound (ground arith) (omega arith) (omega arith))
          | inr early ↦ rw early (
              early_month-IsIn era yoe doy mp bound (ground arith) (omega arith) (omega arith)
                (λ _. omega arith) inside last)
        ]))

-- Every instant is on a day of its month.
pub date-IsIn : (date : Instant) → IsIn (day_of date) (year_month_of date)
unfolding civil_of month
date-IsIn date =
    let z = day_of date +ℤ pos 719_468 in
    let e : floor_div z 146_097 *ℤ pos 146_097 +ℤ pos (floor_mod z 146_097) -ℤ pos 719_468
        ≡ day_of date =
      ap (λ n. n -ℤ pos 719_468) (eras z) ∙ there (day_of date) in
    subst (λ d. IsIn d (year_month_of date)) e
      (of_era-IsIn (floor_div z 146_097) (floor_mod z 146_097) (floor_mod-era z))
  where
    there : (d : ℤ) → d +ℤ pos 719_468 -ℤ pos 719_468 ≡ d
    there d = omega int_laws

    floor_mod-era : (z : ℤ) → floor_mod z 146_097 < 146_097
    floor_mod-era (pos n) = omega arith
    floor_mod-era (negsuc n) = omega arith
