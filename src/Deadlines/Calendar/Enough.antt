-- ===== src/Deadlines/Calendar/Enough.antt =====
-- How many days of business-calendar.ts can be closed in a row.
use amc_system.Base.{
  ℕ, zero, suc, ◌+◌, ◌-◌, ◌/◌, ◌%◌, ◌≤◌, ◌<◌, ◌≡◌, refl, ap, sym, subst, ◌∙◌, Bool, true, false,
  List, [], ◌∷◌, inl, inr, Bool-cases, arith, length, is_some, ltb, ltb→lt,
}
use amc_system.Base.Int.{ℤ, pos, negsuc, ◌+ℤ◌, ◌<ℤ◌, eqb_ℤ, int_laws, eq_of_parts}
use amc_system.Base.Date.{ms_per_day, day_of, weekday_of}
use amc_system.Kernel.Duration.{Instant}
use amc_system.Kernel.Throws.{done}
use amc_system.Deadlines.Calendar.{
  Holiday, get_last, is_weekend_day, is_weekend, is_business_day, day_after, next_business_day,
}
use amc_system.Deadlines.Calendar.Open.{moved, search_lem}

abbrev one_if : Bool → ℕ
one_if true = 1
one_if false = 0

-- The weekend days among so many days in a row, from a weekday on.
abbrev weekends : ℕ → ℕ → ℕ
weekends zero weekday = 0
weekends (suc n) weekday = one_if (is_weekend_day weekday) + weekends n ((weekday + 1) % 7)

-- How often a date comes up among so many days in a row.
abbrev hits : ℕ → ℤ → ℤ → ℕ
hits zero day date = 0
hits (suc n) day date = one_if (eqb_ℤ date day) + hits n (day +ℤ pos 1) date

abbrev all_hits : ℕ → ℤ → List Holiday → ℕ
all_hits n day [] = 0
all_hits n day (holiday ∷ holidays) = hits n day holiday.date + all_hits n day holidays

abbrev on_day : ℤ → List Holiday → ℕ
on_day day [] = 0
on_day day (holiday ∷ holidays) = one_if (eqb_ℤ holiday.date day) + on_day day holidays

hits-past : (n : ℕ) (day date : ℤ) → date <ℤ day → hits n day date ≡ 0
hits-past zero day date h = refl
hits-past (suc n) day date h =
    let other : eqb_ℤ date day ≡ false = ground arith in
    rw other (omega (arith, hits-past n (day +ℤ pos 1) date (omega int_laws)))

hits-at_most : (n : ℕ) (day date : ℤ) → hits n day date ≤ 1
hits-at_most zero day date = omega arith
hits-at_most (suc n) day date = elim (Bool-cases (eqb_ℤ date day)) [
  | inl same ↦
      let e : date ≡ day = ground (arith, eq_of_parts date day) in
      let past = hits-past n (day +ℤ pos 1) date (rw e (omega int_laws)) in
      rw (same, past) (omega arith)
  | inr other ↦ rw other (omega (arith, hits-at_most n (day +ℤ pos 1) date))
]

-- A list of holidays closes no more days than it has entries.
all_hits-at_most :
    (n : ℕ) (day : ℤ) (holidays : List Holiday) → all_hits n day holidays ≤ length holidays
all_hits-at_most n day [] = omega arith
all_hits-at_most n day (holiday ∷ holidays) =
    omega (arith, hits-at_most n day holiday.date, all_hits-at_most n day holidays)

all_hits-suc :
    (n : ℕ) (day : ℤ) (holidays : List Holiday)
    → all_hits (suc n) day holidays ≡ on_day day holidays + all_hits n (day +ℤ pos 1) holidays
all_hits-suc n day [] = refl
all_hits-suc n day (holiday ∷ holidays) = omega (arith, all_hits-suc n day holidays)

on_day-get_last :
    (day : ℤ) (holidays : List Holiday)
    → is_some (get_last day holidays) ≡ true
    → 1 ≤ on_day day holidays
unfolding get_last
on_day-get_last day [] h = cc
on_day-get_last day (holiday ∷ holidays) h = ground (arith, on_day-get_last day holidays)

pos_add : (n m : ℕ) → pos n +ℤ pos m ≡ pos (n + m)
pos_add n m = grind int_laws

negsuc_add_more : (n m : ℕ) → n < m → negsuc n +ℤ pos m ≡ pos (m - n - 1)
negsuc_add_more n m h = grind int_laws

negsuc_add_less : (n m : ℕ) → m ≤ n → negsuc n +ℤ pos m ≡ negsuc (n - m)
negsuc_add_less n m h = grind int_laws

weekday_of-suc : (day : ℤ) → weekday_of (day +ℤ pos 1) ≡ (weekday_of day + 1) % 7
weekday_of-suc (pos n) = ap weekday_of (pos_add n 1) ∙ omega arith
weekday_of-suc (negsuc zero) = ap weekday_of (negsuc_add_more 0 1 (omega arith))
weekday_of-suc (negsuc (suc n)) =
    ap weekday_of (negsuc_add_less (suc n) 1 (omega arith)) ∙ omega arith

day_of-day_after : (date : ℤ) → day_of (day_after date) ≡ day_of date +ℤ pos 1
day_of-day_after (pos n) =
    let q : (n + ms_per_day) / ms_per_day ≡ n / ms_per_day + 1 = omega arith in
    ap day_of (pos_add n ms_per_day) ∙ ap pos q ∙ sym (pos_add (n / ms_per_day) 1)
day_of-day_after (negsuc n) = elim (Bool-cases (ltb n ms_per_day)) [
  | inl small ↦
      let less : n < ms_per_day = ltb→lt n ms_per_day small in
      let q : (ms_per_day - n - 1) / ms_per_day ≡ 0 = omega arith in
      let r : n / ms_per_day ≡ 0 = omega arith in
      ap day_of (negsuc_add_more n ms_per_day less)
      ∙ ap pos q
      ∙ sym (ap (λ x. negsuc x +ℤ pos 1) r ∙ negsuc_add_more 0 1 (omega arith))
  | inr large ↦
      let more : ms_per_day ≤ n = ground arith in
      let q : (n - ms_per_day) / ms_per_day ≡ n / ms_per_day - 1 = omega arith in
      ap day_of (negsuc_add_less n ms_per_day more)
      ∙ ap negsuc q
      ∙ sym (negsuc_add_less (n / ms_per_day) 1 (omega arith))
]

closed-cases :
    (holidays : List Holiday) (date : Instant)
    → is_business_day holidays date ≡ false
    → 1 ≤ one_if (is_weekend date) + on_day (day_of date) holidays
unfolding is_business_day
closed-cases holidays date h = ground (arith, on_day-get_last (day_of date) holidays)

-- Days that are all closed are weekends or holidays.
all_closed :
    (n : ℕ) (holidays : List Holiday) (date : Instant)
    → ((j : ℕ) → j < n → is_business_day holidays (moved day_after j date) ≡ false)
    → n ≤ weekends n (weekday_of (day_of date)) + all_hits n (day_of date) holidays
all_closed zero holidays date h = omega arith
all_closed (suc n) holidays date h =
    let first = closed-cases holidays date (h 0 (omega arith)) in
    let rest = all_closed n holidays (day_after date) (λ j k. h (suc j) (omega arith)) in
    let next : weekday_of (day_of (day_after date)) ≡ (weekday_of (day_of date) + 1) % 7 =
      ap weekday_of (day_of-day_after date) ∙ weekday_of-suc (day_of date) in
    let rest' : n
        ≤ weekends n ((weekday_of (day_of date) + 1) % 7)
          + all_hits n (day_of date +ℤ pos 1) holidays =
      subst (λ d. n ≤ weekends n ((weekday_of (day_of date) + 1) % 7) + all_hits n d holidays)
        (day_of-day_after date)
        (subst (λ w. n ≤ weekends n w + all_hits n (day_of (day_after date)) holidays) next rest) in
    omega (arith, all_hits-suc n (day_of date) holidays, first, rest')

weekends_of_month : (w : ℕ) → w < 7 → weekends 30 w ≤ 10
weekends_of_month zero h = omega arith
weekends_of_month (suc zero) h = omega arith
weekends_of_month (suc (suc zero)) h = omega arith
weekends_of_month (suc (suc (suc zero))) h = omega arith
weekends_of_month (suc (suc (suc (suc zero)))) h = omega arith
weekends_of_month (suc (suc (suc (suc (suc zero))))) h = omega arith
weekends_of_month (suc (suc (suc (suc (suc (suc zero)))))) h = omega arith
weekends_of_month (suc (suc (suc (suc (suc (suc (suc w))))))) h = absurd (omega arith)

-- With fewer than twenty holidays in the calendar the search for the next open day never throws.
pub next_business_day-returns :
    (holidays : List Holiday) (date : Instant)
    → length holidays < 20
    → (found : Instant) × (next_business_day holidays date ≡ done found)
next_business_day-returns holidays date h = elim (search_lem day_after holidays 30 date) [
  | inl (found, k, e, nearest) ↦ (found, e)
  | inr (e, all) ↦
      let closed = all_closed 30 holidays date all in
      let few = weekends_of_month (weekday_of (day_of date)) (omega arith) in
      absurd (omega (arith, all_hits-at_most 30 (day_of date) holidays))
]
