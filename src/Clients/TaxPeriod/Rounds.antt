-- ===== src/Clients/TaxPeriod/Rounds.antt =====
-- The search for the end of a VAT period (tax-period.ts) ends.
use amc_system.Base.{
  ℕ, zero, suc, ◌+◌, ◌≤◌, ◌<◌, ◌≡◌, refl, ap, sym, subst, ◌∙◌, Bool, true, false, ◌||◌, ◌&&◌, some,
  ltb, ◌==◌, arith, inl, inr, Bool-cases, if◌then◌else◌,
}
use amc_system.Base.Int.{ℤ, pos, negsuc, ◌+ℤ◌, ◌*ℤ◌, int_laws}
use amc_system.Base.Date.{of_era, civil_of, day_of, floor_div, floor_mod}
use amc_system.Kernel.Duration.{Instant}
use amc_system.Clients.TaxPeriod.{
  VatFrequency, monthly, quarterly, VatPeriods, ends_in_month, insert_month, YearMonth, next_month,
  end_month_from, period_length, year_month_of,
}

-- A test of the numbers from 1 up to a bound.
all_up_to : ℕ → (ℕ → Bool) → Bool
all_up_to zero p = true
all_up_to (suc n) p = p (suc n) && all_up_to n p

both : (a b : Bool) → (a && b) ≡ true → (a ≡ true) × (b ≡ true)
both true b h = (refl, h)
both false b h = cc

all_up_to-holds :
    (n : ℕ) (p : ℕ → Bool) → all_up_to n p ≡ true → (m : ℕ) → 1 ≤ m → m ≤ n → p m ≡ true
unfolding all_up_to
all_up_to-holds zero p h m low high = absurd (omega arith)
all_up_to-holds (suc n) p h m low high = elim (Bool-cases (m == suc n)) [
  | inl last ↦
      let e : m ≡ suc n = ground arith in
      subst (λ k. p k ≡ true) (sym e) (both (p (suc n)) (all_up_to n p) h).0
  | inr before ↦ all_up_to-holds n p (both (p (suc n)) (all_up_to n p) h).1 m low (ground arith)
]

abbrev after : ℕ → ℕ
after month = if ltb 12 (month + 1) then 1 else month + 1

abbrev periods : VatFrequency → ℕ → VatPeriods
periods frequency anchor = record { frequency = frequency; anchor_end_month = anchor }

-- Of three months in a row, a quarter ends in one.
abbrev ends_soon : ℕ → ℕ → Bool
ends_soon anchor month =
    let p = periods quarterly anchor in
    ends_in_month p month
    || (ends_in_month p (after month) || ends_in_month p (after (after month)))

checked : all_up_to 12 (λ anchor. all_up_to 12 (ends_soon anchor)) ≡ true
unfolding all_up_to ends_in_month insert_month
checked = refl

ends_soon-holds :
    (anchor month : ℕ)
    → 1 ≤ anchor
    → anchor ≤ 12
    → 1 ≤ month
    → month ≤ 12
    → ends_soon anchor month ≡ true
ends_soon-holds anchor month a a' m m' =
    all_up_to-holds 12 (ends_soon anchor)
      (all_up_to-holds 12 (λ n. all_up_to 12 (ends_soon n)) checked anchor a a') month m m'

checked_monthly : all_up_to 12 (λ m. ends_in_month (periods monthly 1) m) ≡ true
unfolding all_up_to ends_in_month
checked_monthly = refl

month-next_month : (m : YearMonth) → (next_month m).month ≡ after m.month
month-next_month m = elim (Bool-cases (ltb 12 (m.month + 1))) [
  | inl over ↦ rw over refl
  | inr within ↦ rw within refl
]

-- So many months on.
abbrev pub months_on : ℕ → YearMonth → YearMonth
months_on zero m = m
months_on (suc k) m = months_on k (next_month m)

-- What the search finds: the first month from `m` on in which a period ends, less than a period away.
abbrev IsFound : VatPeriods → YearMonth → Type 0
IsFound p m =
    (k : ℕ) × (k < period_length p.frequency)
    × (end_month_from 12 p m ≡ some (months_on k m))
    × (ends_in_month p (months_on k m).month ≡ true)
    × ((j : ℕ) → j < k → ends_in_month p (months_on j m).month ≡ false)

here :
    (p : VatPeriods) (m : YearMonth)
    → ends_in_month p m.month ≡ true
    → end_month_from 12 p m ≡ some m
unfolding end_month_from
here p m h = rw h refl

one_on :
    (p : VatPeriods) (m : YearMonth)
    → ends_in_month p m.month ≡ false
    → ends_in_month p (next_month m).month ≡ true
    → end_month_from 12 p m ≡ some (next_month m)
unfolding end_month_from
one_on p m h k = rw (h, k) refl

two_on :
    (p : VatPeriods) (m : YearMonth)
    → ends_in_month p m.month ≡ false
    → ends_in_month p (next_month m).month ≡ false
    → ends_in_month p (next_month (next_month m)).month ≡ true
    → end_month_from 12 p m ≡ some (next_month (next_month m))
unfolding end_month_from
two_on p m h k l = rw (h, k, l) refl

none_before_one :
    (p : VatPeriods) (m : YearMonth)
    → ends_in_month p m.month ≡ false
    → (j : ℕ) → j < 1
    → ends_in_month p (months_on j m).month ≡ false
none_before_one p m h zero l = h
none_before_one p m h (suc j) l = absurd (omega arith)

none_before_two :
    (p : VatPeriods) (m : YearMonth)
    → ends_in_month p m.month ≡ false
    → ends_in_month p (next_month m).month ≡ false
    → (j : ℕ) → j < 2
    → ends_in_month p (months_on j m).month ≡ false
none_before_two p m h k zero l = h
none_before_two p m h k (suc j) l = none_before_one p (next_month m) k j (omega arith)

the_last : (x y z : Bool) → (x || (y || z)) ≡ true → x ≡ false → y ≡ false → z ≡ true
the_last true y z h e k = cc
the_last false true z h e k = cc
the_last false false z h e k = h

quarter-IsFound :
    (anchor : ℕ) (m : YearMonth)
    → 1 ≤ anchor
    → anchor ≤ 12
    → 1 ≤ m.month
    → m.month ≤ 12
    → IsFound (periods quarterly anchor) m
quarter-IsFound anchor m a a' b b' =
    let p = periods quarterly anchor in
    let soon = ends_soon-holds anchor m.month a a' b b' in
    let e₁ : (next_month m).month ≡ after m.month = month-next_month m in
    let e₂ : (next_month (next_month m)).month ≡ after (after m.month) =
      month-next_month (next_month m) ∙ ap after e₁ in
    elim (Bool-cases (ends_in_month p m.month)) [
      | inl now ↦ (0, omega arith, here p m now, now, λ j h. absurd (omega arith))
      | inr not_now ↦ elim (Bool-cases (ends_in_month p (next_month m).month)) [
        | inl next ↦ (1, omega arith, one_on p m not_now next, next, none_before_one p m not_now)
        | inr not_next ↦
            let last : ends_in_month p (next_month (next_month m)).month ≡ true =
              let at : ℕ → Bool = λ n. ends_in_month p n in
              let not_next' : at (after m.month) ≡ false = ap at (sym e₁) ∙ not_next in
              ap at e₂ ∙ the_last (at m.month) _ _ soon not_now not_next' in
            (
              2,
              omega arith,
              two_on p m not_now not_next last,
              last,
              none_before_two p m not_now not_next,
            )
      ]
    ]

month-IsFound :
    (anchor : ℕ) (m : YearMonth) → 1 ≤ m.month → m.month ≤ 12 → IsFound (periods monthly anchor) m
unfolding ends_in_month
month-IsFound anchor m b b' =
    let now : ends_in_month (periods monthly anchor) m.month ≡ true =
      all_up_to-holds 12 (ends_in_month (periods monthly 1)) checked_monthly m.month b b' in
    (0, omega arith, here (periods monthly anchor) m now, now, λ j h. absurd (omega arith))

-- Whatever the month that a search begins with.
pub end_month_from-ends :
    (p : VatPeriods) (m : YearMonth)
    → 1 ≤ p.anchor_end_month
    → p.anchor_end_month ≤ 12
    → 1 ≤ m.month
    → m.month ≤ 12
    → IsFound p m
end_month_from-ends p m a a' b b' = by_frequency p.frequency refl
  where
    by_frequency : (f : VatFrequency) → p.frequency ≡ f → IsFound p m
    by_frequency monthly e =
        subst (λ q. IsFound q m) (ap (λ f. periods f p.anchor_end_month) (sym e))
          (month-IsFound p.anchor_end_month m b b')
    by_frequency quarterly e =
        subst (λ q. IsFound q m) (ap (λ f. periods f p.anchor_end_month) (sym e))
          (quarter-IsFound p.anchor_end_month m a a' b b')

of_era-month :
    (era : ℤ) (doe : ℕ)
    → doe < 146_097
    → (1 ≤ (of_era era doe).month) × ((of_era era doe).month ≤ 12)
of_era-month era doe h = (ground arith, ground arith)

floor_mod-bound : (z : ℤ) → floor_mod z 146_097 < 146_097
floor_mod-bound (pos n) = omega arith
floor_mod-bound (negsuc n) = omega arith

pub year_month_of-month :
    (date : Instant) → (1 ≤ (year_month_of date).month) × ((year_month_of date).month ≤ 12)
unfolding civil_of
year_month_of-month date =
    let z = day_of date +ℤ pos 719_468 in
    of_era-month (floor_div z 146_097) (floor_mod z 146_097) (floor_mod-bound z)

-- Months counted through the years.
abbrev pub month_number : YearMonth → ℤ
month_number m = m.year *ℤ pos 12 +ℤ pos m.month

one_more_year : (year : ℤ) → (year +ℤ pos 1) *ℤ pos 12 ≡ year *ℤ pos 12 +ℤ pos 12
unfolding ◌+ℤ◌ ◌*ℤ◌
one_more_year (pos n) = ground arith
one_more_year (negsuc n) = ground arith

sum_of_two : (a : ℤ) (m n : ℕ) → a +ℤ pos m +ℤ pos n ≡ a +ℤ pos (m + n)
sum_of_two a m n = omega int_laws

pub month_number-next_month :
    (m : YearMonth)
    → m.month ≤ 12
    → (month_number (next_month m) ≡ month_number m +ℤ pos 1) × ((next_month m).month ≤ 12)
month_number-next_month m h = elim (Bool-cases (ltb 12 (m.month + 1))) [
  | inl over ↦
      let e : m.month ≡ 12 = ground arith in
      rw (over, e) (ap (λ y. y +ℤ pos 1) (one_more_year m.year), omega arith)
  | inr within ↦ rw within (sym (sum_of_two (m.year *ℤ pos 12) m.month 1), ground arith)
]

pub month_number-months_on :
    (k : ℕ) (m : YearMonth) → m.month ≤ 12 → month_number (months_on k m) ≡ month_number m +ℤ pos k
month_number-months_on zero m h = omega int_laws
month_number-months_on (suc k) m h =
    let (one, h') = month_number-next_month m h in
    month_number-months_on k (next_month m) h'
    ∙ ap (λ n. n +ℤ pos k) one
    ∙ sum_of_two (month_number m) 1 k
    ∙ ap (λ n. month_number m +ℤ pos n) (omega arith)
