-- ===== src/Clients/TaxPeriod.antt =====
-- packages/modules/clients/domain/tax-period.ts: a client's VAT periods and financial years. Months count
-- from 1; the period's search is on fuel, and twelve rounds are enough for it.
pub mod Rounds
pub mod Years
pub mod Days
pub mod Within
pub mod Search
pub mod Tests
use amc_system.Base.{
  ℕ, zero, suc, ◌+◌, ◌-◌, ◌*◌, ◌/◌, ◌%◌, Bool, true, false, ◌||◌, Option, none, some, List, [], ◌∷◌,
  ◌++◌, any, map, ltb, leb, ◌==◌, if◌then◌else◌,
}
use amc_system.Base.Int.{ℤ, pos, negsuc, ◌+ℤ◌, ◌-ℤ◌, ltb_ℤ, leb_ℤ, pos_part}
use amc_system.Base.Text.{Text, text, eq_text, is_empty}
use amc_system.Base.Digits.{decimal, pad_start}
use amc_system.Base.Date.{Civil, civil_of, day_of, utc}
use amc_system.Kernel.Result.{Result, ok, err}
use amc_system.Kernel.Duration.{Instant}

pub data VatFrequency : Type 0 where
  monthly quarterly : VatFrequency

pub record VatPeriods : Type 0 where
  pub frequency : VatFrequency
  pub anchor_end_month : ℕ

-- `InvariantViolation`
pub data NotAMonth : Type 0 where
  not_a_month : NotAMonth

abbrev out_of_year : ℤ → Bool
out_of_year month = ltb_ℤ month (pos 1) || ltb_ℤ (pos 12) month

-- `VatPeriods.of`, of a whole number.
unfoldable pub vat_periods_of : VatFrequency → ℤ → Result NotAMonth VatPeriods
vat_periods_of frequency month =
    if out_of_year month
    then err not_a_month
    else ok (record { frequency = frequency; anchor_end_month = pos_part month })

-- `sort((a, b) => a - b)`
unfoldable pub insert_month : ℕ → List ℕ → List ℕ
insert_month m [] = m ∷ []
insert_month m (n ∷ ns) = let rest = insert_month m ns in if leb m n then m ∷ n ∷ ns else n ∷ rest

abbrev pub sort_months : List ℕ → List ℕ
sort_months [] = []
sort_months (m ∷ ms) = insert_month m (sort_months ms)

abbrev pub all_months : List ℕ
all_months = 1 ∷ 2 ∷ 3 ∷ 4 ∷ 5 ∷ 6 ∷ 7 ∷ 8 ∷ 9 ∷ 10 ∷ 11 ∷ 12 ∷ []

abbrev pub months_of : VatFrequency → ℕ → List ℕ
months_of monthly anchor = all_months
months_of quarterly anchor =
    sort_months (map (λ offset. (anchor - 1 + offset) % 12 + 1) (0 ∷ 3 ∷ 6 ∷ 9 ∷ []))

-- `endMonths`
abbrev pub end_months : VatPeriods → List ℕ
end_months p = months_of p.frequency p.anchor_end_month

-- `endsInMonth`
unfoldable pub ends_in_month : VatPeriods → ℕ → Bool
unfolding insert_month
ends_in_month p month = any (λ m. m == month) (end_months p)

-- A month of a year.
pub record YearMonth : Type 0 where
  pub year : ℤ
  pub month : ℕ

abbrev pub next_month : YearMonth → YearMonth
next_month m =
    if ltb 12 (m.month + 1)
    then record { year = m.year +ℤ pos 1; month = 1 }
    else record { year = m.year; month = m.month + 1 }

-- The loop of `periodContaining`.
unfoldable pub end_month_from : ℕ → VatPeriods → YearMonth → Option YearMonth
end_month_from zero p m = none
end_month_from (suc fuel) p m =
    let rest = end_month_from fuel p (next_month m) in
    if ends_in_month p m.month then some m else rest

abbrev pub period_length : VatFrequency → ℕ
period_length monthly = 1
period_length quarterly = 3

-- `String(n)` of a year, of at most six digits.
abbrev pub year_text : ℤ → Text
year_text (pos n) = decimal 5 n
year_text (negsuc n) = 45 ∷ decimal 5 (suc n)

-- `String(n).padStart(2, '0')`
abbrev pub two_digits : ℕ → Text
two_digits n = pad_start 2 (decimal 1 n)

abbrev pub key_of : VatFrequency → YearMonth → Text
key_of monthly m = year_text m.year ++ text "-" ++ two_digits m.month
key_of quarterly m =
    year_text m.year ++ text "-Q" ++ decimal 0 ((m.month + 2) / 3) ++ text "-" ++ two_digits m.month

pub record Period : Type 0 where
  pub start : Instant
  pub end : Instant
  pub key : Text

abbrev pub period_of : VatFrequency → YearMonth → Period
period_of frequency m = record {
  start = utc m.year (pos m.month -ℤ pos (period_length frequency)) (pos 1);
  end = utc m.year (pos m.month) (pos 0);
  key = key_of frequency m;
}

-- `getUTCFullYear` and `getUTCMonth` of a date.
abbrev pub year_month_of : Instant → YearMonth
year_month_of date = let c = civil_of (day_of date) in record { year = c.year; month = c.month }

abbrev period_at : VatFrequency → Option YearMonth → Option Period
period_at frequency none = none
period_at frequency (some m) = some (period_of frequency m)

-- `periodContaining`; `none` is a search that did not end.
unfoldable pub period_containing : VatPeriods → Instant → Option Period
period_containing p date = period_at p.frequency (end_month_from 12 p (year_month_of date))

-- `FinancialYear`: the month in which it ends.
pub record FinancialYear : Type 0 where
  pub end_month : ℕ

-- `endingIn`, of a whole number.
unfoldable pub ending_in : ℤ → Result NotAMonth FinancialYear
ending_in month =
    if out_of_year month then err not_a_month else ok (record { end_month = pos_part month })

-- `yearEndFor`
unfoldable pub year_end_for : FinancialYear → Instant → Instant
year_end_for f date =
    let year = (year_month_of date).year in
    let candidate = utc year (pos f.end_month) (pos 0) in
    if leb_ℤ date candidate then candidate else utc (year +ℤ pos 1) (pos f.end_month) (pos 0)

-- `keyFor`
unfoldable pub key_for : FinancialYear → Instant → Text
key_for f date = text "FY" ++ year_text (year_month_of (year_end_for f date)).year

-- `CycleRow`, with whole numbers for the months.
pub record CycleRow : Type 0 where
  pub id : Text
  pub vat_frequency : Option Text
  pub vat_anchor_end_month : Option ℤ
  pub financial_year_end_month : Option ℤ

-- A client's own cycles, as functions.
pub record ClientCycle : Type 0 where
  pub client_id : Text
  pub vat_period_for : Option (Instant → Option Period)
  pub financial_year_end_for : Option (Instant → Instant)
  pub financial_year_key_for : Option (Instant → Text)

-- Every text but `monthly` is taken for `quarterly`.
abbrev frequency_of : Text → VatFrequency
frequency_of frequency = if eq_text frequency (text "monthly") then monthly else quarterly

abbrev periods_by : Result NotAMonth VatPeriods → Option (Instant → Option Period)
periods_by (ok p) = some (period_containing p)
periods_by (err _) = none

unfoldable pub vat_period_from : Option Text → Option ℤ → Option (Instant → Option Period)
vat_period_from none month = none
vat_period_from (some frequency) none = none
vat_period_from (some frequency) (some month) =
    if is_empty frequency then none else periods_by (vat_periods_of (frequency_of frequency) month)

abbrev year_from : Option ℤ → Option FinancialYear
year_from none = none
year_from (some month) = elim (ending_in month) [ ok f ↦ some f | err _ ↦ none ]

-- `clientCycleFrom`
unfoldable pub client_cycle_from : CycleRow → ClientCycle
client_cycle_from row = record {
  client_id = row.id;
  vat_period_for = vat_period_from row.vat_frequency row.vat_anchor_end_month;
  financial_year_end_for = elim (year_from row.financial_year_end_month) [
    | none ↦ none
    | some f ↦ some (year_end_for f)
  ];
  financial_year_key_for = elim (year_from row.financial_year_end_month) [
    | none ↦ none
    | some f ↦ some (key_for f)
  ];
}
