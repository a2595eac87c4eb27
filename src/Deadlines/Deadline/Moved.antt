-- ===== src/Deadlines/Deadline/Moved.antt =====
-- Where `applyCalendar` of deadline.ts moves a date to.
use amc_system.Base.{
  ℕ, zero, suc, ◌<◌, ◌≡◌, refl, sym, subst, ◌∙◌, true, false, Option, none, some, List, inl, inr,
  Bool-cases, arith, length, is_some, if◌then◌else◌,
}
use amc_system.Kernel.Duration.{Instant}
use amc_system.Kernel.Throws.{done, threw, no_business_day}
use amc_system.Deadlines.Calendar.{
  Holiday, is_business_day, holiday_on, day_after, next_business_day,
}
use amc_system.Deadlines.Calendar.Open.{IsNearest, search_lem}
use amc_system.Deadlines.Calendar.Enough.{next_business_day-returns}
use amc_system.Deadlines.Deadline.{ComputedDeadline, MovedBecause, apply_calendar}

-- What the reason of a move says, by how many days the date was moved.
abbrev pub IsReason : List Holiday → Instant → ℕ → Option MovedBecause → Type 0
IsReason holidays statutory zero reason = reason ≡ none
IsReason holidays statutory (suc k) reason =
    reason
    ≡ some (
        if is_some (holiday_on holidays statutory)
        then MovedBecause.holiday
        else MovedBecause.weekend)

next_open :
    (holidays : List Holiday) (date : Instant)
    → length holidays < 20
    → (found : Instant) × (k : ℕ) × (next_business_day holidays date ≡ done found)
      × IsNearest day_after holidays 30 date found k
next_open holidays date h = elim (search_lem day_after holidays 30 date) [
  | inl there ↦ there
  | inr (thrown, _) ↦
      let (found, e) = next_business_day-returns holidays date h in
      absurd (not_both (sym e ∙ thrown))
]
  where
    not_both : {found : Instant} → ¬ (done found ≡ threw no_business_day)
    not_both e = cc

-- What `applyCalendar` gives for a date that is not open.
apply_calendar-moved :
    (statutory found : Instant) (holidays : List Holiday) (k : ℕ)
    → is_business_day holidays statutory ≡ false
    → next_business_day holidays statutory ≡ done found
    → IsNearest day_after holidays 30 statutory found k
    → (c : ComputedDeadline) × (k : ℕ) × (apply_calendar statutory holidays ≡ done c)
      × (c.statutory ≡ statutory)
      × IsNearest day_after holidays 30 statutory c.effective k
      × IsReason holidays statutory k c.moved_because
unfolding apply_calendar
apply_calendar-moved statutory found holidays zero closed e nearest =
    let opened : is_business_day holidays statutory ≡ true =
      subst (λ d. is_business_day holidays d ≡ true) nearest.is_moved nearest.is_open in
    absurd (ground arith)
apply_calendar-moved statutory found holidays (suc k) closed e nearest = (
  record {
    statutory = statutory;
    effective = found;
    moved_because = some (
        if is_some (holiday_on holidays statutory)
        then MovedBecause.holiday
        else MovedBecause.weekend);
  },
  suc k,
  rw (closed, e) refl,
  refl,
  nearest,
  refl,
)

-- With fewer than twenty holidays in the calendar every statutory date has a day on which it can be
-- filed: the nearest open day that is not before it. The date that the law names is kept. It gives no
-- reason where the date was not moved, and else says whether it fell on a holiday or a weekend.
pub apply_calendar-returns :
    (statutory : Instant) (holidays : List Holiday)
    → length holidays < 20
    → (c : ComputedDeadline) × (k : ℕ) × (apply_calendar statutory holidays ≡ done c)
      × (c.statutory ≡ statutory)
      × IsNearest day_after holidays 30 statutory c.effective k
      × IsReason holidays statutory k c.moved_because
unfolding apply_calendar
apply_calendar-returns statutory holidays h =
    elim (Bool-cases (is_business_day holidays statutory)) [
      | inl opened ↦ (
        record { statutory = statutory; effective = statutory; moved_because = none },
        0,
        rw opened refl,
        refl,
        record {
          within = omega arith;
          is_moved = refl;
          is_open = opened;
          none_nearer = λ j k. absurd (omega arith);
        },
        refl,
      )
      | inr closed ↦
          let (found, k, e, nearest) = next_open holidays statutory h in
          apply_calendar-moved statutory found holidays k closed e nearest
    ]
