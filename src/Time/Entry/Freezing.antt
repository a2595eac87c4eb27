-- ===== src/Time/Entry/Freezing.antt =====
-- Time entries on statements (time-entry.ts): what stands on one, and what an entry on one takes.
use amc_system.Base.{
  ◌≡◌, refl, ap, sym, subst, Bool, true, false, none, some, List, [], ◌∷◌, All, is_some, inl, inr,
  ◌⊎◌, Option-cases, arith,
}
use amc_system.Base.Int.{◌≤ℤ◌, ◌-ℤ◌}
use amc_system.Base.Text.{Text}
use amc_system.Kernel.Result as Result
use amc_system.Kernel.Result.{Result-cases}
use amc_system.Kernel.Aggregate.{run_all, run_all-keeps}
use amc_system.Kernel.Duration.{Instant, Duration, try_between}
use amc_system.Time.Entry.State.{TimeEntryState, TimerParams, ManualParams, ReviewReason}
use amc_system.Time.Entry.{
  TimeEntry, Command, vouch, bill_or_not, correct, sign_off, put_on, take_off, execute, confirm,
  set_billable, adjust, approve, include_in_statement, release_from_statement, is_locked,
  is_approved, awaits_review, from_timer, by_hand,
}

abbrev pub is_release : Command → Bool
is_release (take_off _ _) = true
is_release _ = false

frozen :
    (c : Command) (a : TimeEntry)
    → is_release c ≡ false
    → is_locked a.state ≡ true
    → (execute c a).1 ≡ a
unfolding execute confirm set_billable adjust approve include_in_statement
frozen (vouch by now) a h lock = elim (Option-cases a.state.review_reason) [
  | inl clear ↦ rw clear refl
  | inr (why, e) ↦ rw e (ground arith)
]
frozen (bill_or_not billable now) a h lock = ground arith
frozen (correct started_at ended_at reason now) a h lock = ground arith
frozen (sign_off by now) a h lock = ground arith
frozen (put_on line now) a h lock = ground arith
frozen (take_off by now) a h lock = absurd (cc)

-- While an entry is on a statement, no calls but a release, in any number and order, change it.
pub frozen_on_statement :
    (cs : List Command) (a : TimeEntry)
    → All (λ c. is_release c ≡ false) cs
    → is_locked a.state ≡ true
    → run_all execute cs a ≡ a
unfolding run_all
frozen_on_statement [] a h lock = refl
frozen_on_statement (c ∷ cs) a h lock =
    let same = frozen c a h.0 lock in rw same (frozen_on_statement cs a h.1 lock)

-- What holds of an entry between two calls: what is on a statement is approved, what is approved is
-- finished, what is confirmed was in doubt, and an entry that is finished ends no earlier than it
-- starts.
pub record IsOrderly (s : TimeEntryState) : Type 0 where
  pub locked_approved : is_locked s ≡ true → is_approved s ≡ true
  pub approved_finished : is_approved s ≡ true → is_some s.ended_at ≡ true
  pub confirmed_doubted : is_some s.reviewed_at ≡ true → is_some s.review_reason ≡ true
  pub in_order : (t : Instant) → s.ended_at ≡ some t → s.started_at ≤ℤ t

le_of_length :
    (start end : Instant) (d : Duration)
    → try_between (some start) (some end) ≡ Result.ok d
    → start ≤ℤ end
unfolding try_between ◌-ℤ◌
le_of_length start end d h = ground arith

-- An entry that was just recorded.
IsFresh : TimeEntryState → Type 0
IsFresh s =
    (s.statement_line_id ≡ none)
    × (s.approved_at ≡ none)
    × (s.reviewed_at ≡ none)
    × ((t : Instant) → s.ended_at ≡ some t → s.started_at ≤ℤ t)

fresh-IsOrderly : (s : TimeEntryState) → IsFresh s → IsOrderly s
unfolding IsFresh
fresh-IsOrderly s (line, approval, review, order) = record {
  locked_approved = λ h. absurd (cc);
  approved_finished = λ h. absurd (cc);
  confirmed_doubted = λ h. absurd (cc);
  in_order = order;
}

from_timer-IsOrderly :
    (p : TimerParams) (a : TimeEntry) → from_timer p ≡ Result.ok a → IsOrderly a.state
unfolding from_timer IsFresh
from_timer-IsOrderly p a h =
    elim (Result-cases (try_between (some p.started_at) (some p.ended_at))) [
      | inr (e, refused) ↦ absurd (ground arith)
      | inl (d, long) ↦
          let le = le_of_length p.started_at p.ended_at d long in
          fresh-IsOrderly a.state (ground arith, ground arith, ground arith, λ t e. ground arith)
    ]

by_hand-IsOrderly : (p : ManualParams) (a : TimeEntry) → by_hand p ≡ Result.ok a → IsOrderly a.state
unfolding by_hand IsFresh
by_hand-IsOrderly p a h = elim (Result-cases (try_between (some p.started_at) (some p.ended_at))) [
  | inr (e, refused) ↦ absurd (ground arith)
  | inl (d, long) ↦
      let le = le_of_length p.started_at p.ended_at d long in
      fresh-IsOrderly a.state (ground arith, ground arith, ground arith, λ t e. ground arith)
]

confirm-cases :
    (by : Text) (now : Instant) (a : TimeEntry) (why : ReviewReason)
    → a.state.review_reason ≡ some why
    → ((confirm by now a).1.state ≡ a.state)
      ⊎ ((confirm by now a).1.state
          ≡ record a.state { reviewed_at = some now; reviewed_by = some by })
unfolding confirm
confirm-cases by now a why e = rw e (grind arith)

confirm-IsOrderly :
    (by : Text) (now : Instant) (a : TimeEntry)
    → IsOrderly a.state
    → IsOrderly (confirm by now a).1.state
unfolding confirm
confirm-IsOrderly by now a v = elim (Option-cases a.state.review_reason) [
  | inl clear ↦
      let same : (confirm by now a).1.state ≡ a.state = ground arith in subst IsOrderly (sym same) v
  | inr (why, e) ↦ elim (confirm-cases by now a why e) [
    | inl same ↦ subst IsOrderly (sym same) v
    | inr after ↦ subst IsOrderly (sym after) (record {
      locked_approved = v.locked_approved;
      approved_finished = v.approved_finished;
      confirmed_doubted = λ h. ap is_some e;
      in_order = v.in_order;
    })
  ]
]

adjust-IsOrderly :
    (start end : Instant) (reason : Text) (now : Instant) (a : TimeEntry)
    → IsOrderly a.state
    → IsOrderly (adjust start end reason now a).1.state
unfolding adjust
adjust-IsOrderly start end reason now a v =
    elim (Result-cases (try_between (some start) (some end))) [
      | inr (e, refused) ↦
          let same : (adjust start end reason now a).1.state ≡ a.state = ground arith in
          subst IsOrderly (sym same) v
      | inl (d, long) ↦
          let le = le_of_length start end d long in
          record {
            locked_approved = λ h. ground (arith, v.locked_approved);
            approved_finished = λ h. ground (arith, v.approved_finished);
            confirmed_doubted = λ h. ground (arith, v.confirmed_doubted);
            in_order = λ t h. ground (arith, v.in_order t);
          }
    ]

set_billable-IsOrderly :
    (b : Bool) (now : Instant) (a : TimeEntry)
    → IsOrderly a.state
    → IsOrderly (set_billable b now a).1.state
unfolding set_billable
set_billable-IsOrderly b now a v = record {
  locked_approved = λ h. ground (arith, v.locked_approved);
  approved_finished = λ h. ground (arith, v.approved_finished);
  confirmed_doubted = λ h. ground (arith, v.confirmed_doubted);
  in_order = λ t h. ground (arith, v.in_order t);
}

approve-IsOrderly :
    (by : Text) (now : Instant) (a : TimeEntry)
    → IsOrderly a.state
    → IsOrderly (approve by now a).1.state
unfolding approve
approve-IsOrderly b now a v = record {
  locked_approved = λ h. ground (arith, v.locked_approved);
  approved_finished = λ h. ground (arith, v.approved_finished);
  confirmed_doubted = λ h. ground (arith, v.confirmed_doubted);
  in_order = λ t h. ground (arith, v.in_order t);
}

include-IsOrderly :
    (line : Text) (now : Instant) (a : TimeEntry)
    → IsOrderly a.state
    → IsOrderly (include_in_statement line now a).1.state
unfolding include_in_statement
include-IsOrderly b now a v = record {
  locked_approved = λ h. ground (arith, v.locked_approved);
  approved_finished = λ h. ground (arith, v.approved_finished);
  confirmed_doubted = λ h. ground (arith, v.confirmed_doubted);
  in_order = λ t h. ground (arith, v.in_order t);
}

release-IsOrderly :
    (by : Text) (now : Instant) (a : TimeEntry)
    → IsOrderly a.state
    → IsOrderly (release_from_statement by now a).1.state
unfolding release_from_statement
release-IsOrderly by now a v = elim (Option-cases a.state.statement_line_id) [
  | inl free ↦
      let same : (release_from_statement by now a).1.state ≡ a.state = ground arith in
      subst IsOrderly (sym same) v
  | inr (line, e) ↦
      let after : (release_from_statement by now a).1.state
          ≡ record a.state { statement_line_id = none } =
        ground arith in
      subst IsOrderly (sym after) (record {
        locked_approved = λ h. absurd (cc);
        approved_finished = v.approved_finished;
        confirmed_doubted = v.confirmed_doubted;
        in_order = v.in_order;
      })
]

execute-IsOrderly :
    (c : Command) (a : TimeEntry) → IsOrderly a.state → IsOrderly (execute c a).1.state
unfolding execute
execute-IsOrderly (vouch by now) a v = confirm-IsOrderly by now a v
execute-IsOrderly (bill_or_not billable now) a v = set_billable-IsOrderly billable now a v
execute-IsOrderly (correct start end reason now) a v = adjust-IsOrderly start end reason now a v
execute-IsOrderly (sign_off by now) a v = approve-IsOrderly by now a v
execute-IsOrderly (put_on line now) a v = include-IsOrderly line now a v
execute-IsOrderly (take_off by now) a v = release-IsOrderly by now a v

-- However an entry was recorded, whatever is called on it, in any order, leaves it orderly: what is
-- on a statement is approved, what is approved is finished, what is confirmed was in doubt, and an
-- entry that is finished ends no earlier than it starts.
pub recorded-IsOrderly :
    (cs : List Command) (a : TimeEntry)
    → ((p : TimerParams) × (from_timer p ≡ Result.ok a))
      ⊎ ((p : ManualParams) × (by_hand p ≡ Result.ok a))
    → IsOrderly (run_all execute cs a).state
recorded-IsOrderly cs a (inl (p, h)) =
    run_all-keeps (λ b. IsOrderly b.state) execute execute-IsOrderly cs a
      (from_timer-IsOrderly p a h)
recorded-IsOrderly cs a (inr (p, h)) =
    run_all-keeps (λ b. IsOrderly b.state) execute execute-IsOrderly cs a (by_hand-IsOrderly p a h)

-- An entry that is in doubt, finished and on no statement can be approved and then put on a statement
-- line with nobody having confirmed it.
pub unconfirmed_is_billed :
    (by line : Text) (first later : Instant) (a : TimeEntry)
    → awaits_review a.state ≡ true
    → is_some a.state.ended_at ≡ true
    → is_locked a.state ≡ false
    → let a' = run_all execute (sign_off by first ∷ put_on line later ∷ []) a in
      (a'.state.statement_line_id ≡ some line) × (awaits_review a'.state ≡ true)
unfolding run_all execute approve include_in_statement
unconfirmed_is_billed by line first later a doubt finished free = (ground arith, ground arith)
