-- ===== src/Clients/RateHistory/Past.antt =====
-- What a change of the rate leaves alone (client-rate.ts).
use amc_system.Base.{
  ◌≡◌, refl, ap, sym, subst, ◌∙◌, true, false, Option, none, some, [], ◌∷◌, ◌++◌, push, find,
  is_some, All, All-map_of, All-append, inl, inr, Bool-cases, arith,
}
use mathlib.Core.List.{append_assoc, append-nil}
use amc_system.Base.Int.{◌<ℤ◌, ltb_ℤ, leb_ℤ, eqb_ℤ}
use amc_system.Kernel.Result as Result
use amc_system.Kernel.Rate.{Rate}
use amc_system.Kernel.Duration.{Instant}
use amc_system.Clients.RateHistory.{
  RateChange, RateHistory, insert, sort_onto, from, add, on_from, on,
}

-- One change for a day at most, in the order of the days.
abbrev pub IsHistory : RateHistory → Type 0
IsHistory [] = Unit
IsHistory (c ∷ changes) =
    All (λ d. c.effective_from <ℤ d.effective_from) changes × IsHistory changes

-- A change on a later day says nothing of a date.
on_from-insert_later :
    (current : Option Rate) (date : Instant) (c : RateChange) (changes : RateHistory)
    → date <ℤ c.effective_from
    → on_from current date (insert c changes) ≡ on_from current date changes
unfolding on_from insert
on_from-insert_later current date c [] h = ground arith
on_from-insert_later current date c (d ∷ changes) h =
    let ih = on_from-insert_later (some d.rate) date c changes h in
    elim (Bool-cases (ltb_ℤ c.effective_from d.effective_from)) [
      | inl first ↦ ground arith
      | inr later ↦ elim (Bool-cases (leb_ℤ d.effective_from date)) [
        | inl past ↦ rw (later, past) ih
        | inr future ↦ rw (later, future) refl
      ]
    ]

-- No change stands on the day of the new one.
abbrev IsFree : RateChange → RateHistory → Type 0
IsFree c changes = All (λ d. eqb_ℤ d.effective_from c.effective_from ≡ false) changes

find-IsFree :
    (c : RateChange) (changes : RateHistory)
    → is_some (find (λ d. eqb_ℤ d.effective_from c.effective_from) changes) ≡ false
    → IsFree c changes
find-IsFree c [] h = tt
find-IsFree c (d ∷ changes) h = ground (arith, find-IsFree c changes)

-- On its own day the new change is the rate.
on_from-insert_same :
    (current : Option Rate) (c : RateChange) (changes : RateHistory)
    → IsHistory changes
    → IsFree c changes
    → on_from current c.effective_from (insert c changes) ≡ some c.rate
unfolding on_from insert
on_from-insert_same current c [] sorted free = ground arith
on_from-insert_same current c (d ∷ changes) sorted free =
    let ih = on_from-insert_same (some d.rate) c changes sorted.1 free.1 in
    elim (Bool-cases (ltb_ℤ c.effective_from d.effective_from)) [
      | inl first ↦ ground arith
      | inr later ↦
          let past : leb_ℤ d.effective_from c.effective_from ≡ true = ground arith in
          rw later (rw past ih)
    ]

All-insert :
    (x : Instant) (c : RateChange) (changes : RateHistory)
    → x <ℤ c.effective_from
    → All (λ d. x <ℤ d.effective_from) changes
    → All (λ d. x <ℤ d.effective_from) (insert c changes)
unfolding insert
All-insert x c [] h k = (h, tt)
All-insert x c (d ∷ changes) h k = elim (Bool-cases (ltb_ℤ c.effective_from d.effective_from)) [
  | inl first ↦ rw first (h, k)
  | inr later ↦ rw later (k.0, All-insert x c changes h k.1)
]

insert-IsHistory :
    (c : RateChange) (changes : RateHistory)
    → IsHistory changes
    → IsFree c changes
    → IsHistory (insert c changes)
unfolding insert
insert-IsHistory c [] sorted free = (tt, tt)
insert-IsHistory c (d ∷ changes) sorted free =
    elim (Bool-cases (ltb_ℤ c.effective_from d.effective_from)) [
      | inl first ↦
          let less : c.effective_from <ℤ d.effective_from = ground arith in
          rw first ((less, All-map_of _ _ (λ e k. omega (arith, less, k)) changes sorted.0), sorted)
      | inr later ↦
          let more : d.effective_from <ℤ c.effective_from = ground (arith, free.0) in
          rw later (
            All-insert d.effective_from c changes more sorted.0,
            insert-IsHistory c changes sorted.1 free.1,
          )
    ]

-- A change behind all others goes to the end.
insert-last :
    (c : RateChange) (changes : RateHistory)
    → All (λ d. d.effective_from <ℤ c.effective_from) changes
    → insert c changes ≡ push changes c
unfolding insert
insert-last c [] h = refl
insert-last c (d ∷ changes) h =
    let later : ltb_ℤ c.effective_from d.effective_from ≡ false = ground (arith, h.0) in
    rw later (ap (λ cs. d ∷ cs) (insert-last c changes h.1))

sort_onto-push :
    (sorted changes : RateHistory) (c : RateChange)
    → sort_onto sorted (push changes c) ≡ insert c (sort_onto sorted changes)
unfolding sort_onto
sort_onto-push sorted [] c = refl
sort_onto-push sorted (d ∷ changes) c = sort_onto-push (insert d sorted) changes c

-- Every change of the one list stands before those of the other.
abbrev AreBefore : RateHistory → RateHistory → Type 0
AreBefore firsts laters = All (λ d. All (λ e. e.effective_from <ℤ d.effective_from) firsts) laters

AreBefore-push :
    (firsts laters : RateHistory) (c : RateChange)
    → AreBefore firsts laters
    → All (λ d. c.effective_from <ℤ d.effective_from) laters
    → AreBefore (push firsts c) laters
AreBefore-push firsts [] c h k = tt
AreBefore-push firsts (d ∷ laters) c h k =
    (All-append _ firsts (c ∷ []) h.0 (k.0, tt), AreBefore-push firsts laters c h.1 k.1)

sort_onto-IsHistory :
    (sorted changes : RateHistory)
    → AreBefore sorted changes
    → IsHistory changes
    → sort_onto sorted changes ≡ sorted ++ changes
unfolding sort_onto
sort_onto-IsHistory sorted [] h k = sym (append-nil sorted)
sort_onto-IsHistory sorted (c ∷ changes) h k =
    ap (λ cs. sort_onto cs changes) (insert-last c sorted h.0)
    ∙ sort_onto-IsHistory (push sorted c) changes (AreBefore-push sorted changes c h.1 k.0) k.1
    ∙ append_assoc sorted (c ∷ []) changes

nothing_before : (changes : RateHistory) → AreBefore [] changes
nothing_before [] = tt
nothing_before (c ∷ changes) = (tt, nothing_before changes)

from-push :
    (changes : RateHistory) (c : RateChange)
    → IsHistory changes
    → from (push changes c) ≡ insert c changes
from-push changes c h =
    sort_onto-push [] changes c
    ∙ ap (insert c) (sort_onto-IsHistory [] changes (nothing_before changes) h)

add-ok :
    (c : RateChange) (changes : RateHistory) {after : RateHistory}
    → add c changes ≡ Result.ok after
    → IsFree c changes × (from (push changes c) ≡ after)
unfolding add
add-ok c changes {after} h =
    elim (Bool-cases (is_some (find (λ d. eqb_ℤ d.effective_from c.effective_from) changes))) [
      | inl taken ↦ absurd (ground arith)
      | inr free ↦ (find-IsFree c changes free, ground arith)
    ]

-- A change of the rate that is taken reaches forward only. The history stays one change for a day at
-- most in the order of the days; the rate on every date before the change is what it was, and on the
-- day of the change it is the new one.
pub rate_change_keeps_past :
    (c : RateChange) (changes : RateHistory) {after : RateHistory}
    → IsHistory changes
    → add c changes ≡ Result.ok after
    → IsHistory after
      × ((date : Instant) → date <ℤ c.effective_from → on date after ≡ on date changes)
      × (on c.effective_from after ≡ some c.rate)
rate_change_keeps_past c changes {after} sorted h =
    let (free, made) = add-ok c changes h in
    let e : insert c changes ≡ after = sym (from-push changes c sorted) ∙ made in
    (
      subst IsHistory e (insert-IsHistory c changes sorted free),
      λ date k. ap (on date) (sym e) ∙ on_from-insert_later none date c changes k,
      ap (on c.effective_from) (sym e) ∙ on_from-insert_same none c changes sorted free,
    )
