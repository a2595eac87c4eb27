-- ===== src/Billing/Sweep/Starved.antt =====
-- What the limit of the morning sweep does (settle-invoice.ts over invoice.repository.ts).
use mathlib.Core.List.{Perm, Permᴰ}
use mathlib.Core.Logic.{∥∥₁_elim}
use native.Mathlib.Nat.{ℕ_set}
use amc_system.Base.{
  ℕ, zero, suc, ◌+◌, ◌≤◌, ◌≡◌, refl, ap, sym, subst, ◌∙◌, Bool, true, false, not, ◌&&◌, List, [],
  ◌∷◌, filter, take, length, All, arith, inl, inr, Bool-cases, leb,
}
use amc_system.Base.Int.{◌≤ℤ◌, ltb_ℤ}
use amc_system.Kernel.Throws.{done}
use amc_system.Kernel.Duration.{Instant}
use amc_system.Billing.Invoice.{Invoice, is_overdue}
use amc_system.Billing.Sweep.{is_late, late_as_of, sweep_each, sweep_overdue}
use amc_system.Billing.Sweep.Order.{IsByDue, IsOrder}

-- How many of the invoices are due before one of them.
abbrev due_before : Invoice → List Invoice → ℕ
due_before b invoices = length (filter (λ a. ltb_ℤ a.state.due_on b.state.due_on) invoices)

count : (Invoice → Bool) → List Invoice → ℕ
count p xs = length (filter p xs)

weight : Bool → ℕ
weight true = 1
weight false = 0

count-cons :
    (p : Invoice → Bool) (x : Invoice) (xs : List Invoice)
    → count p (x ∷ xs) ≡ weight (p x) + count p xs
unfolding count weight
count-cons p x xs = elim (Bool-cases (p x)) [
  | inl fits ↦ rw fits (omega arith)
  | inr other ↦ rw other (omega arith)
]

count_same : (p : Invoice → Bool) (xs ys : List Invoice) → Permᴰ xs ys → count p xs ≡ count p ys
count_same p xs ys Permᴰ.nil = refl
count_same p xs ys (Permᴰ.cons {a} {b} {l₁} {l₂} e h) =
    let rest = count_same p l₁ l₂ h in
    let here : weight (p a) ≡ weight (p b) = ap (λ x. weight (p x)) e in
    let first = count-cons p a l₁ in let second = count-cons p b l₂ in omega arith
count_same p xs ys (Permᴰ.swap {a} {b} {a'} {b'} {l} e₁ e₂) =
    let here₁ : weight (p a) ≡ weight (p b') = ap (λ x. weight (p x)) e₁ in
    let here₂ : weight (p b) ≡ weight (p a') = ap (λ x. weight (p x)) e₂ in
    let c₁ = count-cons p a (b ∷ l) in
    let c₂ = count-cons p b l in
    let c₃ = count-cons p a' (b' ∷ l) in let c₄ = count-cons p b' l in omega arith
count_same p xs ys (Permᴰ.trans {l₁} {l₂} {l₃} h k) = count_same p xs l₂ h ∙ count_same p l₂ ys k

count-Perm : (p : Invoice → Bool) (xs ys : List Invoice) → Perm xs ys → count p xs ≡ count p ys
count-Perm p xs ys h = ∥∥₁_elim h (ℕ_set (count p xs) (count p ys)) (count_same p xs ys)

-- An invoice that is not marked is behind so many others.
abbrev IsBehind : ℕ → List Invoice → Invoice → Type 0
IsBehind limit invoices b = is_overdue b.state ≡ false → limit ≤ due_before b invoices

-- The test that an invoice is not, as a Boolean.
abbrev is_ahead : ℕ → List Invoice → Invoice → Bool
is_ahead limit invoices b = not (is_overdue b.state) && not (leb limit (due_before b invoices))

none_ahead :
    (limit : ℕ) (invoices xs : List Invoice)
    → All (IsBehind limit invoices) xs
    → count (is_ahead limit invoices) xs ≡ 0
unfolding count
none_ahead limit invoices [] h = refl
none_ahead limit invoices (x ∷ xs) h =
    let behind : is_ahead limit invoices x ≡ false = elim (Bool-cases (is_overdue x.state)) [
      | inl marked ↦ rw marked refl
      | inr unmarked ↦
          let enough : limit ≤ due_before x invoices = h.0 unmarked in
          let test : leb limit (due_before x invoices) ≡ true = ground arith in
          rw (unmarked, test) refl
    ] in
    rw behind (none_ahead limit invoices xs h.1)

count-IsBehind :
    (limit : ℕ) (invoices xs : List Invoice)
    → count (is_ahead limit invoices) xs ≡ 0
    → All (IsBehind limit invoices) xs
unfolding weight
count-IsBehind limit invoices [] h = tt
count-IsBehind limit invoices (x ∷ xs) h =
    let split = count-cons (is_ahead limit invoices) x xs in
    (here split h, count-IsBehind limit invoices xs (omega arith))
  where
    here :
        count (is_ahead limit invoices) (x ∷ xs)
          ≡ weight (is_ahead limit invoices x) + count (is_ahead limit invoices) xs
        → count (is_ahead limit invoices) (x ∷ xs) ≡ 0
        → IsBehind limit invoices x
    here split none unmarked = elim (Bool-cases (leb limit (due_before x invoices))) [
      | inl enough ↦ ground arith
      | inr few ↦
          let ahead : is_ahead limit invoices x ≡ true = rw (unmarked, few) refl in
          let one : weight (is_ahead limit invoices x) ≡ 1 = ap weight ahead in absurd (omega arith)
    ]

-- Behind the same number in the order as in the table.
all_moved :
    (limit : ℕ) (ys zs xs : List Invoice)
    → ((b : Invoice) → due_before b ys ≡ due_before b zs)
    → All (IsBehind limit ys) xs
    → All (IsBehind limit zs) xs
all_moved limit ys zs [] e h = tt
all_moved limit ys zs (x ∷ xs) e h =
    (λ unmarked. subst (λ n. limit ≤ n) (e x) (h.0 unmarked), all_moved limit ys zs xs e h.1)

none_before_first :
    (y : Invoice) (ys : List Invoice)
    → All (λ b. y.state.due_on ≤ℤ b.state.due_on) ys
    → due_before y ys ≡ 0
none_before_first y [] h = refl
none_before_first y (b ∷ ys) h =
    let later : ltb_ℤ b.state.due_on y.state.due_on ≡ false = (let f = h.0 in ground arith) in
    rw later (none_before_first y ys h.1)

one_less :
    (limit : ℕ) (y : Invoice) (ys xs : List Invoice)
    → All (IsBehind (suc limit) (y ∷ ys)) xs
    → All (IsBehind limit ys) xs
one_less limit y ys [] h = tt
one_less limit y ys (x ∷ xs) h = (
  λ unmarked.
      let more = h.0 unmarked in
      elim (Bool-cases (ltb_ℤ y.state.due_on x.state.due_on)) [
        | inl before ↦
            let n : due_before x (y ∷ ys) ≡ suc (due_before x ys) = rw before refl in omega arith
        | inr after ↦ let n : due_before x (y ∷ ys) ≡ due_before x ys = rw after refl in omega arith
      ],
  one_less limit y ys xs h.1,
)

-- What stands first by due date is marked, where every invoice that is not is behind as many.
taken_are_marked :
    (limit : ℕ) (ys : List Invoice)
    → IsByDue ys
    → All (IsBehind limit ys) ys
    → All (λ a. is_overdue a.state ≡ true) (take limit ys)
taken_are_marked limit [] sorted h = tt
taken_are_marked zero (y ∷ ys) sorted h = tt
taken_are_marked (suc limit) (y ∷ ys) sorted h =
    (first, taken_are_marked limit ys sorted.1 (one_less limit y ys ys h.1))
  where
    first : is_overdue y.state ≡ true
    first = elim (Bool-cases (is_overdue y.state)) [
      | inl marked ↦ marked
      | inr unmarked ↦
          let never : ltb_ℤ y.state.due_on y.state.due_on ≡ false = ground arith in
          let n : due_before y (y ∷ ys) ≡ 0 = rw never (none_before_first y ys sorted.0) in
          let few = h.0 unmarked in absurd (omega arith)
    ]

sweep_each-marked :
    (as_of : Instant) (late : List Invoice) (marked skipped : ℕ) (invoices : List Invoice)
    → All (λ a. is_overdue a.state ≡ true) late
    → sweep_each as_of late marked skipped invoices
      ≡ (done (marked, skipped + length late), invoices)
unfolding sweep_each
sweep_each-marked as_of [] marked skipped invoices h =
    ap (λ n. (done (marked, n), invoices)) (omega arith)
sweep_each-marked as_of (a ∷ late) marked skipped invoices h = rw h.0 (
    sweep_each-marked as_of late marked (skipped + 1) invoices h.1
    ∙ ap (λ n. (done (marked, n), invoices)) (omega arith))

-- The sweep can be starved, in whatever order the table has its rows and whichever of the invoices due
-- at one instant come first. Where every late invoice that is not marked yet has, due strictly before
-- it, at least as many other late invoices as the sweep takes at once, the sweep marks nothing and
-- changes nothing, on any day, however late the others are.
pub sweep_overdue_starves :
    (order : List Invoice → List Invoice) (as_of : Instant) (limit : ℕ) (invoices : List Invoice)
    → IsOrder order
    → All
        (λ b. is_overdue b.state ≡ false → limit ≤ due_before b (filter (is_late as_of) invoices))
        (filter (is_late as_of) invoices)
    → sweep_overdue order as_of limit invoices
      ≡ (done (0, length (late_as_of order as_of limit invoices)), invoices)
sweep_overdue_starves order as_of limit invoices ordered h =
    let late = filter (is_late as_of) invoices in
    let (same, sorted) = ordered late in
    let moved : All (IsBehind limit late) (order late) =
      count-IsBehind limit late (order late)
        (count-Perm (is_ahead limit late) (order late) late same ∙ none_ahead limit late late h) in
    let behind : All (IsBehind limit (order late)) (order late) =
      all_moved limit late (order late) (order late) (λ b. sym (before_same b late same)) moved in
    sweep_each-marked as_of (take limit (order late)) 0 0 invoices
      (taken_are_marked limit (order late) sorted behind)
    ∙ ap (λ n. (done (0, n), invoices)) (omega arith)
  where
    before_same :
        (b : Invoice) (late : List Invoice)
        → Perm (order late) late
        → due_before b (order late) ≡ due_before b late
    before_same b late same =
        unfold count in count-Perm (λ a. ltb_ℤ a.state.due_on b.state.due_on) (order late) late same
