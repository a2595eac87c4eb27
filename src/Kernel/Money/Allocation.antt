-- ===== src/Kernel/Money/Allocation.antt =====
-- `Money.allocate` of money.ts: the sum of the shares.
use native.Mathlib.Nat.{mod-lt}
use amc_system.Base.{
  ℕ, zero, suc, ◌+◌, ◌%◌, ◌<◌, ◌≤◌, ◌≡◌, refl, ap, ◌∙◌, false, List, [], ◌∷◌, map, arith, All,
  length, length-map, if◌then◌else◌, any, lt→ltb,
}
use amc_system.Base.Int.{ℤ, pos, negsuc, nat_abs, pos_part, neg_part, ◌+ℤ◌, ◌-ℤ◌, ltb_ℤ, int_laws}
use amc_system.Kernel.Throws.{done}
use amc_system.Kernel.Money.{
  Money, money, moneys, Currency, total_weight, base_shares, distributed, bump_at, hand_out,
  allocate, is_bad_weight, max_safe_integer,
}
use amc_system.Kernel.Money.Sums.{InCurrency, total_minor}

length-bump_at :
    (shares : List ℤ) (i : ℕ) (task : ℤ) → length (bump_at shares i task) ≡ length shares
length-bump_at [] i task = refl
length-bump_at (s ∷ ss) zero task = refl
length-bump_at (s ∷ ss) (suc i) task = ap suc (length-bump_at ss i task)

distributed-bump_at :
    (shares : List ℤ) (i : ℕ) (task : ℤ)
    → i < length shares
    → distributed (bump_at shares i task) ≡ distributed shares +ℤ task
distributed-bump_at [] i task h = elim h [ ]
distributed-bump_at (s ∷ ss) zero task h = omega int_laws
distributed-bump_at (s ∷ ss) (suc i) task h =
    rw (distributed-bump_at ss i task (omega arith)) (omega int_laws)

length-hand_out :
    (rounds : ℕ) (task : ℤ) (i : ℕ) (shares : List ℤ)
    → length (hand_out rounds task i shares) ≡ length shares
unfolding hand_out
length-hand_out zero task i shares = refl
length-hand_out (suc rounds) task i shares =
    length-hand_out rounds task ((i + 1) % length shares) (bump_at shares i task)
    ∙ length-bump_at shares i task

-- `k` units of the task.
abbrev units : ℕ → ℤ → ℤ
units zero task = pos 0
units (suc k) task = task +ℤ units k task

distributed-hand_out :
    (rounds : ℕ) (task : ℤ) (i : ℕ) (shares : List ℤ)
    → i < length shares
    → distributed (hand_out rounds task i shares) ≡ distributed shares +ℤ units rounds task
unfolding hand_out
distributed-hand_out zero task i shares h = omega int_laws
distributed-hand_out (suc rounds) task i shares h =
    let next = bump_at shares i task in
    let inside : (i + 1) % length shares < length next =
      rw (length-bump_at shares i task) (mod-lt (i + 1) {m = length shares} (omega arith)) in
    rw
      (
        distributed-hand_out rounds task ((i + 1) % length shares) next inside,
        distributed-bump_at shares i task h,
      )
      (omega int_laws)

length-base_shares :
    (minor : ℤ) (total : ℕ) (ws : List ℕ) → length (base_shares minor total ws) ≡ length ws
length-base_shares minor total [] = refl
length-base_shares minor total (w ∷ ws) = ap suc (length-base_shares minor total ws)

units_up : (k : ℕ) → units k (pos 1) ≡ pos k
units_up zero = refl
units_up (suc k) = rw (units_up k) (omega int_laws)

units_down : (k : ℕ) → pos_part (units k (negsuc 0)) + k ≡ neg_part (units k (negsuc 0))
units_down zero = refl
units_down (suc k) = omega (int_laws, units_down k)

-- The task that the source takes, so often, is the remainder.
units_remainder : (r : ℤ) → units (nat_abs r) (if ltb_ℤ r (pos 0) then negsuc 0 else pos 1) ≡ r
units_remainder (pos n) = ground (arith, units_up n)
units_remainder (negsuc n) =
    rw (lt→ltb 0 (0 + suc n) (omega arith)) (omega (int_laws, units_down (suc n)))

total_minor-moneys :
    (shares : List ℤ) (c : Currency) → total_minor (moneys shares c) ≡ distributed shares
total_minor-moneys [] c = refl
total_minor-moneys (s ∷ ss) c = ap (λ t. s +ℤ t) (total_minor-moneys ss c)

moneys-InCurrency : (shares : List ℤ) (c : Currency) → All (InCurrency c) (moneys shares c)
moneys-InCurrency [] c = tt
moneys-InCurrency (s ∷ ss) c = (refl, moneys-InCurrency ss c)

-- The amount less what the base shares take.
abbrev remainder : Money → List ℤ → ℤ
remainder a weights =
    let ws = map pos_part weights in
    a.minor_units -ℤ distributed (base_shares a.minor_units (total_weight ws) ws)

-- What a split of the weights hands out in the end.
abbrev final_shares : Money → List ℤ → List ℤ
final_shares a weights =
    let ws = map pos_part weights in
    hand_out (nat_abs (remainder a weights))
      (if ltb_ℤ (remainder a weights) (pos 0) then negsuc 0 else pos 1) 0
      (base_shares a.minor_units (total_weight ws) ws)

distributed-final_shares :
    (a : Money) (w : ℤ) (weights : List ℤ)
    → distributed (final_shares a (w ∷ weights)) ≡ a.minor_units
distributed-final_shares a w weights =
    let r = remainder a (w ∷ weights) in
    let ws = map pos_part (w ∷ weights) in
    let shares = base_shares a.minor_units (total_weight ws) ws in
    let task : ℤ = if ltb_ℤ r (pos 0) then negsuc 0 else pos 1 in
    distributed-hand_out (nat_abs r) task 0 shares (omega arith)
    ∙ rw (units_remainder r) (omega int_laws)

length-final_shares :
    (a : Money) (weights : List ℤ) → length (final_shares a weights) ≡ length weights
length-final_shares a weights =
    length-hand_out _ _ 0 _ ∙ length-base_shares a.minor_units _ _ ∙ length-map pos_part weights

allocate-returns :
    (a : Money) (w : ℤ) (weights : List ℤ)
    → any is_bad_weight (w ∷ weights) ≡ false
    → 0 < total_weight (map pos_part (w ∷ weights))
    → allocate a (w ∷ weights) ≡ done (moneys (final_shares a (w ∷ weights)) a.currency)
unfolding allocate
allocate-returns a w weights good heavy = rw good (ground arith)

-- Whole weights that are not negative, not all zero and of a safe sum are split without a throw, into
-- one share for each weight, in the amount's currency, and the shares add up to the amount exactly.
pub allocate_conserves :
    (a : Money) (weights : List ℤ)
    → any is_bad_weight weights ≡ false
    → 0 < total_weight (map pos_part weights)
    → total_weight (map pos_part weights) ≤ max_safe_integer
    → (shares : List Money) × (allocate a weights ≡ done shares)
      × (length shares ≡ length weights)
      × All (InCurrency a.currency) shares
      × (total_minor shares ≡ a.minor_units)
allocate_conserves a [] good heavy exact = elim heavy [ ]
allocate_conserves a (w ∷ weights) good heavy exact =
    let shares = final_shares a (w ∷ weights) in
    (
      moneys shares a.currency,
      allocate-returns a w weights good heavy,
      length-map (λ n. money n a.currency) shares ∙ length-final_shares a (w ∷ weights),
      moneys-InCurrency shares a.currency,
      total_minor-moneys shares a.currency ∙ distributed-final_shares a w weights,
    )
