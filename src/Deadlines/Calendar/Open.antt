-- ===== src/Deadlines/Calendar/Open.antt =====
-- Where the search for an open day of business-calendar.ts ends.
use amc_system.Base.{
  ℕ, zero, suc, ◌<◌, ◌≡◌, refl, true, false, List, ◌⊎◌, inl, inr, Bool-cases, arith,
}
use amc_system.Kernel.Duration.{Instant}
use amc_system.Kernel.Throws.{done, threw, no_business_day}
use amc_system.Deadlines.Calendar.{Holiday, is_business_day, search}

-- So many moves from a date.
abbrev pub moved : (Instant → Instant) → ℕ → Instant → Instant
moved move zero date = date
moved move (suc n) date = moved move n (move date)

-- An open day is found: so many moves away, within the attempts, and no day before it is open.
pub record IsNearest (move : Instant → Instant) (holidays : List Holiday) (attempts : ℕ)
    (date found : Instant) (k : ℕ) : Type 0 where
  pub within : k < attempts
  pub is_moved : found ≡ moved move k date
  pub is_open : is_business_day holidays found ≡ true
  pub none_nearer : (j : ℕ) → j < k → is_business_day holidays (moved move j date) ≡ false

-- The search for an open day, forwards or backwards: it finds the nearest one, the date itself where
-- that is open, or throws, and then none of the days that it has tried is open.
pub search_lem :
    (move : Instant → Instant) (holidays : List Holiday) (attempts : ℕ) (date : Instant)
    → ((found : Instant) × (k : ℕ) × (search move holidays attempts date ≡ done found)
        × IsNearest move holidays attempts date found k)
      ⊎ ((search move holidays attempts date ≡ threw no_business_day)
          × ((j : ℕ) → j < attempts → is_business_day holidays (moved move j date) ≡ false))
unfolding search
search_lem move holidays zero date = inr (refl, λ j h. absurd (omega arith))
search_lem move holidays (suc attempts) date = elim (Bool-cases (is_business_day holidays date)) [
  | inl opened ↦ inl (
    date,
    0,
    rw opened refl,
    record {
      within = omega arith;
      is_moved = refl;
      is_open = opened;
      none_nearer = λ j h. absurd (omega arith);
    },
  )
  | inr closed ↦ elim (search_lem move holidays attempts (move date)) [
    | inl (found, k, e, nearest) ↦ inl (
      found,
      suc k,
      rw (closed, e) refl,
      record {
        within = omega (arith, nearest.within);
        is_moved = nearest.is_moved;
        is_open = nearest.is_open;
        none_nearer = nearer closed (λ j h. nearest.none_nearer j h);
      },
    )
    | inr (e, all) ↦ inr (rw (closed, e) refl, nearer closed all)
  ]
]
  where
    nearer :
        {n : ℕ}
        → is_business_day holidays date ≡ false
        → ((j : ℕ) → j < n → is_business_day holidays (moved move j (move date)) ≡ false)
        → (j : ℕ) → j < suc n
        → is_business_day holidays (moved move j date) ≡ false
    nearer closed rest zero h = closed
    nearer closed rest (suc j) h = rest j (omega arith)
