-- ===== src/Kernel/Aggregate.antt =====
-- packages/kernel/src/aggregate-root.ts, and how a method of an aggregate runs: it may change the
-- state, record events, return a `Result`, or throw. An exception leaves what was assigned before
-- it in place.
use amc_system.Base.{
  ◌≡◌, refl, ◌⊎◌, inl, inr, Option, none, some, Bool, true, false, List, [], ◌∷◌, ◌++◌,
}
use amc_system.Kernel.Throws.{ProgrammerError, Throws}

-- The private state of an aggregate and its pending events.
pub record Aggregate {ℓ κ} (S : Type ℓ) (Ev : Type κ) : Type (ℓ ⊔ κ) where
  pub state : S
  pub pending : List Ev

-- How a call ended: `Ok`, `Err`, or an exception.
pub data Outcome {ℓ κ} (E : Type ℓ) (A : Type κ) : Type (ℓ ⊔ κ) where
  ok : A → Outcome E A
  err : E → Outcome E A
  threw : ProgrammerError → Outcome E A

pub Outcome-cases {ℓ κ} :
    {E : Type ℓ} {A : Type κ} (r : Outcome E A)
    → ((a : A) × (r ≡ ok a)) ⊎ (((e : E) × (r ≡ err e)) ⊎ ((e : ProgrammerError) × (r ≡ threw e)))
Outcome-cases (ok a) = inl (a, refl)
Outcome-cases (err e) = inr (inl (e, refl))
Outcome-cases (threw e) = inr (inr (e, refl))

module _ {ℓ κ} {S : Type ℓ} {Ev : Type κ} where
  -- `pullEvents`
  abbrev pub pull_events : Aggregate S Ev → List Ev × Aggregate S Ev
  pull_events a = (a.pending, record a { pending = [] })

  -- `hasPendingEvents`
  abbrev pub has_pending_events : Aggregate S Ev → Bool
  has_pending_events a = elim a.pending [ [] ↦ false | _ ∷ _ ↦ true ]

-- A method: what it returns, and the aggregate it leaves.
abbrev pub Method : Type 0 → Type 0 → Type 0 → Type 0 → Type 0
Method S Ev E A = Aggregate S Ev → Outcome E A × Aggregate S Ev

module _ {S Ev E : Type 0} where
  infixl 5 ◌>>=◌ ◌>>◌
  abbrev pub ◌>>=◌ : {A B : Type 0} → Method S Ev E A → (A → Method S Ev E B) → Method S Ev E B
  ◌>>=◌ m f s =
      let (r, s') = m s in elim r [ ok a ↦ f a s' | err e ↦ (err e, s') | threw e ↦ (threw e, s') ]

  abbrev pub ◌>>◌ : {B : Type 0} → Method S Ev E (Unit {0}) → Method S Ev E B → Method S Ev E B
  m >> k = m >>= λ _. k

  abbrev pub pure : {A : Type 0} → A → Method S Ev E A
  pure a s = (ok a, s)

  -- `if (test) return err(e)`
  abbrev pub refuse_if : Bool → E → Method S Ev E (Unit {0})
  refuse_if true e s = (err e, s)
  refuse_if false e s = (ok tt, s)

  -- A row of such guards: the first that applies.
  abbrev pub refuse : Option E → Method S Ev E (Unit {0})
  refuse none s = (ok tt, s)
  refuse (some e) s = (err e, s)

  -- `if (!x) return err(e)`: the value that is there.
  abbrev pub found_or : {A : Type 0} → Option A → E → Method S Ev E A
  found_or none e s = (err e, s)
  found_or (some a) e s = (ok a, s)

  -- A call of the kernel, which may throw.
  abbrev pub call : {A : Type 0} → Throws A → Method S Ev E A
  call (Throws.done a) s = (ok a, s)
  call (Throws.threw e) s = (threw e, s)

  -- `this.state`
  abbrev pub this_state : Method S Ev E S
  this_state s = (ok s.state, s)

  -- `this.state = x`
  abbrev pub assign : S → Method S Ev E (Unit {0})
  assign x s = (ok tt, record s { state = x })

  -- `this.record(event)`
  abbrev pub emit : Ev → Method S Ev E (Unit {0})
  emit e s = (ok tt, record s { pending = s.pending ++ e ∷ [] })

  -- Calls in a row: each meets the aggregate that the one before it left, however that one ended.
  unfoldable pub run_all :
      {C : Type 0} → (C → Method S Ev E (Unit {0})) → List C → Aggregate S Ev → Aggregate S Ev
  run_all call [] a = a
  run_all call (c ∷ cs) a = run_all call cs (call c a).1

  -- What every call keeps, calls in a row keep.
  pub run_all-keeps {ℓ} :
      {C : Type 0} (P : Aggregate S Ev → Type ℓ) (call : C → Method S Ev E (Unit {0}))
      → ((c : C) (a : Aggregate S Ev) → P a → P (call c a).1)
      → (cs : List C) (a : Aggregate S Ev) → P a
      → P (run_all call cs a)
  unfolding run_all
  run_all-keeps P call keep [] a h = h
  run_all-keeps P call keep (c ∷ cs) a h = run_all-keeps P call keep cs (call c a).1 (keep c a h)
