-- ===== src/Kernel/Throws.antt =====
-- packages/kernel/src/errors.ts, `ProgrammerError`: what is thrown, never returned. A function of
-- the kernel that may throw gives a `Throws`.
use amc_system.Base.{◌≡◌, refl, Bool, true, false, ◌⊎◌, inl, inr}

-- One constructor for each `throw` of money.ts, duration.ts, rate.ts, business-calendar.ts and project.ts.
pub data ProgrammerError : Type 0 where
  division_by_zero unsafe_amount unsafe_minor_units mixed_currencies unsafe_factor unsafe_ratio
        no_weights bad_weights zero_weights unsafe_seconds negative_rate not_a_span
        unreadable_amount too_many_decimals no_business_day no_template :
      ProgrammerError

pub data Throws {ℓ} (A : Type ℓ) : Type ℓ where
  done : A → Throws A
  threw : ProgrammerError → Throws A

infixl 5 ◌>>=◌ ◌>>◌
abbrev pub ◌>>=◌ {ℓ κ} : {A : Type ℓ} {B : Type κ} → Throws A → (A → Throws B) → Throws B
done a >>= f = f a
threw e >>= f = threw e

abbrev pub ◌>>◌ {ℓ} : {B : Type ℓ} → Throws (Unit {0}) → Throws B → Throws B
m >> k = m >>= λ _. k

-- `if (test) throw e`
abbrev pub throw_if : Bool → ProgrammerError → Throws (Unit {0})
throw_if true e = threw e
throw_if false e = done tt

pub Throws-cases {ℓ} :
    {A : Type ℓ} (m : Throws A) → ((a : A) × (m ≡ done a)) ⊎ ((e : ProgrammerError) × (m ≡ threw e))
Throws-cases (done a) = inl (a, refl)
Throws-cases (threw e) = inr (e, refl)

-- Inversion of a chain that returned.
pub >>=-eq-done {ℓ κ} :
    {A : Type ℓ} {B : Type κ} (m : Throws A) (f : A → Throws B) {b : B}
    → (m >>= f) ≡ done b
    → (a : A) × (m ≡ done a) × (f a ≡ done b)
>>=-eq-done (done a) f h = (a, refl, h)
>>=-eq-done (threw e) f h = cc
