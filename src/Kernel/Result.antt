-- ===== src/Kernel/Result.antt =====
-- packages/kernel/src/result.ts: success or failure as a value.

use mathlib.Core.List
use mathlib.Core.List.{append-nil, append_assoc}
use amc_system.Base.{◌⊎◌, inl, inr, ◌≡◌, refl, ap, ◌∙◌, List, [], ◌∷◌, ◌++◌}

pub data Result {ℓ κ} (E : Type ℓ) (A : Type κ) : Type (ℓ ⊔ κ) where
  ok : A → Result E A
  err : E → Result E A

pub Result-cases {ℓ κ} :
    {E : Type ℓ} {A : Type κ} (r : Result E A) → ((a : A) × (r ≡ ok a)) ⊎ ((e : E) × (r ≡ err e))
Result-cases (ok a) = inl (a, refl)
Result-cases (err e) = inr (e, refl)

module _ {ℓ κ} {E : Type ℓ} {A : Type κ} where
  -- `andThen`
  abbrev pub and_then {κ'} : {B : Type κ'} → Result E A → (A → Result E B) → Result E B
  and_then (ok a) f = f a
  and_then (err e) f = err e

  abbrev pub map {κ'} : {B : Type κ'} → Result E A → (A → B) → Result E B
  map (ok a) f = ok (f a)
  map (err e) f = err e

  -- `mapErr`
  abbrev pub map_err {ℓ'} : {F : Type ℓ'} → Result E A → (E → F) → Result F A
  map_err (ok a) f = ok a
  map_err (err e) f = err (f e)

  -- `unwrapOr`
  abbrev pub unwrap_or : Result E A → A → A
  unwrap_or (ok a) fallback = a
  unwrap_or (err e) fallback = fallback

  -- The loop of `all`, with the values gathered so far.
  all_from : List A → List (Result E A) → Result E (List A)
  all_from values [] = ok values
  all_from values (ok a ∷ rest) = all_from (values ++ a ∷ []) rest
  all_from values (err e ∷ rest) = err e

  pub all : List (Result E A) → Result E (List A)
  unfolding all_from
  all results = all_from [] results

  all_from-ok : (before vs : List A) → all_from before (List.map ok vs) ≡ ok (before ++ vs)
  unfolding all_from
  all_from-ok before [] = rw append-nil
  all_from-ok before (v ∷ vs) =
      all_from-ok (before ++ v ∷ []) vs ∙ ap ok (append_assoc before (v ∷ []) vs)

  all_from-err :
      (before vs : List A) (e : E) (rest : List (Result E A))
      → all_from before (List.map ok vs ++ err e ∷ rest) ≡ err e
  unfolding all_from
  all_from-err before [] e rest = refl
  all_from-err before (v ∷ vs) e rest = all_from-err (before ++ v ∷ []) vs e rest

  -- `all` gives every value in order if there is no failure, and otherwise the first failure,
  -- whatever stands behind it.
  pub all_lem :
      (vs : List A)
      → (all (List.map ok vs) ≡ ok vs)
        × ((e : E) (rest : List (Result E A)) → all (List.map ok vs ++ err e ∷ rest) ≡ err e)
  unfolding all
  all_lem vs = (all_from-ok [] vs, all_from-err [] vs)
