-- ===== src/Identity/Permission/Choices.antt =====
-- What the firm can choose (permission.ts).
use amc_system.Base.{
  ◌≡◌, refl, ap, ◌∙◌, Bool, true, false, not, ◌||◌, Option, some, List, ◌++◌, any, filter, inl, inr,
  Bool-cases, Option-cases, if◌then◌else◌,
}
use amc_system.Base.Text.{Text, eq_text}
use amc_system.Identity.Permission.{
  Permission, Role, name_of, default_matrix, is_editable, has, is_grantable, granted, distinct,
  effective_matrix,
}
use amc_system.Identity.Permission.Matrix.{
  has-append, has-kept, has-granted_not, has-granted, has-distinct,
}

-- The permissions of a role for which the firm has chosen.
has-chosen :
    (p : Permission) (role : Role) (picked : List Text)
    → has p (distinct (filter (λ q. not (is_grantable q)) (default_matrix role) ++ granted picked))
      ≡ (if is_grantable p
          then any (λ v. eq_text v (name_of p)) picked
          else has p (default_matrix role))
has-chosen p role picked =
    has-distinct p (filter (λ q. not (is_grantable q)) (default_matrix role) ++ granted picked)
    ∙ has-append p (filter (λ q. not (is_grantable q)) (default_matrix role)) (granted picked)
    ∙ ap (λ b. b || has p (granted picked)) (has-kept p (default_matrix role))
    ∙ by_grantable (is_grantable p) refl
  where
    or_false : (b : Bool) → (b || false) ≡ b
    or_false true = refl
    or_false false = refl

    by_grantable :
        (g : Bool)
        → is_grantable p ≡ g
        → ((if is_grantable p then false else has p (default_matrix role))
            || has p (granted picked))
          ≡ (if is_grantable p
              then any (λ v. eq_text v (name_of p)) picked
              else has p (default_matrix role))
    by_grantable true e = rw e (has-granted p picked e)
    by_grantable false e =
        rw (e, has-granted_not p picked e) (or_false (has p (default_matrix role)))

-- Whatever the firm chooses: a role that is not for it to change keeps its defaults; a permission that
-- cannot be granted is held by the roles that hold it by default and by no other; and a role for which
-- the firm has chosen holds, of the permissions that can be granted, those whose names were chosen.
pub effective_matrix_lem :
    (chosen : Role → Option (List Text)) (role : Role) (p : Permission)
    → (is_editable role ≡ false → effective_matrix chosen role ≡ default_matrix role)
      × (is_grantable p ≡ false
          → has p (effective_matrix chosen role) ≡ has p (default_matrix role))
      × ((picked : List Text)
          → is_editable role ≡ true
          → chosen role ≡ some picked
          → is_grantable p ≡ true
          → has p (effective_matrix chosen role) ≡ any (λ v. eq_text v (name_of p)) picked)
unfolding effective_matrix
effective_matrix_lem chosen role p = (λ fixed. rw fixed refl, kept, chosen_ones)
  where
    kept :
        is_grantable p ≡ false → has p (effective_matrix chosen role) ≡ has p (default_matrix role)
    kept n = elim (Bool-cases (is_editable role)) [
      | inl e ↦ elim (Option-cases (chosen role)) [
        | inl empty ↦ rw (e, empty) refl
        | inr (picked, c) ↦ rw (e, c) (has-chosen p role picked ∙ rw n refl)
      ]
      | inr fixed ↦ rw fixed refl
    ]

    chosen_ones :
        (picked : List Text)
        → is_editable role ≡ true
        → chosen role ≡ some picked
        → is_grantable p ≡ true
        → has p (effective_matrix chosen role) ≡ any (λ v. eq_text v (name_of p)) picked
    chosen_ones picked e c g = rw (e, c) (has-chosen p role picked ∙ rw g refl)
