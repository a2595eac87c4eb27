-- ===== src/Identity/Permission/Matrix.antt =====
-- What the firm's own choices change of the permissions (permission.ts).
use amc_system.Base.{
  ℕ, ◌≡◌, refl, ap, ap₂, sym, subst, ◌∙◌, Bool, true, false, not, ◌||◌, Option, some, List, [], ◌∷◌,
  ◌++◌, any, filter, find, find-holds, arith, inl, inr, Bool-cases, Option-cases, ==_iff, ◌==◌,
  if◌then◌else◌,
}
use amc_system.Base.Text.{Text, eq_text, eq_text_refl, eq_of_eq_text}
use amc_system.Identity.Permission.{
  Permission, clients_view_all, clients_view_assigned, clients_edit, clients_rates_manage,
  clients_vault_read, projects_view_all, projects_view_assigned, projects_edit, projects_assign,
  time_record, time_edit_any, billing_view, billing_approve, billing_invoice_issue,
  billing_entries_unlink, invoices_upload, invoices_correct, invoices_approve_assigned,
  invoices_approve_all, export_excel, export_all, users_manage, audit_read, portal_self_view,
  portal_self_upload, name_of, eq_permission, grantable, has, is_grantable, permission_number,
  granted_by, granted, one_or_none, distinct_after, distinct,
}

-- Every grantable permission is found by its name.
granted_by-name_of : (p : Permission) → is_grantable p ≡ true → granted_by (name_of p) ≡ some p
unfolding granted_by eq_text
granted_by-name_of clients_view_all h = refl
granted_by-name_of clients_view_assigned h = refl
granted_by-name_of clients_edit h = refl
granted_by-name_of clients_rates_manage h = cc
granted_by-name_of clients_vault_read h = refl
granted_by-name_of projects_view_all h = refl
granted_by-name_of projects_view_assigned h = cc
granted_by-name_of projects_edit h = refl
granted_by-name_of projects_assign h = refl
granted_by-name_of time_record h = refl
granted_by-name_of time_edit_any h = refl
granted_by-name_of billing_view h = refl
granted_by-name_of billing_approve h = refl
granted_by-name_of billing_invoice_issue h = refl
granted_by-name_of billing_entries_unlink h = refl
granted_by-name_of invoices_upload h = cc
granted_by-name_of invoices_correct h = cc
granted_by-name_of invoices_approve_assigned h = cc
granted_by-name_of invoices_approve_all h = cc
granted_by-name_of export_excel h = cc
granted_by-name_of export_all h = cc
granted_by-name_of users_manage h = cc
granted_by-name_of audit_read h = refl
granted_by-name_of portal_self_view h = cc
granted_by-name_of portal_self_upload h = cc

all_permissions : List Permission
all_permissions =
    clients_view_all ∷ clients_view_assigned ∷ clients_edit ∷ clients_rates_manage
    ∷ clients_vault_read ∷ projects_view_all ∷ projects_view_assigned ∷ projects_edit
    ∷ projects_assign ∷ time_record ∷ time_edit_any ∷ billing_view ∷ billing_approve
    ∷ billing_invoice_issue ∷ billing_entries_unlink ∷ invoices_upload ∷ invoices_correct
    ∷ invoices_approve_assigned ∷ invoices_approve_all ∷ export_excel ∷ export_all ∷ users_manage
    ∷ audit_read ∷ portal_self_view ∷ portal_self_upload ∷ []

numbered : ℕ → Option Permission
numbered n = find (λ q. permission_number q == n) all_permissions

numbered-permission_number : (p : Permission) → numbered (permission_number p) ≡ some p
unfolding numbered all_permissions
numbered-permission_number clients_view_all = refl
numbered-permission_number clients_view_assigned = refl
numbered-permission_number clients_edit = refl
numbered-permission_number clients_rates_manage = refl
numbered-permission_number clients_vault_read = refl
numbered-permission_number projects_view_all = refl
numbered-permission_number projects_view_assigned = refl
numbered-permission_number projects_edit = refl
numbered-permission_number projects_assign = refl
numbered-permission_number time_record = refl
numbered-permission_number time_edit_any = refl
numbered-permission_number billing_view = refl
numbered-permission_number billing_approve = refl
numbered-permission_number billing_invoice_issue = refl
numbered-permission_number billing_entries_unlink = refl
numbered-permission_number invoices_upload = refl
numbered-permission_number invoices_correct = refl
numbered-permission_number invoices_approve_assigned = refl
numbered-permission_number invoices_approve_all = refl
numbered-permission_number export_excel = refl
numbered-permission_number export_all = refl
numbered-permission_number users_manage = refl
numbered-permission_number audit_read = refl
numbered-permission_number portal_self_view = refl
numbered-permission_number portal_self_upload = refl

eq_of_eq_permission : (p q : Permission) → eq_permission p q ≡ true → p ≡ q
eq_of_eq_permission p q h =
    let same : some p ≡ some q =
      sym (numbered-permission_number p)
      ∙ ap numbered ((==_iff (permission_number p) (permission_number q)).0 h)
      ∙ numbered-permission_number q in
    cc

eq_permission_refl : (p : Permission) → eq_permission p p ≡ true
eq_permission_refl p = ground arith

pub has-append :
    (p : Permission) (xs ys : List Permission) → has p (xs ++ ys) ≡ (has p xs || has p ys)
has-append p [] ys = refl
has-append p (x ∷ xs) ys = elim (Bool-cases (eq_permission x p)) [
  | inl this ↦ rw this refl
  | inr other ↦ rw other (has-append p xs ys)
]

-- What is kept of the defaults is what cannot be granted.
pub has-kept :
    (p : Permission) (xs : List Permission)
    → has p (filter (λ q. not (is_grantable q)) xs) ≡ (if is_grantable p then false else has p xs)
has-kept p [] = elim (Bool-cases (is_grantable p)) [ inl g ↦ rw g refl | inr n ↦ rw n refl ]
has-kept p (x ∷ xs) = elim (Bool-cases (eq_permission x p)) [
  | inl this ↦
      subst
        (λ q.
          has p (filter (λ r. not (is_grantable r)) (q ∷ xs))
          ≡ (if is_grantable p then false else has p (q ∷ xs)))
        (sym (eq_of_eq_permission x p this)) (kept p xs (has-kept p xs))
  | inr other ↦ elim (Bool-cases (is_grantable x)) [
    | inl gone ↦ rw (gone, other) (has-kept p xs)
    | inr stays ↦ rw (stays, other) (has-kept p xs)
  ]
]
  where
    kept :
        (p : Permission) (xs : List Permission)
        → has p (filter (λ q. not (is_grantable q)) xs)
          ≡ (if is_grantable p then false else has p xs)
        → has p (filter (λ r. not (is_grantable r)) (p ∷ xs))
          ≡ (if is_grantable p then false else has p (p ∷ xs))
    kept p xs h = elim (Bool-cases (is_grantable p)) [
      | inl g ↦ rw g (
          subst
            (λ b. has p (filter (λ q. not (is_grantable q)) xs) ≡ (if b then false else has p xs)) g
            h)
      | inr n ↦ rw (n, eq_permission_refl p) refl
    ]

find-has :
    (f : Permission → Bool) (xs : List Permission) {q : Permission}
    → find f xs ≡ some q
    → has q xs ≡ true
find-has f [] h = cc
find-has f (x ∷ xs) {q} h = elim (Bool-cases (f x)) [
  | inl fits ↦
      let found : some x ≡ some q =
        subst (λ b. (if b then some x else find f xs) ≡ some q) fits h in
      let same : x ≡ q = cc in
      subst (λ r. has r (x ∷ xs) ≡ true) same (rw (eq_permission_refl x) refl)
  | inr other ↦ elim (Bool-cases (eq_permission x q)) [
    | inl this ↦ rw this refl
    | inr that ↦
        rw that (find-has f xs (subst (λ b. (if b then some x else find f xs) ≡ some q) other h))
  ]
]

granted_by-grantable : (v : Text) {q : Permission} → granted_by v ≡ some q → is_grantable q ≡ true
unfolding granted_by
granted_by-grantable v h = find-has (λ q. eq_text (name_of q) v) grantable h

granted_by-named : (v : Text) {q : Permission} → granted_by v ≡ some q → name_of q ≡ v
unfolding granted_by
granted_by-named v {q} h =
    eq_of_eq_text (name_of q) v (find-holds (λ r. eq_text (name_of r) v) grantable h)

-- What one text grants.
has-one_not :
    (p : Permission) (v : Text)
    → is_grantable p ≡ false
    → has p (one_or_none (granted_by v)) ≡ false
has-one_not p v h = elim (Option-cases (granted_by v)) [
  | inl nothing ↦ rw nothing refl
  | inr (q, e) ↦ elim (Bool-cases (eq_permission q p)) [
    | inr other ↦ rw (e, other) refl
    | inl this ↦
        let may : is_grantable p ≡ true =
          subst (λ r. is_grantable r ≡ true) (eq_of_eq_permission q p this)
            (granted_by-grantable v e) in
        let clash : true ≡ false = sym may ∙ h in absurd (cc)
  ]
]

has-one :
    (p : Permission) (v : Text)
    → is_grantable p ≡ true
    → has p (one_or_none (granted_by v)) ≡ eq_text v (name_of p)
has-one p v h = elim (Bool-cases (eq_text v (name_of p))) [
  | inl named ↦
      let e : granted_by v ≡ some p =
        ap granted_by (eq_of_eq_text v (name_of p) named) ∙ granted_by-name_of p h in
      rw (e, named, eq_permission_refl p) refl
  | inr unnamed ↦ elim (Option-cases (granted_by v)) [
    | inl nothing ↦ rw (nothing, unnamed) refl
    | inr (q, e) ↦ elim (Bool-cases (eq_permission q p)) [
      | inr other ↦ rw (e, unnamed, other) refl
      | inl this ↦
          let same : name_of p ≡ v =
            sym (ap name_of (eq_of_eq_permission q p this)) ∙ granted_by-named v e in
          let named : eq_text v (name_of p) ≡ true =
            subst (λ u. eq_text v u ≡ true) (sym same) (eq_text_refl v) in
          let clash : true ≡ false = sym named ∙ unnamed in absurd (cc)
    ]
  ]
]

-- A permission that cannot be granted is not.
pub has-granted_not :
    (p : Permission) (picked : List Text) → is_grantable p ≡ false → has p (granted picked) ≡ false
has-granted_not p [] h = refl
has-granted_not p (v ∷ vs) h =
    has-append p (one_or_none (granted_by v)) (granted vs)
    ∙ ap₂ (λ a b. a || b) (has-one_not p v h) (has-granted_not p vs h)

pub has-granted :
    (p : Permission) (picked : List Text)
    → is_grantable p ≡ true
    → has p (granted picked) ≡ any (λ v. eq_text v (name_of p)) picked
has-granted p [] h = refl
has-granted p (v ∷ vs) h =
    has-append p (one_or_none (granted_by v)) (granted vs)
    ∙ ap₂ (λ a b. a || b) (has-one p v h) (has-granted p vs h)

taken_once :
    (e d x s : Bool) → (d || (e || s)) ≡ (x || (e || s)) → ((e || d) || s) ≡ ((e || x) || s)
taken_once true d x s h = refl
taken_once false d x s h = h

seen_before :
    (e d x s : Bool) → (e ≡ true → s ≡ true) → (d || s) ≡ (x || s) → (d || s) ≡ ((e || x) || s)
seen_before false d x s k h = h
seen_before true d x false k h = absurd (let f : false ≡ true = k refl in cc)
seen_before true true x true k h = refl
seen_before true false x true k h = refl

-- Taking each permission once loses none and adds none.
has-distinct_after :
    (p : Permission) (seen xs : List Permission)
    → (has p (distinct_after seen xs) || has p seen) ≡ (has p xs || has p seen)
unfolding distinct_after
has-distinct_after p seen [] = refl
has-distinct_after p seen (x ∷ xs) = elim (Bool-cases (has x seen)) [
  | inl before ↦ rw before (
      seen_before (eq_permission x p) (has p (distinct_after seen xs)) (has p xs) (has p seen)
        (λ this. subst (λ q. has q seen ≡ true) (eq_of_eq_permission x p this) before)
        (has-distinct_after p seen xs))
  | inr first ↦ rw first (
      taken_once (eq_permission x p) (has p (distinct_after (x ∷ seen) xs)) (has p xs) (has p seen)
        (has-distinct_after p (x ∷ seen) xs))
]

or_false : (b : Bool) → (b || false) ≡ b
or_false true = refl
or_false false = refl

pub has-distinct : (p : Permission) (xs : List Permission) → has p (distinct xs) ≡ has p xs
has-distinct p xs =
    sym (or_false (has p (distinct xs))) ∙ has-distinct_after p [] xs ∙ or_false (has p xs)
