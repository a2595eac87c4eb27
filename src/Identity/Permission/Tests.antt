-- ===== src/Identity/Permission/Tests.antt =====
-- The permissions of the roles, at concrete choices of the firm.
use amc_system.Base.{◌≡◌, refl, true, false, Option, none, some, List, [], ◌∷◌, any}
use amc_system.Base.Text.{Text, text, eq_text}
use amc_system.Identity.Permission.{
  Role, manager, accountant, data_entry, client, audit_read, users_manage, name_of, default_matrix,
  is_editable, is_grantable, has, effective_matrix, permissions_for, granted_by, distinct_after,
}
use amc_system.Identity.Permission.Choices.{effective_matrix_lem}

-- The firm lets accountants read the audit, and ticks a permission that nobody can be granted.
abbrev choice : Role → Option (List Text)
choice accountant = some (text "audit.read" ∷ text "users.manage" ∷ [])
choice manager = some []
choice data_entry = none
choice client = none

effective_matrix_lem_example :
    (is_editable accountant ≡ false
      → effective_matrix choice accountant ≡ default_matrix accountant)
    × (is_grantable audit_read ≡ false
        → has audit_read (effective_matrix choice accountant)
          ≡ has audit_read (default_matrix accountant))
    × ((picked : List Text)
        → is_editable accountant ≡ true
        → choice accountant ≡ some picked
        → is_grantable audit_read ≡ true
        → has audit_read (effective_matrix choice accountant)
          ≡ any (λ v. eq_text v (name_of audit_read)) picked)
effective_matrix_lem_example = effective_matrix_lem choice accountant audit_read

-- The audit is granted, the management of people is not.
granted_then :
    let permissions = permissions_for (effective_matrix choice) (accountant ∷ data_entry ∷ []) in
    (has audit_read permissions ≡ true) × (has users_manage permissions ≡ false)
unfolding effective_matrix granted_by distinct_after eq_text
granted_then = (refl, refl)
