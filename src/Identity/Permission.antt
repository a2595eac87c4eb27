-- ===== src/Identity/Permission.antt =====
-- packages/modules/identity/domain/permission.ts: what each role may do.
pub mod Matrix
pub mod Choices
pub mod Tests
use amc_system.Base.{
  ℕ, Bool, true, false, not, ◌||◌, Option, none, some, List, [], ◌∷◌, ◌++◌, any, filter, find,
  flat_map, is_some, ◌==◌, if◌then◌else◌,
}
use amc_system.Base.Text.{Text, text, eq_text}

-- `PERMISSIONS`
pub data Permission : Type 0 where
  clients_view_all clients_view_assigned clients_edit clients_rates_manage clients_vault_read :
      Permission
  projects_view_all projects_view_assigned projects_edit projects_assign : Permission
  time_record time_edit_any billing_view billing_approve : Permission
  billing_invoice_issue billing_entries_unlink invoices_upload invoices_correct : Permission
  invoices_approve_assigned invoices_approve_all export_excel export_all : Permission
  users_manage audit_read portal_self_view portal_self_upload : Permission

abbrev pub permission_number : Permission → ℕ
permission_number clients_view_all = 0
permission_number clients_view_assigned = 1
permission_number clients_edit = 2
permission_number clients_rates_manage = 3
permission_number clients_vault_read = 4
permission_number projects_view_all = 5
permission_number projects_view_assigned = 6
permission_number projects_edit = 7
permission_number projects_assign = 8
permission_number time_record = 9
permission_number time_edit_any = 10
permission_number billing_view = 11
permission_number billing_approve = 12
permission_number billing_invoice_issue = 13
permission_number billing_entries_unlink = 14
permission_number invoices_upload = 15
permission_number invoices_correct = 16
permission_number invoices_approve_assigned = 17
permission_number invoices_approve_all = 18
permission_number export_excel = 19
permission_number export_all = 20
permission_number users_manage = 21
permission_number audit_read = 22
permission_number portal_self_view = 23
permission_number portal_self_upload = 24

-- `a === b` on permissions.
abbrev pub eq_permission : Permission → Permission → Bool
eq_permission a b = permission_number a == permission_number b

-- The text of a permission.
abbrev pub name_of : Permission → Text
name_of clients_view_all = text "clients.view.all"
name_of clients_view_assigned = text "clients.view.assigned"
name_of clients_edit = text "clients.edit"
name_of clients_rates_manage = text "clients.rates.manage"
name_of clients_vault_read = text "clients.vault.read"
name_of projects_view_all = text "projects.view.all"
name_of projects_view_assigned = text "projects.view.assigned"
name_of projects_edit = text "projects.edit"
name_of projects_assign = text "projects.assign"
name_of time_record = text "time.record"
name_of time_edit_any = text "time.edit.any"
name_of billing_view = text "billing.view"
name_of billing_approve = text "billing.approve"
name_of billing_invoice_issue = text "billing.invoice.issue"
name_of billing_entries_unlink = text "billing.entries.unlink"
name_of invoices_upload = text "invoices.upload"
name_of invoices_correct = text "invoices.correct"
name_of invoices_approve_assigned = text "invoices.approve.assigned"
name_of invoices_approve_all = text "invoices.approve.all"
name_of export_excel = text "export.excel"
name_of export_all = text "export.all"
name_of users_manage = text "users.manage"
name_of audit_read = text "audit.read"
name_of portal_self_view = text "portal.self.view"
name_of portal_self_upload = text "portal.self.upload"

-- `ROLES`
pub data Role : Type 0 where
  manager accountant data_entry client : Role

-- `MATRIX`
abbrev pub default_matrix : Role → List Permission
default_matrix manager =
    clients_view_all ∷ clients_edit ∷ clients_rates_manage ∷ clients_vault_read ∷ projects_view_all
    ∷ projects_edit ∷ projects_assign ∷ time_record ∷ time_edit_any ∷ billing_view ∷ billing_approve
    ∷ billing_invoice_issue ∷ billing_entries_unlink ∷ invoices_upload ∷ invoices_correct
    ∷ invoices_approve_all ∷ export_excel ∷ export_all ∷ users_manage ∷ audit_read ∷ []
default_matrix accountant =
    clients_view_assigned ∷ clients_vault_read ∷ projects_view_assigned ∷ projects_edit
    ∷ time_record ∷ billing_view ∷ invoices_upload ∷ invoices_correct ∷ invoices_approve_assigned
    ∷ export_excel ∷ []
default_matrix data_entry = projects_view_assigned ∷ invoices_upload ∷ invoices_correct ∷ []
default_matrix client = portal_self_view ∷ portal_self_upload ∷ []

-- `EDITABLE_ROLES`
abbrev pub is_editable : Role → Bool
is_editable accountant = true
is_editable data_entry = true
is_editable manager = false
is_editable client = false

-- `GRANTABLE_PERMISSIONS`
abbrev pub grantable : List Permission
grantable =
    clients_view_all ∷ clients_view_assigned ∷ clients_edit ∷ clients_vault_read ∷ projects_view_all
    ∷ projects_edit ∷ projects_assign ∷ time_record ∷ time_edit_any ∷ billing_view ∷ billing_approve
    ∷ billing_invoice_issue ∷ billing_entries_unlink ∷ audit_read ∷ []

-- Whether a permission is in a list.
abbrev pub has : Permission → List Permission → Bool
has p permissions = any (λ q. eq_permission q p) permissions

-- `isGrantable` of a permission.
abbrev pub is_grantable : Permission → Bool
is_grantable p = has p grantable

-- `isGrantable` of a text: the permission that it names.
unfoldable pub granted_by : Text → Option Permission
granted_by value = find (λ q. eq_text (name_of q) value) grantable

abbrev one_or_none : Option Permission → List Permission
one_or_none none = []
one_or_none (some p) = p ∷ []

-- `picked.filter(isGrantable)`
abbrev pub granted : List Text → List Permission
granted picked = flat_map (λ value. one_or_none (granted_by value)) picked

-- `[...new Set(permissions)]`: each one where it first occurs.
unfoldable pub distinct_after : List Permission → List Permission → List Permission
distinct_after seen [] = []
distinct_after seen (p ∷ ps) =
    if has p seen then distinct_after seen ps else p ∷ distinct_after (p ∷ seen) ps

abbrev pub distinct : List Permission → List Permission
distinct permissions = distinct_after [] permissions

-- `effectiveMatrix`
unfoldable pub effective_matrix : (Role → Option (List Text)) → Role → List Permission
effective_matrix chosen role =
    if is_editable role
    then elim (chosen role) [
      | none ↦ default_matrix role
      | some picked ↦
          distinct (filter (λ p. not (is_grantable p)) (default_matrix role) ++ granted picked)
    ]
    else default_matrix role

-- `permissionsFor`
abbrev pub permissions_for : (Role → List Permission) → List Role → List Permission
permissions_for matrix roles = distinct (flat_map matrix roles)

-- `roleHas`
abbrev pub role_has : Role → Permission → Bool
role_has role p = has p (default_matrix role)
