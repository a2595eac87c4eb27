-- ===== src/Projects/Recurrence/Sweep.antt =====
-- `sweep` of packages/modules/projects/application/recurrence.ts, over the tables of engagements and of
-- projects (client-service.repository.ts, project.repository.ts).
pub mod Fresh
pub mod Single
pub mod Round
pub mod Twice
use amc_system.Base.{
  ℕ, suc, Bool, true, false, not, ◌&&◌, Option, none, some, List, [], ◌∷◌, ◌++◌, any, find, filter,
  is_some, if◌then◌else◌,
}
use amc_system.Base.Text.{Text, eq_text}
use amc_system.Kernel.Throws as Throws
use amc_system.Kernel.Throws.{Throws}
use amc_system.Kernel.Duration.{Instant}
use amc_system.Clients.TaxPeriod.{ClientCycle}
use amc_system.Projects.Template.{ServiceTemplate, Recurrence}
use amc_system.Projects.Project.State.{ProjectSnapshot, TemplateParams}
use amc_system.Projects.Project.{Project, from_template}
use amc_system.Projects.Recurrence.{Due, period_for}

-- `ClientService`: an engagement of a client for a service.
pub record ClientService : Type 0 where
  pub id : Text
  pub client_id : Text
  pub service : Text
  pub active_from : Instant
  pub active_to : Option Instant

-- The tables, and how many ids were given out.
pub record Tables : Type 0 where
  pub services : List ClientService
  pub projects : List ProjectSnapshot
  pub issued : ℕ

-- `allActive`
abbrev pub all_active : Text → List ClientService → List ClientService
all_active service rows = filter (λ r. eq_text r.service service && not (is_some r.active_to)) rows

-- The row of an engagement.
abbrev pub row_of : Text → List ClientService → Option ClientService
row_of id rows = find (λ r. eq_text r.id id) rows

abbrev pub same_work : Option ClientService → Option ClientService → Bool
same_work (some a) (some b) = eq_text a.client_id b.client_id && eq_text a.service b.service
same_work _ _ = false

abbrev pub has_key : Text → Option Text → Bool
has_key key none = false
has_key key (some k) = eq_text k key

-- Whether a project is one of an engagement's client and service, for a period.
abbrev pub is_for : List ClientService → Text → Text → ProjectSnapshot → Bool
is_for rows id key p =
    has_key key p.period_key && same_work (row_of p.client_service_id rows) (row_of id rows)

-- `existsForPeriod`
abbrev pub exists_for_period : Tables → Text → Text → Bool
exists_for_period t id key = any (is_for t.services id key) t.projects

-- The row of a project, new or written over.
unfoldable pub put_project : ProjectSnapshot → List ProjectSnapshot → List ProjectSnapshot
put_project p [] = p ∷ []
put_project p (q ∷ qs) =
    let rest = put_project p qs in if eq_text q.id p.id then p ∷ qs else q ∷ rest

pub record CreatedProject : Type 0 where
  pub project_id : Text
  pub client_id : Text
  pub service : Text
  pub period_key : Text
  pub due_at : Option Instant

-- What is the same in every round: the service, its templates, the generator of ids, the clients' cycles
-- and the clock.
pub record Setting : Type 0 where
  pub service : Text
  pub template_for : Text → Option ServiceTemplate
  pub id_at : ℕ → Text
  pub cycles : Text → Option ClientCycle
  pub now : Instant

abbrev pub params_of : Setting → Tables → ClientService → Due → TemplateParams
params_of w t row due = record {
  id = w.id_at t.issued;
  client_id = row.client_id;
  client_service_id = row.id;
  service = w.service;
  template = none;
  period_key = some due.key;
  due_at = some due.due_at;
  now = w.now;
}

abbrev pub made : Setting → ClientService → Due → Project → CreatedProject
made w row due p = record {
  project_id = p.state.id;
  client_id = row.client_id;
  service = w.service;
  period_key = due.key;
  due_at = some due.due_at;
}

abbrev pub save_made :
    Setting → ClientService → Due → Throws Project → Tables → Throws (List CreatedProject) × Tables
save_made w row due (Throws.threw e) t = (Throws.threw e, t)
save_made w row due (Throws.done p) t = (
  Throws.done (made w row due p ∷ []),
  record t { projects = put_project p.state t.projects; issued = suc t.issued },
)

abbrev pub create_for :
    Setting → ClientService → Option Due → Tables → Throws (List CreatedProject) × Tables
create_for w row none t = (Throws.done [], t)
create_for w row (some due) t =
    if exists_for_period t row.id due.key
    then (Throws.done [], t)
    else save_made w row due (from_template w.template_for (params_of w t row due)) t

-- One round of the loop: what it creates, and the tables that it leaves.
unfoldable pub round :
    Setting → Recurrence → ClientService → Tables → Throws (List CreatedProject) × Tables
round w recurrence row t = create_for w row (period_for recurrence (w.cycles row.client_id) w.now) t

abbrev pub and_then :
    List CreatedProject
    → Throws (List CreatedProject) × Tables
    → Throws (List CreatedProject) × Tables
and_then created (Throws.done more, t) = (Throws.done (created ++ more), t)
and_then created (Throws.threw e, t) = (Throws.threw e, t)

-- The loop over the engagements.
unfoldable pub sweep_each :
    Setting → Recurrence → List ClientService → Tables → Throws (List CreatedProject) × Tables
sweep_each w recurrence [] t = (Throws.done [], t)
sweep_each w recurrence (row ∷ rows) t =
    let (r, t') = round w recurrence row t in
    elim r [
      | Throws.threw e ↦ (Throws.threw e, t')
      | Throws.done created ↦ and_then created (sweep_each w recurrence rows t')
    ]

abbrev pub sweep_with :
    Setting → Option ServiceTemplate → Tables → Throws (List CreatedProject) × Tables
sweep_with w none t = (Throws.done [], t)
sweep_with w (some template) t = elim template.recurrence [
  | Recurrence.once ↦ (Throws.done [], t)
  | _ ↦ sweep_each w template.recurrence (all_active w.service t.services) t
]

-- `sweep`
unfoldable pub sweep : Setting → Tables → Throws (List CreatedProject) × Tables
sweep w t = sweep_with w (w.template_for w.service) t
