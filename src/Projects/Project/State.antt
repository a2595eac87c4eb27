-- ===== src/Projects/Project/State.antt =====
-- packages/modules/projects/domain/project.ts: the data of a project, and what may follow what.
use amc_system.Base.{
  ℕ, ◌≡◌, refl, sym, ap, ◌∙◌, Bool, true, Option, List, [], ◌∷◌, ◌==◌, ==_iff, if◌then◌else◌,
}
use amc_system.Base.Int.{ℤ}
use amc_system.Base.Text.{Text}
use amc_system.Kernel.Duration.{Instant}
use amc_system.Projects.Template.{ServiceTemplate}

pub data ProjectState : Type 0 where
  awaiting_documents ready in_progress waiting_for_client waiting_for_authority : ProjectState
  completed cancelled : ProjectState

abbrev state_number : ProjectState → ℕ
state_number awaiting_documents = 0
state_number ready = 1
state_number in_progress = 2
state_number waiting_for_client = 3
state_number waiting_for_authority = 4
state_number completed = 5
state_number cancelled = 6

-- `a === b` on states.
abbrev pub eq_state : ProjectState → ProjectState → Bool
eq_state a b = state_number a == state_number b

abbrev numbered : ℕ → ProjectState
numbered n =
    if n == 0
    then awaiting_documents
    else if n == 1
    then ready
    else if n == 2
    then in_progress
    else if n == 3
    then waiting_for_client
    else if n == 4
    then waiting_for_authority
    else if n == 5
    then completed
    else cancelled

numbered-state_number : (a : ProjectState) → numbered (state_number a) ≡ a
numbered-state_number awaiting_documents = refl
numbered-state_number ready = refl
numbered-state_number in_progress = refl
numbered-state_number waiting_for_client = refl
numbered-state_number waiting_for_authority = refl
numbered-state_number completed = refl
numbered-state_number cancelled = refl

pub eq_of_eq_state : (a b : ProjectState) → eq_state a b ≡ true → a ≡ b
eq_of_eq_state a b h =
    sym (numbered-state_number a)
    ∙ ap numbered ((==_iff (state_number a) (state_number b)).0 h)
    ∙ numbered-state_number b

-- `PROGRESS`
abbrev pub progress : ProjectState → ℕ
progress awaiting_documents = 0
progress ready = 1
progress in_progress = 2
progress waiting_for_client = 2
progress waiting_for_authority = 2
progress completed = 3
progress cancelled = 3

-- `ALLOWED`
abbrev pub allowed : ProjectState → List ProjectState
allowed awaiting_documents = ready ∷ cancelled ∷ []
allowed ready = in_progress ∷ awaiting_documents ∷ cancelled ∷ []
allowed in_progress =
    waiting_for_client ∷ waiting_for_authority ∷ completed ∷ cancelled ∷ ready ∷ awaiting_documents
    ∷ []
allowed waiting_for_client = in_progress ∷ cancelled ∷ awaiting_documents ∷ ready ∷ []
allowed waiting_for_authority = in_progress ∷ completed ∷ cancelled ∷ ready ∷ []
allowed completed = in_progress ∷ []
allowed cancelled = ready ∷ []

pub record ProjectRequirement : Type 0 where
  pub type : Text
  pub mandatory : Bool
  pub document_id : Option Text

pub record TaskProgress : Type 0 where
  pub order : ℕ
  pub due_on : Option Instant
  pub done_at : Option Instant

-- `ProjectState_`
pub record ProjectSnapshot : Type 0 where
  pub id : Text
  pub client_id : Text
  pub client_service_id : Text
  pub service : Text
  pub period_key : Option Text
  pub state : ProjectState
  pub due_at : Option Instant
  pub requirements : List ProjectRequirement
  pub tasks : List TaskProgress
  pub started_at : Option Instant
  pub completed_at : Option Instant
  pub created_at : Instant

-- The argument of `Project.fromTemplate`.
pub record TemplateParams : Type 0 where
  pub id : Text
  pub client_id : Text
  pub client_service_id : Text
  pub service : Text
  pub template : Option ServiceTemplate
  pub period_key : Option Text
  pub due_at : Option Instant
  pub now : Instant

-- One constructor for each `new Conflict(…)`.
pub data ProjectConflict : Type 0 where
  not_asked_for none_attached keeps_documents documents_missing cannot_go say_why : ProjectConflict
  no_such_step done_already : ProjectConflict

-- The domain events, with the aggregate's id, the instant and the payload. A step's date is a day.
pub data ProjectEvent : Type 0 where
  created : Text → Instant → Text → Text → Option Text → Option Instant → ProjectEvent
  document_attached : Text → Instant → Text → Text → Text → ProjectEvent
  document_detached : Text → Instant → Text → Text → ProjectEvent
  due_changed : Text → Instant → ℕ → Option ℤ → ProjectEvent
  task_completed : Text → Instant → ℕ → ℕ → ProjectEvent
  due_date_set : Text → Instant → Instant → ProjectEvent
  state_changed :
      Text → Instant → Text → Text → ProjectState → ProjectState → Option Text → ProjectEvent
