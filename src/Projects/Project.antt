-- ===== src/Projects/Project.antt =====
-- packages/modules/projects/domain/project.ts: a piece of work for a client, from its template to its
-- end.
pub mod State
pub mod Lifecycle
pub mod Course
pub mod Steps
pub mod Reasons
use amc_system.Base.{
  ℕ, Bool, true, false, not, ◌&&◌, Option, none, some, List, [], ◌∷◌, any, filter, find, map,
  length, is_some, ltb, ◌==◌, get_or, if◌then◌else◌,
}
use amc_system.Base.Int.{ltb_ℤ}
use amc_system.Base.Text.{Text, trim, eq_text, is_empty}
use amc_system.Base.Date.{day_of}
use amc_system.Kernel.Throws as Throws
use amc_system.Kernel.Throws.{Throws, no_template}
use amc_system.Kernel.Aggregate.{
  Aggregate, Method, ok, err, threw, ◌>>=◌, ◌>>◌, pure, refuse_if, this_state, assign, emit,
  found_or,
}
use amc_system.Kernel.Duration.{Instant}
use amc_system.Projects.Template.{ServiceTemplate}
use amc_system.Projects.Project.State.{
  ProjectState, awaiting_documents, ready, in_progress, completed, cancelled, eq_state, progress,
  allowed, ProjectRequirement, TaskProgress, ProjectSnapshot, TemplateParams, ProjectConflict,
  ProjectEvent,
}

abbrev pub Project : Type 0
Project = Aggregate ProjectSnapshot ProjectEvent

abbrev pub ProjectMethod : Type 0 → Type 0
ProjectMethod = Method ProjectSnapshot ProjectEvent ProjectConflict

abbrev pub unmet : ServiceTemplate → List ProjectRequirement
unmet template =
    map
      (λ required. record {
        type = required.type;
        mandatory = required.mandatory;
        document_id = none;
      })
      template.required_documents

abbrev pub project_of : TemplateParams → ServiceTemplate → Project
project_of p template = record {
  state = record {
    id = p.id;
    client_id = p.client_id;
    client_service_id = p.client_service_id;
    service = p.service;
    period_key = p.period_key;
    state = if any (λ r. r.mandatory) (unmet template) then awaiting_documents else ready;
    due_at = p.due_at;
    requirements = unmet template;
    tasks = map (λ t. record { order = t.order; due_on = none; done_at = none }) template.tasks;
    started_at = none;
    completed_at = none;
    created_at = p.now;
  };
  pending = ProjectEvent.created p.id p.now p.client_id p.service p.period_key p.due_at ∷ [];
}

abbrev pub of_template : TemplateParams → Option ServiceTemplate → Throws Project
of_template p none = Throws.threw no_template
of_template p (some template) = Throws.done (project_of p template)

-- `a ?? b` on templates.
abbrev pub given_or : Option ServiceTemplate → Option ServiceTemplate → Option ServiceTemplate
given_or (some template) _ = some template
given_or none built_in = built_in

-- `fromTemplate`
unfoldable pub from_template : (Text → Option ServiceTemplate) → TemplateParams → Throws Project
from_template template_for p = of_template p (given_or p.template (template_for p.service))

-- `missingDocuments`
abbrev pub missing_documents : ProjectSnapshot → List Text
missing_documents s =
    map (λ r. r.type) (filter (λ r. r.mandatory && not (is_some r.document_id)) s.requirements)

-- `isBlocked`
abbrev pub is_blocked : ProjectSnapshot → Bool
is_blocked s = ltb 0 (length (missing_documents s))

-- The state that `transitionTo` assigns.
abbrev pub at_state : ProjectState → Instant → ProjectSnapshot → ProjectSnapshot
at_state next now s = record s {
  state = next;
  started_at =
      if eq_state next in_progress && not (is_some s.started_at) then some now else s.started_at;
  completed_at =
      if eq_state next completed
      then some now
      else if eq_state s.state completed
      then none
      else s.completed_at;
}

-- `transitionTo`
abbrev pub transition_to : ProjectState → Instant → Option Text → ProjectMethod (Unit {0})
transition_to next now reason = do
  s ← this_state
  assign (at_state next now s)
  emit (ProjectEvent.state_changed s.id now s.client_id s.service s.state next reason)

abbrev pub when : Bool → ProjectMethod (Unit {0}) → ProjectMethod (Unit {0})
when true m = m
when false m = pure tt

-- The requirements, with the document of one type exchanged.
abbrev pub supplied : Text → Option Text → List ProjectRequirement → List ProjectRequirement
supplied type document_id rs =
    map (λ r. if eq_text r.type type then record r { document_id = document_id } else r) rs

abbrev pub has_document : Option Text → Text → Bool
has_document none document_id = false
has_document (some d) document_id = eq_text d document_id

-- The rest of `attachDocument`, where the document is another one.
abbrev attach_new : Text → Text → Instant → ProjectMethod (Unit {0})
attach_new type document_id now = do
  s ← this_state
  assign (record s { requirements = supplied type (some document_id) s.requirements })
  emit (ProjectEvent.document_attached s.id now s.client_id document_id type)
  s' ← this_state
  when (eq_state s'.state awaiting_documents && not (is_blocked s')) (transition_to ready now none)

-- `attachDocument`
unfoldable pub attach_document : Text → Text → Instant → ProjectMethod (Unit {0})
attach_document type document_id now = do
  s ← this_state
  r ← found_or (find (λ r. eq_text r.type type) s.requirements) ProjectConflict.not_asked_for
  when (not (has_document r.document_id document_id)) (attach_new type document_id now)

-- `requirement?.documentId`, where the empty text counts as none.
abbrev attached_to : Option ProjectRequirement → Option Text
attached_to none = none
attached_to (some r) = elim r.document_id [
  | none ↦ none
  | some d ↦ if is_empty d then none else some d
]

-- `detachDocument`
unfoldable pub detach_document : Text → Instant → ProjectMethod (Unit {0})
detach_document type now = do
  s ← this_state
  d ←
      found_or (attached_to (find (λ r. eq_text r.type type) s.requirements))
        ProjectConflict.none_attached
  refuse_if (eq_state s.state completed) ProjectConflict.keeps_documents
  assign (record s { requirements = supplied type none s.requirements })
  emit (ProjectEvent.document_detached s.id now type d)
  s' ← this_state
  when (is_blocked s' && eq_state s'.state ready) (transition_to awaiting_documents now none)

-- `goingBack`
abbrev pub going_back : ProjectState → ProjectState → Bool
going_back from next = ltb (progress next) (progress from)

-- `reason?.trim() ?? ''`
abbrev pub said : Option Text → Text
said none = []
said (some reason) = trim reason

-- `moveTo`
unfoldable pub move_to : ProjectState → Instant → Option Text → ProjectMethod (Unit {0})
move_to next now reason = do
  s ← this_state
  refuse_if (not (any (λ t. eq_state t next) (allowed s.state))) ProjectConflict.cannot_go
  refuse_if (eq_state next in_progress && is_blocked s) ProjectConflict.documents_missing
  refuse_if (going_back s.state next && ltb (length (said reason)) 3) ProjectConflict.say_why
  transition_to next now (if going_back s.state next then some (said reason) else none)

-- `start`
unfoldable pub start : Instant → Option Text → ProjectMethod (Unit {0})
start now reason = do
  s ← this_state
  refuse_if (is_blocked s) ProjectConflict.documents_missing
  move_to in_progress now reason

-- `setTaskDueOn`
unfoldable pub set_task_due_on : ℕ → Option Instant → Instant → ProjectMethod (Unit {0})
set_task_due_on order due_on now = do
  s ← this_state
  t ← found_or (find (λ t. t.order == order) s.tasks) ProjectConflict.no_such_step
  assign (record s {
    tasks = map (λ t. if t.order == order then record t { due_on = due_on } else t) s.tasks;
  })
  emit (
      ProjectEvent.due_changed s.id now order
        (elim due_on [ none ↦ none | some d ↦ some (day_of d) ]))

-- `tasksRemaining`
abbrev pub tasks_remaining : List TaskProgress → ℕ
tasks_remaining tasks = length (filter (λ t. not (is_some t.done_at)) tasks)

abbrev pub finished : ℕ → Instant → List TaskProgress → List TaskProgress
finished order now tasks =
    map (λ t. if t.order == order then record t { done_at = some now } else t) tasks

-- `completeTask`
unfoldable pub complete_task : ℕ → Instant → ProjectMethod (Unit {0})
complete_task order now = do
  s ← this_state
  t ← found_or (find (λ t. t.order == order) s.tasks) ProjectConflict.no_such_step
  refuse_if (is_some t.done_at) ProjectConflict.done_already
  assign (record s { tasks = finished order now s.tasks })
  emit (ProjectEvent.task_completed s.id now order (tasks_remaining (finished order now s.tasks)))

-- `isOverdueAt`
unfoldable pub is_overdue_at : ProjectSnapshot → Instant → Bool
is_overdue_at s now = elim s.due_at [
  | none ↦ false
  | some due ↦
      if eq_state s.state completed
      then false
      else if eq_state s.state cancelled
      then false
      else ltb_ℤ due now
]

-- `setDueAt`
unfoldable pub set_due_at : Instant → Instant → ProjectMethod (Unit {0})
set_due_at due_at now = do
  s ← this_state
  assign (record s { due_at = some due_at })
  emit (ProjectEvent.due_date_set s.id now due_at)

-- The calls that change a project.
pub data Command : Type 0 where
  attach : Text → Text → Instant → Command
  detach : Text → Instant → Command
  begin : Instant → Option Text → Command
  move : ProjectState → Instant → Option Text → Command
  set_step : ℕ → Option Instant → Instant → Command
  complete : ℕ → Instant → Command
  set_due : Instant → Instant → Command

unfoldable pub execute : Command → ProjectMethod (Unit {0})
execute (attach type document_id now) = attach_document type document_id now
execute (detach type now) = detach_document type now
execute (begin now reason) = start now reason
execute (move next now reason) = move_to next now reason
execute (set_step order due_on now) = set_task_due_on order due_on now
execute (complete order now) = complete_task order now
execute (set_due due_at now) = set_due_at due_at now
