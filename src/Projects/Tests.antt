-- ===== src/Projects/Tests.antt =====
-- Projects at concrete arguments.
use amc_system.Base.{◌≡◌, ◌⊎◌, refl, true, false, none, some, List, [], ◌∷◌, arith}
use amc_system.Base.Int.{pos}
use amc_system.Base.Text.{text, eq_text, trim, trim_start, is_space}
use amc_system.Kernel.Aggregate.{err, run_all}
use amc_system.Projects.Template.{ServiceTemplate, Recurrence, DeadlineRule}
use amc_system.Projects.Project.State.{
  ready, in_progress, completed, TemplateParams, documents_missing, done_already,
}
use amc_system.Projects.Project.{
  Project, Command, attach, detach, begin, move, complete, execute, project_of, from_template,
  start, move_to, missing_documents, is_blocked, attach_document, detach_document, complete_task,
}
use amc_system.Projects.Project.Lifecycle.{◌⇒◌}
use amc_system.Projects.Project.Course.{
  IsConsistent, IsContinued, project_stays-IsConsistent, work_starts_unblocked,
}
use amc_system.Projects.Project.Reasons.{IsExplained, IsTakenBack, step_back-IsExplained}
use amc_system.Projects.Project.Steps.{done_at_of, done_for_good}

-- An audit: two documents, of which one must be there, and two steps.
abbrev audit : ServiceTemplate
audit = record {
  code = text "audit";
  name_en = text "Audit";
  name_ar = [];
  recurrence = Recurrence.per_financial_year;
  deadline = DeadlineRule.manual;
  tasks =
      record { order = 1; name_en = text "Agree the scope"; name_ar = [] }
      ∷ record { order = 2; name_en = text "Issue the report"; name_ar = [] }
      ∷ [];
  required_documents =
      record { type = text "trade_licence"; mandatory = true }
      ∷ record { type = text "bank_letter"; mandatory = false }
      ∷ [];
}

abbrev params : TemplateParams
params = record {
  id = text "p1";
  client_id = text "c1";
  client_service_id = text "s1";
  service = text "audit";
  template = some audit;
  period_key = none;
  due_at = none;
  now = pos 5;
}

abbrev first : Project
first = project_of params audit

abbrev with_licence : Project
with_licence = (execute (attach (text "trade_licence") (text "d1") (pos 6)) first).1

abbrev under_way : Project
under_way = (execute (begin (pos 7) none) with_licence).1

-- The last document that must be there makes the project ready.
made_ready : with_licence.state.state ≡ ready
unfolding execute attach_document eq_text
made_ready = refl

-- Work does not start without it.
blocked_start : (start (pos 6) none first).0 ≡ err documents_missing
unfolding start
blocked_start = refl

-- A project that still misses it can be moved to ready all the same.
ready_while_blocked :
    let a = (execute (move ready (pos 6) none) first).1 in
    (a.state.state ≡ ready) × (missing_documents a.state ≡ text "trade_licence" ∷ [])
unfolding execute move_to
ready_while_blocked = (refl, refl)

-- Taking a document off leaves work that has begun in progress.
missing_in_progress :
    let a = (execute (detach (text "trade_licence") (pos 8)) under_way).1 in
    (a.state.state ≡ in_progress) × (is_blocked a.state ≡ true)
unfolding execute attach_document start move_to detach_document eq_text
missing_in_progress = (refl, refl)

abbrev some_calls : List Command
some_calls =
    attach (text "trade_licence") (text "d1") (pos 6)
    ∷ begin (pos 7) none
    ∷ move completed (pos 9) none
    ∷ []

project_stays-IsConsistent_example :
    let b = run_all execute some_calls first in
    let c = run_all execute (move in_progress (pos 10) (some (text "mistake")) ∷ []) b in
    IsConsistent c.state × IsContinued first.state c.state × IsContinued b.state c.state
unfolding from_template
project_stays-IsConsistent_example =
    project_stays-IsConsistent (λ _. none) params some_calls
      (move in_progress (pos 10) (some (text "mistake")) ∷ []) refl

work_starts_unblocked_example :
    (missing_documents under_way.state ≡ []) × (with_licence.state.state ⇒ in_progress)
unfolding execute attach_document start move_to eq_text
work_starts_unblocked_example = work_starts_unblocked (begin (pos 7) none) with_licence refl refl

abbrev back : Command
back = move ready (pos 9) (some (text "too early"))

step_back-IsExplained_example :
    IsExplained under_way (execute back under_way).1
    ⊎ IsTakenBack back under_way (execute back under_way).1
unfolding execute attach_document start move_to eq_text trim trim_start is_space
step_back-IsExplained_example = step_back-IsExplained back under_way (omega arith)

abbrev scoped : Project
scoped = (execute (complete 1 (pos 8)) first).1

done_for_good_example :
    let b = run_all execute some_calls scoped in
    (done_at_of 1 b.state.tasks ≡ some (pos 8))
    × ((now : _) → complete_task 1 now b ≡ (err done_already, b))
unfolding execute complete_task
done_for_good_example = done_for_good some_calls scoped 1 (pos 8) refl
