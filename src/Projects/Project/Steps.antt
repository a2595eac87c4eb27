-- ===== src/Projects/Project/Steps.antt =====
-- The steps of a project (project.ts): what is done stays done.
use mathlib.Core.Option
use amc_system.Base.{
  find-map, find-holds, ℕ, ◌≡◌, refl, ap, sym, subst, ◌∙◌, true, false, Option, none, some, List,
  map, find, ◌==◌, arith, inl, inr, Bool-cases, ==_iff, Option-cases, if◌then◌else◌, is_some,
}
use amc_system.Base.Text.{Text}
use amc_system.Kernel.Duration.{Instant}
use amc_system.Kernel.Aggregate.{run_all, run_all-keeps, err}
use amc_system.Projects.Project.State.{TaskProgress, ProjectState, in_progress, done_already}
use amc_system.Projects.Project.{
  Project, Command, attach, detach, begin, move, set_step, complete, set_due, execute, start,
  move_to, attach_document, detach_document, set_task_due_on, complete_task, set_due_at, is_blocked,
}

-- When a step was done, for the first step of this number.
abbrev done_in : Option TaskProgress → Option Instant
done_in none = none
done_in (some t) = t.done_at

abbrev pub done_at_of : ℕ → List TaskProgress → Option Instant
done_at_of order tasks = done_in (find (λ t. t.order == order) tasks)

-- What keeps the date of every step that is done keeps it for the step of this number.
done_at_of-map :
    (f : TaskProgress → TaskProgress) (order : ℕ) (x : Instant)
    → ((t : TaskProgress) → (f t).order ≡ t.order)
    → (ts : List TaskProgress)
    → ((t : TaskProgress)
        → find (λ t. t.order == order) ts ≡ some t
        → t.done_at ≡ some x
        → (f t).done_at ≡ some x)
    → done_at_of order ts ≡ some x
    → done_at_of order (map f ts) ≡ some x
done_at_of-map f order x same ts keeps h = elim (Option-cases (find (λ t. t.order == order) ts)) [
  | inl none_such ↦ absurd (let e : none ≡ some x = ap done_in (sym none_such) ∙ h in cc)
  | inr (t, e) ↦
      ap done_in (
        find-map f (λ u. u.order == order) (λ u. ap (λ n. n == order) (same u)) ts
        ∙ ap (Option.map f) e)
      ∙ keeps t e (ap done_in (sym e) ∙ h)
]

set_task-done :
    (at : ℕ) (due_on : Option Instant) (now : Instant) (a : Project) (order : ℕ) (x : Instant)
    → done_at_of order a.state.tasks ≡ some x
    → done_at_of order (set_task_due_on at due_on now a).1.state.tasks ≡ some x
unfolding set_task_due_on
set_task-done at due_on now a order x h =
    elim (Option-cases (find (λ t. t.order == at) a.state.tasks)) [
      | inl none_such ↦ rw none_such h
      | inr (t, e) ↦ rw e (
          done_at_of-map (λ t. if t.order == at then record t { due_on = due_on } else t) order x
            (λ t. ground arith) a.state.tasks (λ t e k. ground arith) h)
    ]

-- Where a step waits to be done, no step of its number has a date yet.
complete-keeps :
    (at order : ℕ) (now x : Instant) (ts : List TaskProgress) {first : TaskProgress}
    → find (λ t. t.order == at) ts ≡ some first
    → is_some first.done_at ≡ false
    → (t : TaskProgress) → find (λ t. t.order == order) ts ≡ some t
    → t.done_at ≡ some x
    → (if t.order == at then record t { done_at = some now } else t).done_at ≡ some x
complete-keeps at order now x ts {first} e₀ to_do t e k = elim (Bool-cases (t.order == at)) [
  | inr other ↦ rw other k
  | inl this ↦
      let same : order ≡ at =
        sym ((==_iff t.order order).0 (find-holds _ ts e)) ∙ (==_iff t.order at).0 this in
      let e' : find (λ t. t.order == at) ts ≡ some t =
        subst (λ n. find (λ u. u.order == n) ts ≡ some t) same e in
      let dated : is_some (done_at_of at ts) ≡ true =
        ap (λ o. is_some (done_in o)) e' ∙ ap is_some k in
      let undated : is_some (done_at_of at ts) ≡ false = ap (λ o. is_some (done_in o)) e₀ ∙ to_do in
      absurd (cc)
]

complete-done :
    (at : ℕ) (now : Instant) (a : Project) (order : ℕ) (x : Instant)
    → done_at_of order a.state.tasks ≡ some x
    → done_at_of order (complete_task at now a).1.state.tasks ≡ some x
unfolding complete_task
complete-done at now a order x h = elim (Option-cases (find (λ t. t.order == at) a.state.tasks)) [
  | inl none_such ↦ rw none_such h
  | inr (t, e) ↦ elim (Bool-cases (is_some t.done_at)) [
    | inl already ↦ rw (e, already) h
    | inr to_do ↦
        rw (e, to_do)
          (done_at_of-map (λ t. if t.order == at then record t { done_at = some now } else t) order
            x (λ t. ground arith) a.state.tasks
            (complete-keeps at order now x a.state.tasks e to_do) h)
  ]
]

-- The calls on documents and states leave the steps alone.
attach-tasks :
    (type d : Text) (now : Instant) (a : Project)
    → (attach_document type d now a).1.state.tasks ≡ a.state.tasks
unfolding attach_document
attach-tasks type d now a = ground arith

detach-tasks :
    (type : Text) (now : Instant) (a : Project)
    → (detach_document type now a).1.state.tasks ≡ a.state.tasks
unfolding detach_document
detach-tasks type now a = ground arith

move_to-tasks :
    (next : ProjectState) (now : Instant) (reason : Option Text) (a : Project)
    → (move_to next now reason a).1.state.tasks ≡ a.state.tasks
unfolding move_to
move_to-tasks next now reason a = ground arith

start-tasks :
    (now : Instant) (reason : Option Text) (a : Project)
    → (start now reason a).1.state.tasks ≡ a.state.tasks
unfolding start
start-tasks now reason a = elim (Bool-cases (is_blocked a.state)) [
  | inl missing ↦ rw missing refl
  | inr all_here ↦ rw all_here (move_to-tasks in_progress now reason a)
]

execute-done :
    (c : Command) (a : Project) (order : ℕ) (x : Instant)
    → done_at_of order a.state.tasks ≡ some x
    → done_at_of order (execute c a).1.state.tasks ≡ some x
unfolding execute set_due_at
execute-done (attach type d now) a order x h = ap (done_at_of order) (attach-tasks type d now a) ∙ h
execute-done (detach type now) a order x h = ap (done_at_of order) (detach-tasks type now a) ∙ h
execute-done (begin now reason) a order x h = ap (done_at_of order) (start-tasks now reason a) ∙ h
execute-done (move next now reason) a order x h =
    ap (done_at_of order) (move_to-tasks next now reason a) ∙ h
execute-done (set_step at due_on now) a order x h = set_task-done at due_on now a order x h
execute-done (complete at now) a order x h = complete-done at now a order x h
execute-done (set_due due_at now) a order x h = h

complete_task-again :
    (order : ℕ) (x now : Instant) (a : Project)
    → done_at_of order a.state.tasks ≡ some x
    → complete_task order now a ≡ (err done_already, a)
unfolding complete_task
complete_task-again order x now a h =
    elim (Option-cases (find (λ t. t.order == order) a.state.tasks)) [
      | inl none_such ↦ absurd (let e : none ≡ some x = ap done_in (sym none_such) ∙ h in cc)
      | inr (t, e) ↦
          let dated : t.done_at ≡ some x = ap done_in (sym e) ∙ h in
          let already : is_some t.done_at ≡ true = ap is_some dated in rw (e, already) refl
    ]

-- A step that is done stays done, with the date it was done at, whatever is called on the project
-- afterwards; and every later attempt to complete it is refused and changes nothing.
pub done_for_good :
    (cs : List Command) (a : Project) (order : ℕ) (x : Instant)
    → done_at_of order a.state.tasks ≡ some x
    → let b = run_all execute cs a in
      (done_at_of order b.state.tasks ≡ some x)
      × ((now : Instant) → complete_task order now b ≡ (err done_already, b))
done_for_good cs a order x h =
    let kept : done_at_of order (run_all execute cs a).state.tasks ≡ some x =
      run_all-keeps (λ b. done_at_of order b.state.tasks ≡ some x) execute
        (λ c b. execute-done c b order x) cs a h in
    (kept, λ now. complete_task-again order x now (run_all execute cs a) kept)
