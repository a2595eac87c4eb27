-- ===== src/Projects/Project/Reasons.antt =====
-- Steps back in the course of a project (project.ts), and the reasons they leave behind.
use amc_system.Base.{
  ℕ, ◌≤◌, ◌<◌, ◌≡◌, refl, ap, Bool, true, false, Option, none, some, [], ◌∷◌, ◌++◌, any, find,
  length, ltb, not, ◌&&◌, ◌==◌, arith, inl, inr, ◌⊎◌, Bool-cases, Option-cases, is_some,
}
use amc_system.Base.Text.{Text, eq_text}
use amc_system.Kernel.Duration.{Instant}
use amc_system.Projects.Project.State.{
  ProjectState, awaiting_documents, ready, in_progress, eq_state, eq_of_eq_state, allowed, progress,
  completed, ProjectEvent,
}
use amc_system.Projects.Project.{
  Project, Command, attach, detach, begin, move, set_step, complete, set_due, execute, start,
  move_to, attach_document, detach_document, set_task_due_on, complete_task, set_due_at, is_blocked,
  supplied, has_document, attached_to, going_back, said,
}

-- The event of a step back, with a reason of at least three characters.
abbrev pub IsExplained : Project → Project → Type 0
IsExplained a b =
    (now : Instant) × (reason : Text) × (3 ≤ length reason)
    × (b.pending
        ≡ a.pending
          ++ ProjectEvent.state_changed a.state.id now a.state.client_id a.state.service
              a.state.state b.state.state (some reason)
            ∷ [])

-- A project that was ready goes back to awaiting documents because one was taken off it.
abbrev pub IsTakenBack : Command → Project → Project → Type 0
IsTakenBack c a b =
    (type : Text) × (now : Instant) × (c ≡ detach type now)
    × (a.state.state ≡ ready)
    × (b.state.state ≡ awaiting_documents)
    × (is_blocked b.state ≡ true)

abbrev GoesBack : Project → Project → Type 0
GoesBack a b = progress b.state.state < progress a.state.state

move_to-IsExplained :
    (next : ProjectState) (now : Instant) (reason : Option Text) (a : Project)
    → GoesBack a (move_to next now reason a).1
    → IsExplained a (move_to next now reason a).1
unfolding move_to
move_to-IsExplained next now reason a =
    elim (Bool-cases (any (λ t. eq_state t next) (allowed a.state.state))) [
      | inr cannot ↦ rw cannot (λ h. absurd (omega arith))
      | inl may ↦ elim (Bool-cases (eq_state next in_progress && is_blocked a.state)) [
        | inl missing ↦ rw (may, missing) (λ h. absurd (omega arith))
        | inr all_here ↦ elim (Bool-cases (going_back a.state.state next)) [
          | inr forward ↦ rw (may, all_here, forward) (λ h. absurd (ground arith))
          | inl back ↦ elim (Bool-cases (ltb (length (said reason)) 3)) [
            | inl silent ↦ rw (may, all_here, back, silent) (λ h. absurd (omega arith))
            | inr told ↦
                rw (may, all_here, back, told) (λ h. (now, said reason, ground arith, refl))
          ]
        ]
      ]
    ]

start-IsExplained :
    (now : Instant) (reason : Option Text) (a : Project)
    → GoesBack a (start now reason a).1
    → IsExplained a (start now reason a).1
unfolding start
start-IsExplained now reason a = elim (Bool-cases (is_blocked a.state)) [
  | inl missing ↦ rw missing (λ h. absurd (omega arith))
  | inr all_here ↦ rw all_here (move_to-IsExplained in_progress now reason a)
]

both : (a b : Bool) → (a && b) ≡ true → (a ≡ true) × (b ≡ true)
both true b h = (refl, h)
both false b h = cc

attach-forward :
    (type d : Text) (now : Instant) (a : Project)
    → progress a.state.state ≤ progress (attach_document type d now a).1.state.state
unfolding attach_document
attach-forward type d now a =
    elim (Option-cases (find (λ r. eq_text r.type type) a.state.requirements)) [
      | inl none_such ↦ rw none_such (omega arith)
      | inr (r, e) ↦ elim (Bool-cases (has_document r.document_id d)) [
        | inl already ↦ rw (e, already) (omega arith)
        | inr another ↦
            let t = record a.state { requirements = supplied type (some d) a.state.requirements } in
            elim (Bool-cases (eq_state a.state.state awaiting_documents && not (is_blocked t))) [
              | inl all_here ↦
                  let from =
                    eq_of_eq_state a.state.state awaiting_documents (both _ _ all_here).0 in
                  rw (e, another, all_here) (rw from (omega arith))
              | inr not_yet ↦ rw (e, another, not_yet) (omega arith)
            ]
      ]
    ]

detach-IsTakenBack :
    (type : Text) (now : Instant) (a : Project)
    → GoesBack a (detach_document type now a).1
    → IsTakenBack (detach type now) a (detach_document type now a).1
unfolding detach_document
detach-IsTakenBack type now a =
    elim (Option-cases (attached_to (find (λ r. eq_text r.type type) a.state.requirements))) [
      | inl none_such ↦ rw none_such (λ h. absurd (omega arith))
      | inr (d, e) ↦ elim (Bool-cases (eq_state a.state.state completed)) [
        | inl over ↦ rw (e, over) (λ h. absurd (omega arith))
        | inr going_on ↦
            let t = record a.state { requirements = supplied type none a.state.requirements } in
            elim (Bool-cases (is_blocked t && eq_state a.state.state ready)) [
              | inr fine ↦ rw (e, going_on, fine) (λ h. absurd (omega arith))
              | inl missing ↦
                  let (blocked, from) = both _ _ missing in
                  rw (e, going_on, missing)
                    (λ h. (type, now, refl, eq_of_eq_state a.state.state ready from, refl, blocked))
            ]
      ]
    ]

step-level :
    (c : Command) (a : Project)
    → (execute c a).1.state.state ≡ a.state.state
    → GoesBack a (execute c a).1
    → IsExplained a (execute c a).1 ⊎ IsTakenBack c a (execute c a).1
step-level c a e h = absurd (let e' = ap progress e in omega arith)

set_task-state :
    (order : ℕ) (due_on : Option Instant) (now : Instant) (a : Project)
    → (set_task_due_on order due_on now a).1.state.state ≡ a.state.state
unfolding set_task_due_on
set_task-state order due_on now a =
    elim (Option-cases (find (λ t. t.order == order) a.state.tasks)) [
      | inl none_such ↦ rw none_such refl
      | inr (t, e) ↦ rw e refl
    ]

complete-state :
    (order : ℕ) (now : Instant) (a : Project)
    → (complete_task order now a).1.state.state ≡ a.state.state
unfolding complete_task
complete-state order now a = elim (Option-cases (find (λ t. t.order == order) a.state.tasks)) [
  | inl none_such ↦ rw none_such refl
  | inr (t, e) ↦ elim (Bool-cases (is_some t.done_at)) [
    | inl already ↦ rw (e, already) refl
    | inr to_do ↦ rw (e, to_do) refl
  ]
]

-- A call that takes a project a step back leaves behind, as its only event, the change of state with a
-- reason of at least three characters; unless it takes off a document without which a project that was
-- ready awaits documents.
pub step_back-IsExplained :
    (c : Command) (a : Project)
    → progress (execute c a).1.state.state < progress a.state.state
    → IsExplained a (execute c a).1 ⊎ IsTakenBack c a (execute c a).1
unfolding execute set_due_at
step_back-IsExplained (attach type d now) a h = absurd (omega (arith, attach-forward type d now a))
step_back-IsExplained (detach type now) a h = inr (detach-IsTakenBack type now a h)
step_back-IsExplained (begin now reason) a h = inl (start-IsExplained now reason a h)
step_back-IsExplained (move next now reason) a h = inl (move_to-IsExplained next now reason a h)
step_back-IsExplained (set_step order due_on now) a h =
    step-level (set_step order due_on now) a (set_task-state order due_on now a) h
step_back-IsExplained (complete order now) a h =
    step-level (complete order now) a (complete-state order now a) h
step_back-IsExplained (set_due due_at now) a h = absurd (omega arith)
