-- ===== src/Projects/Project/Lifecycle.antt =====
-- What a call does to the state of a project (project.ts), and what holds of it after any calls.
use amc_system.Base.{
  ℕ, ◌≡◌, refl, sym, subst, ap₂, Bool, true, false, Option, none, some, List, [], ◌∷◌, map, any,
  find, not, ◌&&◌, ltb, length, ◌==◌, arith, inl, inr, Bool-cases, Option-cases, if◌then◌else◌,
  is_some,
}
use amc_system.Base.Text.{Text, eq_text}
use amc_system.Kernel.Duration.{Instant}
use amc_system.Projects.Project.State.{
  ProjectState, awaiting_documents, ready, in_progress, waiting_for_client, waiting_for_authority,
  completed, cancelled, eq_state, eq_of_eq_state, allowed, ProjectSnapshot, ProjectRequirement,
  TaskProgress,
}
use amc_system.Projects.Project.{
  Project, Command, attach, detach, begin, move, set_step, complete, set_due, execute,
  attach_document, detach_document, start, move_to, set_task_due_on, complete_task, set_due_at,
  at_state, is_blocked, supplied, has_document, attached_to, going_back, said,
}

-- The work's course: what the table of project.ts says, read as a diagram.
infix 45 ◌⇒◌
pub data ◌⇒◌ : ProjectState → ProjectState → Type 0 where
  documents_in : awaiting_documents ⇒ ready
  documents_out : ready ⇒ awaiting_documents
  begun : ready ⇒ in_progress
  asked_client : in_progress ⇒ waiting_for_client
  asked_authority : in_progress ⇒ waiting_for_authority
  client_replied : waiting_for_client ⇒ in_progress
  authority_replied : waiting_for_authority ⇒ in_progress
  done : in_progress ⇒ completed
  done_by_authority : waiting_for_authority ⇒ completed
  reopened : completed ⇒ in_progress
  revived : cancelled ⇒ ready
  back_to_ready : in_progress ⇒ ready
  back_to_documents : in_progress ⇒ awaiting_documents
  client_back_to_ready : waiting_for_client ⇒ ready
  client_back_to_documents : waiting_for_client ⇒ awaiting_documents
  authority_back_to_ready : waiting_for_authority ⇒ ready
  dropped :
      (s : ProjectState)
      → eq_state s completed ≡ false
      → eq_state s cancelled ≡ false
      → s ⇒ cancelled

way_on : (from to : ProjectState) → any (λ next. eq_state next to) (allowed from) ≡ true → from ⇒ to
way_on awaiting_documents ready h = documents_in
way_on awaiting_documents cancelled h = dropped awaiting_documents refl refl
way_on awaiting_documents awaiting_documents h = cc
way_on awaiting_documents in_progress h = cc
way_on awaiting_documents waiting_for_client h = cc
way_on awaiting_documents waiting_for_authority h = cc
way_on awaiting_documents completed h = cc
way_on ready in_progress h = begun
way_on ready awaiting_documents h = documents_out
way_on ready cancelled h = dropped ready refl refl
way_on ready ready h = cc
way_on ready waiting_for_client h = cc
way_on ready waiting_for_authority h = cc
way_on ready completed h = cc
way_on in_progress waiting_for_client h = asked_client
way_on in_progress waiting_for_authority h = asked_authority
way_on in_progress completed h = done
way_on in_progress cancelled h = dropped in_progress refl refl
way_on in_progress ready h = back_to_ready
way_on in_progress awaiting_documents h = back_to_documents
way_on in_progress in_progress h = cc
way_on waiting_for_client in_progress h = client_replied
way_on waiting_for_client cancelled h = dropped waiting_for_client refl refl
way_on waiting_for_client awaiting_documents h = client_back_to_documents
way_on waiting_for_client ready h = client_back_to_ready
way_on waiting_for_client waiting_for_client h = cc
way_on waiting_for_client waiting_for_authority h = cc
way_on waiting_for_client completed h = cc
way_on waiting_for_authority in_progress h = authority_replied
way_on waiting_for_authority completed h = done_by_authority
way_on waiting_for_authority cancelled h = dropped waiting_for_authority refl refl
way_on waiting_for_authority ready h = authority_back_to_ready
way_on waiting_for_authority awaiting_documents h = cc
way_on waiting_for_authority waiting_for_client h = cc
way_on waiting_for_authority waiting_for_authority h = cc
way_on completed in_progress h = reopened
way_on completed awaiting_documents h = cc
way_on completed ready h = cc
way_on completed waiting_for_client h = cc
way_on completed waiting_for_authority h = cc
way_on completed completed h = cc
way_on completed cancelled h = cc
way_on cancelled ready h = revived
way_on cancelled awaiting_documents h = cc
way_on cancelled in_progress h = cc
way_on cancelled waiting_for_client h = cc
way_on cancelled waiting_for_authority h = cc
way_on cancelled completed h = cc
way_on cancelled cancelled h = cc

-- The documents that the work asks for, and its steps.
abbrev pub types_of : ProjectSnapshot → List Text
types_of s = map (λ r. r.type) s.requirements

abbrev pub orders_of : ProjectSnapshot → List ℕ
orders_of s = map (λ t. t.order) s.tasks

-- The same work, as far as the project's course goes.
pub record IsLevel (s t : ProjectSnapshot) : Type 0 where
  pub state : t.state ≡ s.state
  pub started : t.started_at ≡ s.started_at
  pub completed : t.completed_at ≡ s.completed_at
  pub types : types_of t ≡ types_of s
  pub orders : orders_of t ≡ orders_of s

-- What a call does: it leaves the project where it was, or takes one way of the diagram, into the work
-- itself only where no document is missing.
pub data Effect (s t : ProjectSnapshot) : Type 0 where
  stays : IsLevel s t → Effect s t
  goes :
      (next : ProjectState) (now : Instant)
      → s.state ⇒ next
      → (next ≡ in_progress → is_blocked t ≡ false)
      → IsLevel (at_state next now s) t
      → Effect s t

level : (s : ProjectSnapshot) → IsLevel s s
level s = record { state = refl; started = refl; completed = refl; types = refl; orders = refl }

types-supplied :
    (type : Text) (d : Option Text) (rs : List ProjectRequirement)
    → map (λ r. r.type) (supplied type d rs) ≡ map (λ r. r.type) rs
types-supplied type d [] = refl
types-supplied type d (r ∷ rs) = elim (Bool-cases (eq_text r.type type)) [
  | inl same ↦ rw (same, types-supplied type d rs) refl
  | inr other ↦ rw (other, types-supplied type d rs) refl
]

exchanged-IsLevel :
    (type : Text) (d : Option Text) (s : ProjectSnapshot)
    → IsLevel s (record s { requirements = supplied type d s.requirements })
exchanged-IsLevel type d s = record {
  state = refl;
  started = refl;
  completed = refl;
  types = types-supplied type d s.requirements;
  orders = refl;
}

-- The same of a project that moves on at once, other than into the work.
moved-IsLevel :
    (type : Text) (d : Option Text) (next : ProjectState) (now : Instant) (s : ProjectSnapshot)
    → eq_state next in_progress ≡ false
    → IsLevel
        (at_state next now s)
        (at_state next now (record s { requirements = supplied type d s.requirements }))
moved-IsLevel type d next now s h = record {
  state = refl;
  started = refl;
  completed = refl;
  types = types-supplied type d s.requirements;
  orders = refl;
}

unblocked :
    (next : ProjectState) (blocked : Bool)
    → (eq_state next in_progress && blocked) ≡ false
    → next ≡ in_progress
    → blocked ≡ false
unblocked next blocked h e = subst (λ n. (eq_state n in_progress && blocked) ≡ false) e h

both : (a b : Bool) → (a && b) ≡ true → (a ≡ true) × (b ≡ true)
both true b h = (refl, h)
both false b h = cc

attach-Effect :
    (type d : Text) (now : Instant) (a : Project)
    → Effect a.state (attach_document type d now a).1.state
unfolding attach_document
attach-Effect type d now a =
    elim (Option-cases (find (λ r. eq_text r.type type) a.state.requirements)) [
      | inl none_such ↦ rw none_such (stays (level a.state))
      | inr (r, e) ↦ elim (Bool-cases (has_document r.document_id d)) [
        | inl already ↦ rw (e, already) (stays (level a.state))
        | inr another ↦
            let t = record a.state { requirements = supplied type (some d) a.state.requirements } in
            elim (Bool-cases (eq_state a.state.state awaiting_documents && not (is_blocked t))) [
              | inl supplied_all ↦
                  rw (e, another, supplied_all)
                    (goes ready now
                      (subst (λ s. s ⇒ ready)
                        (sym (
                          eq_of_eq_state a.state.state awaiting_documents
                            (both _ _ supplied_all).0))
                        documents_in)
                      (λ h. absurd (cc)) (moved-IsLevel type (some d) ready now a.state refl))
              | inr not_yet ↦
                  rw (e, another, not_yet) (stays (exchanged-IsLevel type (some d) a.state))
            ]
      ]
    ]

move_to-Effect :
    (next : ProjectState) (now : Instant) (reason : Option Text) (a : Project)
    → Effect a.state (move_to next now reason a).1.state
unfolding move_to
move_to-Effect next now reason a =
    elim (Bool-cases (any (λ t. eq_state t next) (allowed a.state.state))) [
      | inr cannot ↦ rw cannot (stays (level a.state))
      | inl may ↦ elim (Bool-cases (eq_state next in_progress && is_blocked a.state)) [
        | inl missing ↦ rw (may, missing) (stays (level a.state))
        | inr all_here ↦
            elim (Bool-cases (going_back a.state.state next && ltb (length (said reason)) 3)) [
              | inl silent ↦ rw (may, all_here, silent) (stays (level a.state))
              | inr told ↦
                  rw (may, all_here, told)
                    (goes next now (way_on a.state.state next may)
                      (unblocked next (is_blocked a.state) all_here)
                      (level (at_state next now a.state)))
            ]
      ]
    ]

detach-Effect :
    (type : Text) (now : Instant) (a : Project)
    → Effect a.state (detach_document type now a).1.state
unfolding detach_document
detach-Effect type now a =
    elim (Option-cases (attached_to (find (λ r. eq_text r.type type) a.state.requirements))) [
      | inl none_such ↦ rw none_such (stays (level a.state))
      | inr (d, e) ↦ elim (Bool-cases (eq_state a.state.state completed)) [
        | inl over ↦ rw (e, over) (stays (level a.state))
        | inr going_on ↦
            let t = record a.state { requirements = supplied type none a.state.requirements } in
            elim (Bool-cases (is_blocked t && eq_state a.state.state ready)) [
              | inl missing ↦
                  rw (e, going_on, missing)
                    (goes awaiting_documents now
                      (subst (λ s. s ⇒ awaiting_documents)
                        (sym (eq_of_eq_state a.state.state ready (both _ _ missing).1))
                        documents_out)
                      (λ h. absurd (cc))
                      (moved-IsLevel type none awaiting_documents now a.state refl))
              | inr fine ↦ rw (e, going_on, fine) (stays (exchanged-IsLevel type none a.state))
            ]
      ]
    ]

start-Effect :
    (now : Instant) (reason : Option Text) (a : Project)
    → Effect a.state (start now reason a).1.state
unfolding start
start-Effect now reason a = elim (Bool-cases (is_blocked a.state)) [
  | inl missing ↦ rw missing (stays (level a.state))
  | inr all_here ↦ rw all_here (move_to-Effect in_progress now reason a)
]

-- Steps of which something other than the order is exchanged.
orders-map :
    (f : TaskProgress → TaskProgress)
    → ((t : TaskProgress) → (f t).order ≡ t.order)
    → (ts : List TaskProgress) → map (λ t. t.order) (map f ts) ≡ map (λ t. t.order) ts
orders-map f h [] = refl
orders-map f h (t ∷ ts) = ap₂ (λ x xs. x ∷ xs) (h t) (orders-map f h ts)

step-IsLevel :
    (s : ProjectSnapshot) (f : TaskProgress → TaskProgress)
    → ((t : TaskProgress) → (f t).order ≡ t.order)
    → IsLevel s (record s { tasks = map f s.tasks })
step-IsLevel s f h = record {
  state = refl;
  started = refl;
  completed = refl;
  types = refl;
  orders = orders-map f h s.tasks;
}

set_task-Effect :
    (order : ℕ) (due_on : Option Instant) (now : Instant) (a : Project)
    → Effect a.state (set_task_due_on order due_on now a).1.state
unfolding set_task_due_on
set_task-Effect order due_on now a =
    elim (Option-cases (find (λ t. t.order == order) a.state.tasks)) [
      | inl none_such ↦ rw none_such (stays (level a.state))
      | inr (t, e) ↦ rw e (
          stays (
            step-IsLevel a.state (λ t. if t.order == order then record t { due_on = due_on } else t)
              λ t. ground arith))
    ]

complete-Effect :
    (order : ℕ) (now : Instant) (a : Project) → Effect a.state (complete_task order now a).1.state
unfolding complete_task
complete-Effect order now a = elim (Option-cases (find (λ t. t.order == order) a.state.tasks)) [
  | inl none_such ↦ rw none_such (stays (level a.state))
  | inr (t, e) ↦ elim (Bool-cases (is_some t.done_at)) [
    | inl already ↦ rw (e, already) (stays (level a.state))
    | inr to_do ↦
        rw (e, to_do)
          (stays (
            step-IsLevel a.state
              (λ t. if t.order == order then record t { done_at = some now } else t)
              λ t. ground arith))
  ]
]

pub execute-Effect : (c : Command) (a : Project) → Effect a.state (execute c a).1.state
unfolding execute set_due_at
execute-Effect (attach type d now) a = attach-Effect type d now a
execute-Effect (detach type now) a = detach-Effect type now a
execute-Effect (begin now reason) a = start-Effect now reason a
execute-Effect (move next now reason) a = move_to-Effect next now reason a
execute-Effect (set_step order due_on now) a = set_task-Effect order due_on now a
execute-Effect (complete order now) a = complete-Effect order now a
execute-Effect (set_due due_at now) a =
    stays (record { state = refl; started = refl; completed = refl; types = refl; orders = refl })
