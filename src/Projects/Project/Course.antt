-- ===== src/Projects/Project/Course.antt =====
-- What holds of a project (project.ts) along its course.
use amc_system.Base.{
  ◌≡◌, refl, ap, sym, subst, ◌∙◌, Bool, true, false, Option, none, some, List, [], ◌∷◌, any, length,
  ltb, arith, inl, inr, Bool-cases, Option-cases, is_some,
}
use amc_system.Base.Text.{Text}
use amc_system.Kernel.Throws as Throws
use amc_system.Kernel.Duration.{Instant}
use amc_system.Kernel.Aggregate.{run_all}
use amc_system.Projects.Template.{ServiceTemplate}
use amc_system.Projects.Project.State.{
  ProjectState, awaiting_documents, ready, in_progress, waiting_for_client, waiting_for_authority,
  completed, cancelled, eq_state, ProjectSnapshot, TemplateParams,
}
use amc_system.Projects.Project.{
  Project, Command, execute, from_template, at_state, missing_documents, project_of, unmet,
  of_template, given_or,
}
use amc_system.Projects.Project.Lifecycle.{
  ◌⇒◌, documents_in, documents_out, asked_client, asked_authority, done, done_by_authority, revived,
  back_to_ready, back_to_documents, client_back_to_ready, client_back_to_documents,
  authority_back_to_ready, dropped, IsLevel, Effect, stays, goes, execute-Effect, types_of,
  orders_of,
}

-- Whether the work has begun in a state.
abbrev pub has_begun : ProjectState → Bool
has_begun awaiting_documents = false
has_begun ready = false
has_begun in_progress = true
has_begun waiting_for_client = true
has_begun waiting_for_authority = true
has_begun completed = true
has_begun cancelled = false

-- It says when it was completed just where it is, and when it began at least while it goes on.
pub record IsConsistent (s : ProjectSnapshot) : Type 0 where
  pub ended : is_some s.completed_at ≡ eq_state s.state completed
  pub started : has_begun s.state ≡ true → is_some s.started_at ≡ true

IsConsistent-level : (s t : ProjectSnapshot) → IsLevel s t → IsConsistent s → IsConsistent t
IsConsistent-level s t l h = record {
  ended = rw (l.state, l.completed) h.ended;
  started = rw (l.state, l.started) h.started;
}

at_state-ended :
    (next : ProjectState) (now : Instant) (s : ProjectSnapshot)
    → is_some s.completed_at ≡ eq_state s.state completed
    → is_some (at_state next now s).completed_at ≡ eq_state next completed
at_state-ended next now s h = elim (Bool-cases (eq_state next completed)) [
  | inl ends ↦ rw ends refl
  | inr goes_on ↦ elim (Bool-cases (eq_state s.state completed)) [
    | inl was ↦ rw (goes_on, was) refl
    | inr was_not ↦ rw (goes_on, was_not) (h ∙ was_not)
  ]
]

in_progress-started :
    (now : Instant) (s : ProjectSnapshot) → is_some (at_state in_progress now s).started_at ≡ true
in_progress-started now s = elim (Option-cases s.started_at) [
  | inl never ↦ rw never refl
  | inr (t, e) ↦ rw e refl
]

at_state-started :
    (from next : ProjectState) (now : Instant) (s : ProjectSnapshot)
    → from ⇒ next
    → s.state ≡ from
    → (has_begun s.state ≡ true → is_some s.started_at ≡ true)
    → has_begun next ≡ true
    → is_some (at_state next now s).started_at ≡ true
at_state-started from in_progress now s way e h b = in_progress-started now s
at_state-started from next now s asked_client e h b = h (ap has_begun e)
at_state-started from next now s asked_authority e h b = h (ap has_begun e)
at_state-started from next now s done e h b = h (ap has_begun e)
at_state-started from next now s done_by_authority e h b = h (ap has_begun e)
at_state-started from next now s documents_in e h b = absurd (cc)
at_state-started from next now s documents_out e h b = absurd (cc)
at_state-started from next now s revived e h b = absurd (cc)
at_state-started from next now s back_to_ready e h b = absurd (cc)
at_state-started from next now s back_to_documents e h b = absurd (cc)
at_state-started from next now s client_back_to_ready e h b = absurd (cc)
at_state-started from next now s client_back_to_documents e h b = absurd (cc)
at_state-started from next now s authority_back_to_ready e h b = absurd (cc)
at_state-started from next now s (dropped _ ne nf) e h b = absurd (cc)

-- What one call keeps of a project.
pub record IsContinued (s t : ProjectSnapshot) : Type 0 where
  pub types : types_of t ≡ types_of s
  pub orders : orders_of t ≡ orders_of s
  pub first_start : (x : Instant) → s.started_at ≡ some x → t.started_at ≡ some x

at_state-first_start :
    (next : ProjectState) (now : Instant) (s : ProjectSnapshot) (x : Instant)
    → s.started_at ≡ some x
    → (at_state next now s).started_at ≡ some x
at_state-first_start next now s x e = elim (Bool-cases (eq_state next in_progress)) [
  | inl begins ↦ rw (begins, e) refl
  | inr other ↦ rw (other, e) refl
]

IsConsistent-Effect :
    (s t : ProjectSnapshot) → Effect s t → IsConsistent s → IsConsistent t × IsContinued s t
IsConsistent-Effect s t (stays l) h = (
  IsConsistent-level s t l h,
  record { types = l.types; orders = l.orders; first_start = λ x e. l.started ∙ e },
)
IsConsistent-Effect s t (goes next now way here l) h = (
  IsConsistent-level (at_state next now s) t l (record {
    ended = at_state-ended next now s h.ended;
    started = at_state-started s.state next now s way refl h.started;
  }),
  record {
    types = l.types;
    orders = l.orders;
    first_start = λ x e. l.started ∙ at_state-first_start next now s x e;
  },
)

run_all-IsConsistent :
    (cs : List Command) (a : Project)
    → IsConsistent a.state
    → let b = run_all execute cs a in IsConsistent b.state × IsContinued a.state b.state
unfolding run_all
run_all-IsConsistent [] a h = (h, record { types = refl; orders = refl; first_start = λ x e. e })
run_all-IsConsistent (c ∷ cs) a h =
    let a' = (execute c a).1 in
    let (h', k) = IsConsistent-Effect a.state a'.state (execute-Effect c a) h in
    let (h'', k') = run_all-IsConsistent cs a' h' in
    (
      h'',
      record {
        types = k'.types ∙ k.types;
        orders = k'.orders ∙ k.orders;
        first_start = λ x e. k'.first_start x (k.first_start x e);
      },
    )

project_of-IsConsistent :
    (p : TemplateParams) (template : ServiceTemplate) → IsConsistent (project_of p template).state
project_of-IsConsistent p template = elim (Bool-cases (any (λ r. r.mandatory) (unmet template))) [
  | inl asks ↦ rw asks (record { ended = refl; started = λ b. absurd (cc) })
  | inr free ↦ rw free (record { ended = refl; started = λ b. absurd (cc) })
]

of_template-IsConsistent :
    (p : TemplateParams) (template : Option ServiceTemplate) {a : Project}
    → of_template p template ≡ Throws.done a
    → IsConsistent a.state
of_template-IsConsistent p none h = absurd (cc)
of_template-IsConsistent p (some template) {a} h =
    let e : project_of p template ≡ a = cc in
    subst (λ b. IsConsistent b.state) e (project_of-IsConsistent p template)

-- A project that comes from a template is consistent after any calls in any order: it has a date of its
-- completion just where its state is completed, and a date of its beginning where it is in progress,
-- waits or is completed. The documents it asks for and its steps stay those it was made with, and the
-- date of its first beginning is never exchanged for another by later calls.
pub project_stays-IsConsistent :
    (template_for : Text → Option ServiceTemplate) (p : TemplateParams) (cs later : List Command)
    {a : Project}
    → from_template template_for p ≡ Throws.done a
    → let b = run_all execute cs a in
      let c = run_all execute later b in
      IsConsistent c.state × IsContinued a.state c.state × IsContinued b.state c.state
unfolding from_template
project_stays-IsConsistent template_for p cs later {a} h =
    let (hb, ab) =
      run_all-IsConsistent cs a
        (of_template-IsConsistent p (given_or p.template (template_for p.service)) h) in
    let b = run_all execute cs a in
    let (hc, bc) = run_all-IsConsistent later b hb in
    (
      hc,
      record {
        types = bc.types ∙ ab.types;
        orders = bc.orders ∙ ab.orders;
        first_start = λ x e. bc.first_start x (ab.first_start x e);
      },
      bc,
    )

no_documents : (ts : List Text) → ltb 0 (length ts) ≡ false → ts ≡ []
no_documents [] h = refl
no_documents (t ∷ ts) h = absurd (ground arith)

-- A call after which a project is in progress, and before which it was not, found no document missing;
-- and the project was ready, waited for somebody, or was completed and is reopened.
pub work_starts_unblocked :
    (c : Command) (a : Project)
    → eq_state a.state.state in_progress ≡ false
    → (execute c a).1.state.state ≡ in_progress
    → (missing_documents (execute c a).1.state ≡ []) × (a.state.state ⇒ in_progress)
work_starts_unblocked c a before after = entered (execute-Effect c a)
  where
    entered :
        Effect a.state (execute c a).1.state
        → (missing_documents (execute c a).1.state ≡ []) × (a.state.state ⇒ in_progress)
    entered (stays l) = absurd (cc)
    entered (goes next now way here l) =
        let e : next ≡ in_progress = sym l.state ∙ after in
        (no_documents _ (here e), subst (λ n. a.state.state ⇒ n) e way)
