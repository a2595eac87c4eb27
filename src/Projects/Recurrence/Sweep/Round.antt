-- ===== src/Projects/Recurrence/Sweep/Round.antt =====
-- One round of the sweep of recurrence.ts.
use amc_system.Base.{
  suc, ◌≡◌, refl, ap, sym, subst, ◌∙◌, Bool, true, false, Option, none, some, List, [], ◌∷◌, push,
  any, any-push_self, is_some, arith, inl, inr, Bool-cases, Option-cases,
}
use amc_system.Base.Text.{Text, eq_text_refl}
use amc_system.Kernel.Throws.{Throws}
use amc_system.Projects.Template.{ServiceTemplate, Recurrence}
use amc_system.Projects.Project.State.{ProjectSnapshot}
use amc_system.Projects.Project.{Project, from_template, project_of}
use amc_system.Projects.Recurrence.{Due, period_for}
use amc_system.Projects.Recurrence.Sweep.{
  ClientService, Tables, Setting, CreatedProject, row_of, is_for, exists_for_period, params_of,
  made, create_for, round,
}
use amc_system.Projects.Recurrence.Sweep.Fresh.{
  AreDistinct, IsFresh, put_project-push, push-IsFresh,
}
use amc_system.Projects.Recurrence.Sweep.Single.{IsSingle, same_work_refl, push-IsSingle}

abbrev pub due_of : Setting → Recurrence → ClientService → Option Due
due_of w recurrence row = period_for recurrence (w.cycles row.client_id) w.now

-- An engagement has the project of its period, if it has one due.
abbrev pub IsCovered : Setting → Recurrence → Tables → ClientService → Type 0
IsCovered w recurrence t row =
    (due : Due) → due_of w recurrence row ≡ some due → exists_for_period t row.id due.key ≡ true

-- What part of a sweep leaves behind.
pub record Goes (w : Setting) (t : Tables) (r : Throws (List CreatedProject) × Tables)
    : Type 0 where
  pub created : List CreatedProject
  pub ran : r.0 ≡ Throws.done created
  pub services : r.1.services ≡ t.services
  pub fresh : IsFresh w.id_at r.1
  pub single : IsSingle r.1
  pub keeps :
      (id key : Text) → exists_for_period t id key ≡ true → exists_for_period r.1 id key ≡ true

any-push :
    (p : ProjectSnapshot → Bool) (xs : List ProjectSnapshot) (x : ProjectSnapshot)
    → any p xs ≡ true
    → any p (push xs x) ≡ true
any-push p [] x h = cc
any-push p (y ∷ ys) x h = ground (arith, any-push p ys x)

pub stays-Goes :
    (w : Setting) (t : Tables) → IsFresh w.id_at t → IsSingle t → Goes w t (Throws.done [], t)
stays-Goes w t fresh single = record {
  created = [];
  ran = refl;
  services = refl;
  fresh = fresh;
  single = single;
  keeps = λ id key h. h;
}

-- The project that a round makes.
abbrev new_project : Setting → ServiceTemplate → Tables → ClientService → Due → Project
new_project w template t row due = project_of (params_of w t row due) template

abbrev with_new : Setting → ServiceTemplate → Tables → ClientService → Due → Tables
with_new w template t row due = record t {
  projects = push t.projects (new_project w template t row due).state;
  issued = suc t.issued;
}

from_template-done :
    (w : Setting) (template : ServiceTemplate) (t : Tables) (row : ClientService) (due : Due)
    → w.template_for w.service ≡ some template
    → from_template w.template_for (params_of w t row due)
      ≡ Throws.done (new_project w template t row due)
unfolding from_template
from_template-done w template t row due e = rw e refl

-- A round for which there is no project yet.
create_for-new :
    (w : Setting) (template : ServiceTemplate) (t : Tables) (row : ClientService) (due : Due)
    → w.template_for w.service ≡ some template
    → IsFresh w.id_at t
    → exists_for_period t row.id due.key ≡ false
    → create_for w row (some due) t ≡ (
      Throws.done (made w row due (new_project w template t row due) ∷ []),
      with_new w template t row due,
    )
create_for-new w template t row due e fresh missing =
    let p = new_project w template t row due in
    rw
      (
        missing,
        from_template-done w template t row due e,
        put_project-push p.state t.projects (fresh t.issued (omega arith)),
      )
      refl

new-Goes :
    (w : Setting) (template : ServiceTemplate) (t : Tables) (row : ClientService) (due : Due)
    → AreDistinct w.id_at
    → IsFresh w.id_at t
    → IsSingle t
    → exists_for_period t row.id due.key ≡ false
    → Goes w t (
      Throws.done (made w row due (new_project w template t row due) ∷ []),
      with_new w template t row due,
    )
new-Goes w template t row due distinct fresh single missing =
    let p = (new_project w template t row due).state in
    record {
      created = made w row due (new_project w template t row due) ∷ [];
      ran = refl;
      services = refl;
      fresh = push-IsFresh w.id_at p t distinct refl fresh;
      single = push-IsSingle t p due.key (suc t.issued) refl missing single;
      keeps = λ id key h. any-push (is_for t.services id key) t.projects p h;
    }

pub create_for-old :
    (w : Setting) (t : Tables) (row : ClientService) (due : Due)
    → exists_for_period t row.id due.key ≡ true
    → create_for w row (some due) t ≡ (Throws.done [], t)
create_for-old w t row due already = rw already refl

-- The new project is there for the period.
new-exists :
    (w : Setting) (template : ServiceTemplate) (t : Tables) (row : ClientService) (due : Due)
    → is_some (row_of row.id t.services) ≡ true
    → exists_for_period (with_new w template t row due) row.id due.key ≡ true
new-exists w template t row due there =
    any-push_self (is_for t.services row.id due.key) t.projects
      (new_project w template t row due).state
      (rw (eq_text_refl due.key, same_work_refl (row_of row.id t.services) there) refl)

pub round-Goes :
    (w : Setting) (template : ServiceTemplate) (recurrence : Recurrence) (row : ClientService)
    (t : Tables)
    → w.template_for w.service ≡ some template
    → AreDistinct w.id_at
    → IsFresh w.id_at t
    → IsSingle t
    → is_some (row_of row.id t.services) ≡ true
    → Goes w t (round w recurrence row t) × IsCovered w recurrence (round w recurrence row t).1 row
unfolding round
round-Goes w template recurrence row t e distinct fresh single there =
    elim (Option-cases (due_of w recurrence row)) [
      | inl nothing ↦ subst IsGone (sym (ap (λ o. create_for w row o t) nothing)) (
        stays-Goes w t fresh single,
        λ due d. absurd (let gone : none ≡ some due = sym nothing ∙ d in cc),
      )
      | inr (due, d) ↦ elim (Bool-cases (exists_for_period t row.id due.key)) [
        | inl already ↦
            subst IsGone
              (sym (ap (λ o. create_for w row o t) d ∙ create_for-old w t row due already))
              (stays-Goes w t fresh single, covered_by t due d already)
        | inr missing ↦
            subst IsGone
              (sym (
                ap (λ o. create_for w row o t) d
                ∙ create_for-new w template t row due e fresh missing))
              (
                new-Goes w template t row due distinct fresh single missing,
                covered_by (with_new w template t row due) due d
                    (new-exists w template t row due there),
              )
      ]
    ]
  where
    IsGone : Throws (List CreatedProject) × Tables → Type 0
    IsGone r = Goes w t r × IsCovered w recurrence r.1 row

    covered_by :
        (t' : Tables) (due : Due)
        → due_of w recurrence row ≡ some due
        → exists_for_period t' row.id due.key ≡ true
        → IsCovered w recurrence t' row
    covered_by t' due d h other d' =
        let both : some due ≡ some other = sym d ∙ d' in
        let same : due ≡ other = cc in subst (λ x. exists_for_period t' row.id x.key ≡ true) same h
