-- ===== src/Projects/Recurrence/Sweep/Twice.antt =====
-- The sweep of recurrence.ts is safe to run twice.
use amc_system.Base.{
  ◌≡◌, refl, ap, sym, subst, ◌∙◌, true, some, List, [], ◌∷◌, ◌++◌, All, is_some, inl, inr, ◌⊎◌,
  Option-cases,
}
use amc_system.Kernel.Throws.{Throws}
use amc_system.Projects.Template.{
  ServiceTemplate, Recurrence, once, monthly, per_vat_period, per_financial_year,
}
use amc_system.Projects.Recurrence.Sweep.{
  ClientService, Tables, Setting, CreatedProject, all_active, row_of, create_for, round, and_then,
  sweep_each, sweep_with, sweep,
}
use amc_system.Projects.Recurrence.Sweep.Fresh.{AreDistinct, IsFresh}
use amc_system.Projects.Recurrence.Sweep.Single.{IsSingle, all_active-found}
use amc_system.Projects.Recurrence.Sweep.Round.{
  Goes, IsCovered, due_of, stays-Goes, create_for-old, round-Goes,
}

abbrev IsKnown : Tables → ClientService → Type 0
IsKnown t row = is_some (row_of row.id t.services) ≡ true

and_then-done :
    (created more : List CreatedProject) (r : Throws (List CreatedProject) × Tables)
    → r.0 ≡ Throws.done more
    → and_then created r ≡ (Throws.done (created ++ more), r.1)
and_then-done created more (r, t) e = rw e refl

-- Once the first round has returned.
sweep_each-next :
    (w : Setting) (recurrence : Recurrence) (row : ClientService) (rows : List ClientService)
    (t : Tables) (created : List CreatedProject)
    → (round w recurrence row t).0 ≡ Throws.done created
    → sweep_each w recurrence (row ∷ rows) t
      ≡ and_then created (sweep_each w recurrence rows (round w recurrence row t).1)
unfolding sweep_each
sweep_each-next w recurrence row rows t created e = ap go_on e
  where
    t' : Tables
    t' = (round w recurrence row t).1

    go_on : Throws (List CreatedProject) → Throws (List CreatedProject) × Tables
    go_on r = elim r [
      | Throws.threw e ↦ (Throws.threw e, t')
      | Throws.done c ↦ and_then c (sweep_each w recurrence rows t')
    ]

sweep_each-Goes :
    (w : Setting) (template : ServiceTemplate) (recurrence : Recurrence) (rows : List ClientService)
    (t : Tables)
    → w.template_for w.service ≡ some template
    → AreDistinct w.id_at
    → IsFresh w.id_at t
    → IsSingle t
    → All (IsKnown t) rows
    → Goes w t (sweep_each w recurrence rows t)
      × All (IsCovered w recurrence (sweep_each w recurrence rows t).1) rows
sweep_each-Goes w template recurrence [] t e distinct fresh single known =
    (unfold sweep_each in stays-Goes w t fresh single, tt)
sweep_each-Goes w template recurrence (row ∷ rows) t e distinct fresh single (here, known) =
    let (g, covered) = round-Goes w template recurrence row t e distinct fresh single here in
    let t₁ = (round w recurrence row t).1 in
    let known' : All (IsKnown t₁) rows =
      subst (λ services. All (λ r. is_some (row_of r.id services) ≡ true) rows) (sym g.services)
        known in
    let (g', covered') =
      sweep_each-Goes w template recurrence rows t₁ e distinct g.fresh g.single known' in
    let whole : sweep_each w recurrence (row ∷ rows) t
        ≡ (Throws.done (g.created ++ g'.created), (sweep_each w recurrence rows t₁).1) =
      sweep_each-next w recurrence row rows t g.created g.ran
      ∙ and_then-done g.created g'.created (sweep_each w recurrence rows t₁) g'.ran in
    subst (λ r. Goes w t r × All (IsCovered w recurrence r.1) (row ∷ rows)) (sym whole)
      (
        record {
          created = g.created ++ g'.created;
          ran = refl;
          services = g'.services ∙ g.services;
          fresh = g'.fresh;
          single = g'.single;
          keeps = λ id key h. g'.keeps id key (g.keeps id key h);
        },
        (λ due d. g'.keeps row.id due.key (covered due d), covered'),
      )

round-idle :
    (w : Setting) (recurrence : Recurrence) (row : ClientService) (t : Tables)
    → IsCovered w recurrence t row
    → round w recurrence row t ≡ (Throws.done [], t)
unfolding round
round-idle w recurrence row t covered = elim (Option-cases (due_of w recurrence row)) [
  | inl nothing ↦ ap (λ o. create_for w row o t) nothing
  | inr (due, d) ↦ ap (λ o. create_for w row o t) d ∙ create_for-old w t row due (covered due d)
]

-- Where every engagement has the project of its period, there is nothing to create.
sweep_each-idle :
    (w : Setting) (recurrence : Recurrence) (rows : List ClientService) (t : Tables)
    → All (IsCovered w recurrence t) rows
    → sweep_each w recurrence rows t ≡ (Throws.done [], t)
sweep_each-idle w recurrence [] t h = unfold sweep_each in refl
sweep_each-idle w recurrence (row ∷ rows) t (here, rest) =
    let idle = round-idle w recurrence row t here in
    sweep_each-next w recurrence row rows t [] (ap (λ r. r.0) idle)
    ∙ ap (λ r. and_then [] (sweep_each w recurrence rows r.1)) idle
    ∙ ap (and_then []) (sweep_each-idle w recurrence rows t rest)

-- What a sweep does, by the recurrence of the service.
sweep_with-cases :
    (w : Setting) (template : ServiceTemplate)
    → ((t : Tables) → sweep_with w (some template) t ≡ (Throws.done [], t))
      ⊎ ((t : Tables)
          → sweep_with w (some template) t
            ≡ sweep_each w template.recurrence (all_active w.service t.services) t)
sweep_with-cases w template = by_recurrence template.recurrence refl
  where
    same :
        (t : Tables) {r : Recurrence}
        → template.recurrence ≡ r
        → sweep_each w template.recurrence (all_active w.service t.services) t
          ≡ sweep_each w r (all_active w.service t.services) t
    same t e = ap (λ r. sweep_each w r (all_active w.service t.services) t) e

    by_recurrence :
        (r : Recurrence)
        → template.recurrence ≡ r
        → ((t : Tables) → sweep_with w (some template) t ≡ (Throws.done [], t))
          ⊎ ((t : Tables)
              → sweep_with w (some template) t
                ≡ sweep_each w template.recurrence (all_active w.service t.services) t)
    by_recurrence once e = inl (λ t. rw e refl)
    by_recurrence monthly e = inr (λ t. rw e (same t e))
    by_recurrence per_vat_period e = inr (λ t. rw e (same t e))
    by_recurrence per_financial_year e = inr (λ t. rw e (same t e))

-- What a sweep and a second one give, for a sweep that is known.
abbrev IsSafe : Setting → Tables → Type 0
IsSafe w t =
    (created : List CreatedProject) × ((sweep w t).0 ≡ Throws.done created)
    × IsSingle (sweep w t).1
    × (sweep w (sweep w t).1 ≡ (Throws.done [], (sweep w t).1))

idle-IsSafe :
    (w : Setting) (t : Tables)
    → ((u : Tables) → sweep w u ≡ (Throws.done [], u))
    → IsSingle t
    → IsSafe w t
idle-IsSafe w t idle single = (
  [],
  ap (λ r. r.0) (idle t),
  subst IsSingle (sym (ap (λ r. r.1) (idle t))) single,
  idle (sweep w t).1,
)

recurring-IsSafe :
    (w : Setting) (template : ServiceTemplate) (t : Tables)
    → w.template_for w.service ≡ some template
    → ((u : Tables)
        → sweep w u ≡ sweep_each w template.recurrence (all_active w.service u.services) u)
    → AreDistinct w.id_at
    → IsFresh w.id_at t
    → IsSingle t
    → IsSafe w t
recurring-IsSafe w template t e each distinct fresh single =
    let rows = all_active w.service t.services in
    let t' = (sweep_each w template.recurrence rows t).1 in
    let (g, covered) =
      sweep_each-Goes w template template.recurrence rows t e distinct fresh single
        (all_active-found w.service t.services) in
    let same : all_active w.service t'.services ≡ rows = ap (all_active w.service) g.services in
    let again : sweep w t' ≡ (Throws.done [], t') =
      each t'
      ∙ ap (λ rs. sweep_each w template.recurrence rs t') same
      ∙ sweep_each-idle w template.recurrence rows t' covered in
    let first : (sweep w t).1 ≡ t' = ap (λ r. r.1) (each t) in
    (
      g.created,
      ap (λ r. r.0) (each t) ∙ g.ran,
      subst IsSingle (sym first) g.single,
      subst (λ u. sweep w u ≡ (Throws.done [], u)) (sym first) again,
    )

-- Where the generator never repeats an id and no project has one that is still to come, and there are no
-- two projects for the same client, service and period: a sweep returns without an exception, there are
-- still no two such projects, and the same sweep once more creates nothing and changes nothing.
pub sweep_twice :
    (w : Setting) (t : Tables)
    → AreDistinct w.id_at
    → IsFresh w.id_at t
    → IsSingle t
    → (created : List CreatedProject) × ((sweep w t).0 ≡ Throws.done created)
      × IsSingle (sweep w t).1
      × (sweep w (sweep w t).1 ≡ (Throws.done [], (sweep w t).1))
unfolding sweep
sweep_twice w t distinct fresh single = elim (Option-cases (w.template_for w.service)) [
  | inl no_template ↦ idle-IsSafe w t (λ u. ap (λ o. sweep_with w o u) no_template) single
  | inr (template, e) ↦ elim (sweep_with-cases w template) [
    | inl idle ↦ idle-IsSafe w t (λ u. ap (λ o. sweep_with w o u) e ∙ idle u) single
    | inr each ↦
        recurring-IsSafe w template t e (λ u. ap (λ o. sweep_with w o u) e ∙ each u) distinct fresh
          single
  ]
]
