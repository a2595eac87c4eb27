-- ===== src/Clients/Lead/Pipeline.antt =====
-- The pipeline of lead.ts, without what else a lead records.
use amc_system.Base.{
  ◌≡◌, refl, ap, subst, ◌∙◌, true, false, Option, none, some, List, [], ◌∷◌, any, arith, inl, inr,
  ◌⊎◌, Bool-cases, Option-cases, get_or,
}
use amc_system.Base.Text.{Text}
use amc_system.Kernel.Aggregate.{run_all}
use amc_system.Kernel.Duration.{Instant}
use amc_system.Clients.Lead.{
  LeadStatus, new, contacted, quoted, confirmed, declined, eq_status, allowed, Lead, Command, move,
  quote, convert, execute, move_to, quote_as, convert_to,
}

-- Where an enquiry stands, and the client that it became.
pub record Stage : Type 0 where
  pub status : LeadStatus
  pub client : Option Text

abbrev pub stage_of : Lead → Stage
stage_of a = record { status = a.state.status; client = a.state.converted_client_id }

-- What may follow a status, by a move alone.
infix 45 ◌⇒◌
pub data ◌⇒◌ : LeadStatus → LeadStatus → Type 0 where
  reached : new ⇒ contacted
  spoken_again : contacted ⇒ contacted
  reopened : quoted ⇒ contacted
  priced : contacted ⇒ quoted
  accepted : quoted ⇒ confirmed
  refused_new : new ⇒ declined
  refused_contacted : contacted ⇒ declined
  refused_quoted : quoted ⇒ declined

-- The pipeline. A move leaves the client as it is; an offer names one where there was none; and what is
-- confirmed as a client keeps the client that it has.
infix 45 ◌⟶◌
pub data ◌⟶◌ (s t : Stage) : Type 0 where
  moved : s.status ⇒ t.status → t.client ≡ s.client → s ⟶ t
  offered :
      (x : Text)
      → s.status ≡ contacted
      → s.client ≡ none
      → t.status ≡ quoted
      → t.client ≡ some x
      → s ⟶ t
  became_client :
      (x : Text)
      → eq_status s.status confirmed ≡ false
      → eq_status s.status declined ≡ false
      → t.status ≡ confirmed
      → t.client ≡ some (get_or s.client x)
      → s ⟶ t

-- Any number of steps of the pipeline.
infix 45 ◌⟶*◌
pub data ◌⟶*◌ : Stage → Stage → Type 0 where
  stay : {s : Stage} → s ⟶* s
  step : {s t u : Stage} → s ⟶ t → t ⟶* u → s ⟶* u

way_on : (from to : LeadStatus) → any (λ next. eq_status next to) (allowed from) ≡ true → from ⇒ to
way_on new contacted h = reached
way_on new declined h = refused_new
way_on new new h = cc
way_on new quoted h = cc
way_on new confirmed h = cc
way_on contacted contacted h = spoken_again
way_on contacted quoted h = priced
way_on contacted declined h = refused_contacted
way_on contacted new h = cc
way_on contacted confirmed h = cc
way_on quoted contacted h = reopened
way_on quoted confirmed h = accepted
way_on quoted declined h = refused_quoted
way_on quoted new h = cc
way_on quoted quoted h = cc
way_on confirmed to h = cc
way_on declined to h = cc

from_contacted :
    (st : LeadStatus) → any (λ next. eq_status next quoted) (allowed st) ≡ true → st ≡ contacted
from_contacted new h = cc
from_contacted contacted h = refl
from_contacted quoted h = cc
from_contacted confirmed h = cc
from_contacted declined h = cc

quote_as-step :
    (client_id : Text) (now : Instant) (a : Lead)
    → (stage_of (quote_as client_id now a).1 ≡ stage_of a)
      ⊎ (stage_of a ⟶ stage_of (quote_as client_id now a).1)
unfolding quote_as
quote_as-step client_id now a = elim (Option-cases a.state.converted_client_id) [
  | inr (x, there) ↦
      let same : (quote_as client_id now a).1 ≡ a = ground arith in inl (ap stage_of same)
  | inl nobody ↦ elim (Bool-cases (any (λ next. eq_status next quoted) (allowed a.state.status))) [
    | inr not_so ↦
        let same : (quote_as client_id now a).1 ≡ a = ground arith in inl (ap stage_of same)
    | inl may ↦
        let e : (quote_as client_id now a).1.state
            ≡ record a.state { status = quoted; converted_client_id = some client_id } =
          ground arith in
        inr (
          offered client_id (from_contacted a.state.status may) nobody (ap (λ s. s.status) e)
            (ap (λ s. s.converted_client_id) e))
  ]
]

-- A call on a lead changes nothing of its stage, or is a step of the pipeline.
execute-step :
    (c : Command) (a : Lead)
    → (stage_of (execute c a).1 ≡ stage_of a) ⊎ (stage_of a ⟶ stage_of (execute c a).1)
unfolding execute move_to quote_as convert_to
execute-step (move status now why) a =
    elim (Bool-cases (any (λ next. eq_status next status) (allowed a.state.status))) [
      | inl may ↦ rw may (inr (moved (way_on a.state.status status may) refl))
      | inr not_so ↦ rw not_so (inl refl)
    ]
execute-step (quote client_id now) a = quote_as-step client_id now a
execute-step (convert client_id now) a = elim (Bool-cases (eq_status a.state.status confirmed)) [
  | inl already ↦ rw already (inl refl)
  | inr open_yet ↦ elim (Bool-cases (eq_status a.state.status declined)) [
    | inl dropped ↦ rw (open_yet, dropped) (inl refl)
    | inr live ↦ rw (open_yet, live) (inr (became_client client_id open_yet live refl refl))
  ]
]

-- A step keeps the client of one who has one.
step-client : {s t : Stage} (x : Text) → s ⟶ t → s.client ≡ some x → t.client ≡ some x
step-client x (moved way kept) h = kept ∙ h
step-client x (offered y from nobody to named) h = absurd (cc)
step-client x (became_client y open_yet live to kept) h = kept ∙ ap (λ c. some (get_or c y)) h

steps-client : {s t : Stage} (x : Text) → s ⟶* t → s.client ≡ some x → t.client ≡ some x
steps-client x stay h = h
steps-client x (step first rest) h = steps-client x rest (step-client x first h)

step_before : {s s' t : Stage} → (s' ≡ s) ⊎ (s ⟶ s') → s' ⟶* t → s ⟶* t
step_before {s} {s'} {t} (inl same) rest = subst (λ x. x ⟶* t) same rest
step_before (inr first) rest = step first rest

run_all-steps : (cs : List Command) (a : Lead) → stage_of a ⟶* stage_of (run_all execute cs a)
unfolding run_all
run_all-steps [] a = stay
run_all-steps (c ∷ cs) a = step_before (execute-step c a) (run_all-steps cs (execute c a).1)

-- Whatever is called on a lead, in any order, its status and client go through the pipeline by any
-- number of steps; and a client that is once named for it is never exchanged for another.
pub lead_refines_pipeline :
    (cs : List Command) (a : Lead)
    → (stage_of a ⟶* stage_of (run_all execute cs a))
      × ((x : Text)
          → a.state.converted_client_id ≡ some x
          → (run_all execute cs a).state.converted_client_id ≡ some x)
lead_refines_pipeline cs a = (run_all-steps cs a, λ x h. steps-client x (run_all-steps cs a) h)

ended_at :
    (c : Command) (a : Lead)
    → a.state.status ≡ confirmed
    → a.state.converted_client_id ≡ none
    → (execute c a).1 ≡ a
unfolding execute move_to quote_as convert_to
ended_at (move status now why) a h k = rw h refl
ended_at (quote client_id now) a h k = rw (h, k) refl
ended_at (convert client_id now) a h k = rw h refl

-- Nothing changes a lead that is confirmed.
confirmed_stays :
    (cs : List Command) (a : Lead)
    → a.state.status ≡ confirmed
    → a.state.converted_client_id ≡ none
    → ((run_all execute cs a).state.status ≡ confirmed)
      × ((run_all execute cs a).state.converted_client_id ≡ none)
unfolding run_all
confirmed_stays [] a h k = (h, k)
confirmed_stays (c ∷ cs) a h k =
    let same : (execute c a).1 ≡ a = ended c in
    confirmed_stays cs (execute c a).1 (ap (λ b. b.state.status) same ∙ h)
      (ap (λ b. b.state.converted_client_id) same ∙ k)
  where
    ended : (c : Command) → (execute c a).1 ≡ a
    ended c = ended_at c a h k

moves :
    (from to : LeadStatus) (now : Instant) (a : Lead)
    → any (λ next. eq_status next to) (allowed from) ≡ true
    → a.state.status ≡ from
    → a.state.converted_client_id ≡ none
    → let b = (execute (move to now none) a).1 in
      (b.state.status ≡ to) × (b.state.converted_client_id ≡ none)
unfolding execute move_to
moves from to now a may h k = rw (h, may) (refl, k)

-- A lead can be confirmed by moves alone and has no client then. It never gets one: whatever is called
-- on it, it stays confirmed and without a client.
pub confirmed_for_nobody :
    (cs : List Command) (a : Lead) (now : Instant)
    → a.state.status ≡ new
    → a.state.converted_client_id ≡ none
    → let b =
        run_all execute
          (move contacted now none ∷ move quoted now none ∷ move confirmed now none ∷ cs)
          a in
      (b.state.status ≡ confirmed) × (b.state.converted_client_id ≡ none)
unfolding run_all
confirmed_for_nobody cs a now h k =
    let (s₁, c₁) = moves new contacted now a refl h k in
    let a₁ = (execute (move contacted now none) a).1 in
    let (s₂, c₂) = moves contacted quoted now a₁ refl s₁ c₁ in
    let a₂ = (execute (move quoted now none) a₁).1 in
    let (s₃, c₃) = moves quoted confirmed now a₂ refl s₂ c₂ in
    confirmed_stays cs (execute (move confirmed now none) a₂).1 s₃ c₃
