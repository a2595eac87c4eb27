-- ===== src/Clients/Tests.antt =====
-- Clients and enquiries at concrete arguments.
use amc_system.Base.{
  ℕ, ◌≡◌, refl, sym, subst, inl, inr, Bool-cases, false, none, some, List, [], ◌∷◌, push,
  if◌then◌else◌, arith,
}
use amc_system.Base.Int.{ℤ, pos, ◌<ℤ◌}
use amc_system.Base.Text.{Text, text, eq_text, trim, trim_start, is_space, is_empty}
use amc_system.Kernel.Result as Result
use amc_system.Kernel.Aggregate.{err, run_all}
use amc_system.Kernel.Money.{money, Currency}
use amc_system.Kernel.Duration.{Instant}
use amc_system.Clients.RateHistory.{RateChange, RateHistory, insert, sort_onto, add, on}
use amc_system.Clients.RateHistory.Past.{IsHistory, rate_change_keeps_past}
use amc_system.Clients.Client.{Client}
use amc_system.Clients.Lead.{
  Lead, LeadSource, LeadStatus, new, contacted, quoted, confirmed, declined, was_declined, Command,
  move, quote, convert, execute, convert_to,
}
use amc_system.Clients.Lead.Pipeline.{stage_of, ◌⟶*◌, lead_refines_pipeline, confirmed_for_nobody}
use amc_system.Clients.LeadWorkflow as LeadWorkflow
use amc_system.Clients.LeadWorkflow.{Store, not_moved}
use amc_system.Clients.LeadWorkflow.Refused.{IsAhead, refused_conversion_leaves_client}

abbrev change : ℤ → ℤ → RateChange
change fils day = record {
  rate = record { amount = money fils Currency.aed };
  effective_from = day;
  changed_by = text "u1";
  note = none;
}

abbrev history : RateHistory
history = change (pos 30_000) (pos 10) ∷ change (pos 45_000) (pos 30) ∷ []

-- A change between two others, learnt of late.
abbrev longer : RateHistory
longer =
    change (pos 30_000) (pos 10) ∷ change (pos 40_000) (pos 20) ∷ change (pos 45_000) (pos 30) ∷ []

added : add (change (pos 40_000) (pos 20)) history ≡ Result.ok longer
unfolding add insert sort_onto
added = refl

rate_change_keeps_past_example :
    IsHistory longer
    × ((date : Instant) → date <ℤ pos 20 → on date longer ≡ on date history)
    × (on (pos 20) longer ≡ some (record { amount = money (pos 40_000) Currency.aed }))
rate_change_keeps_past_example =
    rate_change_keeps_past (change (pos 40_000) (pos 20)) history ((omega arith, tt), (tt, tt))
      added

abbrev enquiry : LeadStatus → Lead
enquiry status = record {
  state = record {
    id = text "l1";
    name = text "Noor";
    phone = some (text "+97150");
    email = none;
    source = LeadSource.referral;
    source_detail = none;
    campaign_id = none;
    requested_service = none;
    status = status;
    converted_client_id = none;
    received_at = pos 1;
    notes = none;
  };
  pending = [];
}

abbrev calls : List Command
calls =
    move contacted (pos 2) none
    ∷ quote (text "c1") (pos 3)
    ∷ convert (text "c2") (pos 4)
    ∷ move declined (pos 5) none
    ∷ []

lead_refines_pipeline_example :
    (stage_of (enquiry new) ⟶* stage_of (run_all execute calls (enquiry new)))
    × ((x : Text)
        → (enquiry new).state.converted_client_id ≡ some x
        → (run_all execute calls (enquiry new)).state.converted_client_id ≡ some x)
lead_refines_pipeline_example = lead_refines_pipeline calls (enquiry new)

confirmed_for_nobody_example :
    let b =
      run_all execute
        (move contacted (pos 2) none
          ∷ move quoted (pos 2) none
          ∷ move confirmed (pos 2) none
          ∷ convert (text "c1") (pos 3)
          ∷ [])
        (enquiry new) in
    (b.state.status ≡ confirmed) × (b.state.converted_client_id ≡ none)
confirmed_for_nobody_example =
    confirmed_for_nobody (convert (text "c1") (pos 3) ∷ []) (enquiry new) (pos 2) refl refl

abbrev store : Store
store = record {
  leads = λ id. if eq_text id (text "l1") then some (enquiry declined) else none;
  clients = [];
  taken = 4;
}

found : store.leads (text "l1") ≡ some (enquiry declined)
unfolding eq_text
found = refl

named : is_empty (trim (text " Noor LLC")) ≡ false
unfolding trim trim_start is_space
named = refl

abbrev ids : ℕ → Text
ids n = n ∷ []

ids_once : (n m : ℕ) → ids n ≡ ids m → n ≡ m
ids_once n m e = cc

ids-IsAhead : IsAhead ids store
ids-IsAhead id client_id b there names = elim (Bool-cases (eq_text id (text "l1"))) [
  | inl this ↦
      let e : some (enquiry declined) ≡ some b =
        subst (λ t. (if t then some (enquiry declined) else none) ≡ some b) this there in
      let same : enquiry declined ≡ b = cc in
      let none_named : none ≡ some client_id =
        subst (λ a. a.state.converted_client_id ≡ some client_id) (sym same) names in
      absurd (cc)
  | inr other ↦
      let e : none ≡ some b =
        subst (λ t. (if t then some (enquiry declined) else none) ≡ some b) other there in
      absurd (cc)
]

refused_conversion_leaves_client_example :
    let (r, after) = LeadWorkflow.convert ids (text "l1") (text " Noor LLC") (pos 9) store in
    (r ≡ err (not_moved was_declined))
    × ((c : Client) × (after.clients ≡ push [] c)
        × (c.state.id ≡ 4 ∷ [])
        × (c.state.legal_name ≡ trim (text " Noor LLC"))
        × ((other : Text) (b : Lead)
            → after.leads other ≡ some b
            → ¬ (b.state.converted_client_id ≡ some c.state.id)))
    × (after.leads ≡ store.leads)
refused_conversion_leaves_client_example =
    refused_conversion_leaves_client ids (text "l1") (text " Noor LLC") (pos 9) store ids_once
      ids-IsAhead found refl refl named

-- A new enquiry is converted with nobody having spoken to it.
jumped : (run_all execute (convert (text "c1") (pos 2) ∷ []) (enquiry new)).state.status ≡ confirmed
unfolding run_all execute convert_to
jumped = refl
