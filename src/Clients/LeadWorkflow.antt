-- ===== src/Clients/LeadWorkflow.antt =====
-- packages/modules/clients/application/lead-workflow.ts, inside the transaction of
-- packages/modules/audit/infrastructure/unit-of-work.ts: what was saved stays, whatever the work
-- returns, as that transaction goes back only where the work throws.
pub mod Refused
use amc_system.Base.{
  ℕ, ◌+◌, Bool, true, false, Option, none, some, List, [], ◌∷◌, push, if◌then◌else◌,
}
use amc_system.Base.Text.{Text, eq_text, trim}
use amc_system.Kernel.Result as Result
use amc_system.Kernel.Result.{Result}
use amc_system.Kernel.Aggregate.{Outcome, ok, err, threw}
use amc_system.Kernel.Duration.{Instant}
use amc_system.Clients.Client.{Client, ClientConflict, onboard}
use amc_system.Clients.Lead.{Lead, LeadStatus, LeadConflict, move_to, quote_as, convert_to}

-- The tables of enquiries and clients, and how many identifiers were taken.
pub record Store : Type 0 where
  pub leads : Text → Option Lead
  pub clients : List Client
  pub taken : ℕ

pub data WorkflowConflict : Type 0 where
  no_such_enquiry : WorkflowConflict
  not_onboarded : ClientConflict → WorkflowConflict
  not_moved : LeadConflict → WorkflowConflict

abbrev pub save_lead : Lead → Store → Store
save_lead a store = record store {
  leads = λ id. if eq_text id a.state.id then some (record a { pending = [] }) else store.leads id;
}

-- `clients.save` of a client that is new.
abbrev pub save_client : Client → Store → Store
save_client c store = record store { clients = push store.clients (record c { pending = [] }) }

-- The end of a use case, where the lead was asked to change.
abbrev pub lead_saved {ℓ} :
    {A : Type ℓ}
    → A
    → Outcome LeadConflict (Unit {0}) × Lead
    → Store
    → Outcome WorkflowConflict A × Store
lead_saved r (ok _, a) store = (ok r, save_lead a store)
lead_saved r (err e, a) store = (err (not_moved e), store)
lead_saved r (threw e, a) store = (threw e, store)

-- `move`
abbrev move_found :
    LeadStatus
    → Option Text
    → Instant
    → Option Lead
    → Store
    → Outcome WorkflowConflict (Unit {0}) × Store
move_found to why now none store = (err no_such_enquiry, store)
move_found to why now (some a) store = lead_saved tt (move_to to now why a) store

unfoldable pub move :
    Text → LeadStatus → Option Text → Instant → Store → Outcome WorkflowConflict (Unit {0}) × Store
move id to why now store = move_found to why now (store.leads id) store

abbrev pub new_client : Text → Text → Instant → Result ClientConflict Client
new_client id legal_name now = onboard (record {
  id = id;
  legal_name = trim legal_name;
  legal_name_arabic = none;
  trade_licence_number = none;
  now = now;
})

-- The end of `quote`: the client is saved once the lead is quoted.
abbrev quote_onboarded :
    Text
    → Instant
    → Lead
    → Result ClientConflict Client
    → Store
    → Outcome WorkflowConflict Text × Store
quote_onboarded client_id now a (Result.err e) store = (err (not_onboarded e), store)
quote_onboarded client_id now a (Result.ok c) store = elim (quote_as client_id now a).0 [
  | ok _ ↦ lead_saved client_id (quote_as client_id now a) (save_client c store)
  | err e ↦ (err (not_moved e), store)
  | threw e ↦ (threw e, store)
]

abbrev quote_found :
    (ℕ → Text) → Text → Instant → Option Lead → Store → Outcome WorkflowConflict Text × Store
quote_found ids legal_name now none store = (err no_such_enquiry, store)
quote_found ids legal_name now (some a) store =
    let id = ids store.taken in
    quote_onboarded id now a (new_client id legal_name now)
      (record store { taken = store.taken + 1 })

-- `quote`
unfoldable pub quote :
    (ℕ → Text) → Text → Text → Instant → Store → Outcome WorkflowConflict Text × Store
quote ids id legal_name now store = quote_found ids legal_name now (store.leads id) store

-- The end of `convert`: the client is saved before the lead is asked.
abbrev convert_onboarded :
    Text
    → Instant
    → Lead
    → Result ClientConflict Client
    → Store
    → Outcome WorkflowConflict Text × Store
convert_onboarded client_id now a (Result.err e) store = (err (not_onboarded e), store)
convert_onboarded client_id now a (Result.ok c) store =
    lead_saved client_id (convert_to client_id now a) (save_client c store)

abbrev pub convert_lead :
    (ℕ → Text) → Text → Instant → Lead → Option Text → Store → Outcome WorkflowConflict Text × Store
convert_lead ids legal_name now a (some client_id) store =
    lead_saved client_id (convert_to client_id now a) store
convert_lead ids legal_name now a none store =
    let id = ids store.taken in
    convert_onboarded id now a (new_client id legal_name now)
      (record store { taken = store.taken + 1 })

abbrev convert_found :
    (ℕ → Text) → Text → Instant → Option Lead → Store → Outcome WorkflowConflict Text × Store
convert_found ids legal_name now none store = (err no_such_enquiry, store)
convert_found ids legal_name now (some a) store =
    convert_lead ids legal_name now a a.state.converted_client_id store

-- `convert`
unfoldable pub convert :
    (ℕ → Text) → Text → Text → Instant → Store → Outcome WorkflowConflict Text × Store
convert ids id legal_name now store = convert_found ids legal_name now (store.leads id) store
