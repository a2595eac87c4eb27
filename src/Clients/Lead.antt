-- ===== src/Clients/Lead.antt =====
-- packages/modules/clients/domain/lead.ts: an enquiry, from its capture to a client or a refusal.
pub mod Pipeline
use amc_system.Base.{
  ℕ, Bool, true, false, not, Option, none, some, List, [], ◌∷◌, any, is_some, ◌==◌, get_or,
  if◌then◌else◌,
}
use amc_system.Base.Text.{Text, trim, is_empty, non_blank}
use amc_system.Kernel.Result as Result
use amc_system.Kernel.Result.{Result}
use amc_system.Kernel.Aggregate.{
  Aggregate, Method, ok, err, threw, ◌>>=◌, ◌>>◌, pure, refuse_if, this_state, assign, emit,
}
use amc_system.Kernel.Duration.{Instant}

pub data LeadSource : Type 0 where
  whatsapp phone referral advertisement walk_in website other : LeadSource

pub data LeadStatus : Type 0 where
  new contacted quoted confirmed declined : LeadStatus

abbrev status_number : LeadStatus → ℕ
status_number new = 0
status_number contacted = 1
status_number quoted = 2
status_number confirmed = 3
status_number declined = 4

-- `a === b` on statuses.
abbrev pub eq_status : LeadStatus → LeadStatus → Bool
eq_status a b = status_number a == status_number b

-- `ALLOWED`
abbrev pub allowed : LeadStatus → List LeadStatus
allowed new = contacted ∷ declined ∷ []
allowed contacted = quoted ∷ declined ∷ contacted ∷ []
allowed quoted = confirmed ∷ declined ∷ contacted ∷ []
allowed confirmed = []
allowed declined = []

pub record LeadState : Type 0 where
  pub id : Text
  pub name : Text
  pub phone : Option Text
  pub email : Option Text
  pub source : LeadSource
  pub source_detail : Option Text
  pub campaign_id : Option Text
  pub requested_service : Option Text
  pub status : LeadStatus
  pub converted_client_id : Option Text
  pub received_at : Instant
  pub notes : Option Text

-- The argument of `Lead.capture`.
pub record CaptureParams : Type 0 where
  pub id : Text
  pub name : Text
  pub phone : Option Text
  pub email : Option Text
  pub source : LeadSource
  pub source_detail : Option Text
  pub campaign_id : Option Text
  pub notes : Option Text
  pub requested_service : Option Text
  pub now : Instant

pub data LeadConflict : Type 0 where
  no_name no_way_to_reach not_allowed has_client_already not_to_be_quoted : LeadConflict
  confirmed_already was_declined : LeadConflict

pub data LeadEvent : Type 0 where
  captured : Text → Instant → LeadSource → Option Text → Option Text → LeadEvent
  status_changed : Text → Instant → LeadStatus → LeadStatus → LeadEvent
  quoted_as : Text → Instant → Text → LeadSource → LeadEvent
  converted : Text → Instant → Text → LeadSource → LeadEvent

abbrev pub Lead : Type 0
Lead = Aggregate LeadState LeadEvent

abbrev pub LeadMethod : Type 0 → Type 0
LeadMethod = Method LeadState LeadEvent LeadConflict

abbrev captured_lead : CaptureParams → Lead
captured_lead p = record {
  state = record {
    id = p.id;
    name = trim p.name;
    phone = non_blank p.phone;
    email = non_blank p.email;
    source = p.source;
    source_detail = non_blank p.source_detail;
    campaign_id = p.campaign_id;
    requested_service = non_blank p.requested_service;
    status = new;
    converted_client_id = none;
    received_at = p.now;
    notes = non_blank p.notes;
  };
  pending = captured p.id p.now p.source p.campaign_id p.requested_service ∷ [];
}

-- `capture`
unfoldable pub capture : CaptureParams → Result LeadConflict Lead
capture p =
    if is_empty (trim p.name)
    then Result.err no_name
    else if is_some (non_blank p.phone)
    then Result.ok (captured_lead p)
    else if is_some (non_blank p.email)
    then Result.ok (captured_lead p)
    else Result.err no_way_to_reach

-- `a || b` on texts.
abbrev or_else : Option Text → Option Text → Option Text
or_else (some a) b = some a
or_else none b = b

-- `moveTo`
unfoldable pub move_to : LeadStatus → Instant → Option Text → LeadMethod (Unit {0})
move_to status now note = do
  s ← this_state
  refuse_if (not (any (λ next. eq_status next status) (allowed s.status))) not_allowed
  assign (record s { status = status; notes = or_else (non_blank note) s.notes })
  emit (status_changed s.id now s.status status)

-- `quotedAs`
unfoldable pub quote_as : Text → Instant → LeadMethod (Unit {0})
quote_as client_id now = do
  s ← this_state
  refuse_if (is_some s.converted_client_id) has_client_already
  refuse_if (not (any (λ next. eq_status next quoted) (allowed s.status))) not_to_be_quoted
  assign (record s { status = quoted; converted_client_id = some client_id })
  emit (quoted_as s.id now client_id s.source)

-- `convertTo`
unfoldable pub convert_to : Text → Instant → LeadMethod (Unit {0})
convert_to client_id now = do
  s ← this_state
  refuse_if (eq_status s.status confirmed) confirmed_already
  refuse_if (eq_status s.status declined) was_declined
  assign (record s {
    status = confirmed;
    converted_client_id = some (get_or s.converted_client_id client_id);
  })
  emit (converted s.id now (get_or s.converted_client_id client_id) s.source)

-- The calls that change a lead.
pub data Command : Type 0 where
  move : LeadStatus → Instant → Option Text → Command
  quote : Text → Instant → Command
  convert : Text → Instant → Command

unfoldable pub execute : Command → LeadMethod (Unit {0})
execute (move status now note) = move_to status now note
execute (quote client_id now) = quote_as client_id now
execute (convert client_id now) = convert_to client_id now
