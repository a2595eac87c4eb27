-- ===== src/Clients/Client.antt =====
-- packages/modules/clients/domain/client.ts: the record of a client, and how one begins.
use amc_system.Base.{ℕ, Option, none, [], ◌∷◌, if◌then◌else◌}
use amc_system.Base.Text.{Text, trim, is_empty, non_blank}
use amc_system.Kernel.Result.{Result}
use amc_system.Kernel.Aggregate.{Aggregate}
use amc_system.Kernel.Duration.{Instant}
use amc_system.Clients.RateHistory.{RateHistory}

pub data ClientStatus : Type 0 where
  active dormant closed : ClientStatus

pub data RegistrationState : Type 0 where
  not_registered registered deregistered : RegistrationState

pub record TaxRegistration : Type 0 where
  pub state : RegistrationState
  pub trn : Option Text
  pub registered_on : Option Instant
  pub deregistered_on : Option Instant

-- `NOT_REGISTERED`
abbrev pub unregistered : TaxRegistration
unregistered = record {
  state = not_registered;
  trn = none;
  registered_on = none;
  deregistered_on = none;
}

pub data VatFrequency : Type 0 where
  monthly quarterly : VatFrequency

pub record VatPeriods : Type 0 where
  pub frequency : VatFrequency
  pub anchor_end_month : ℕ

pub record FinancialYear : Type 0 where
  pub end_month : ℕ

pub record ClientState : Type 0 where
  pub id : Text
  pub legal_name : Text
  pub legal_name_arabic : Option Text
  pub trade_licence_number : Option Text
  pub contact_person : Option Text
  pub contact_email : Option Text
  pub mobile : Option Text
  pub landline : Option Text
  pub weekly_day_off : Option ℕ
  pub address : Option Text
  pub opens_at : Option Text
  pub closes_at : Option Text
  pub vat_remark : Option Text
  pub ct_remark : Option Text
  pub tax_login_method : Option Text
  pub status : ClientStatus
  pub vat : TaxRegistration
  pub corporate_tax : TaxRegistration
  pub vat_periods : Option VatPeriods
  pub financial_year : Option FinancialYear
  pub rates : RateHistory
  pub onboarded_on : Instant
  pub notes : Option Text

pub data ClientConflict : Type 0 where
  no_legal_name : ClientConflict

pub data ClientEvent : Type 0 where
  onboarded : Text → Instant → Text → ClientEvent

abbrev pub Client : Type 0
Client = Aggregate ClientState ClientEvent

-- The argument of `Client.onboard`.
pub record OnboardParams : Type 0 where
  pub id : Text
  pub legal_name : Text
  pub legal_name_arabic : Option Text
  pub trade_licence_number : Option Text
  pub now : Instant

abbrev pub onboarded_client : OnboardParams → Client
onboarded_client p = record {
  state = record {
    id = p.id;
    legal_name = trim p.legal_name;
    legal_name_arabic = non_blank p.legal_name_arabic;
    trade_licence_number = non_blank p.trade_licence_number;
    contact_person = none;
    contact_email = none;
    mobile = none;
    landline = none;
    weekly_day_off = none;
    address = none;
    opens_at = none;
    closes_at = none;
    vat_remark = none;
    ct_remark = none;
    tax_login_method = none;
    status = active;
    vat = unregistered;
    corporate_tax = unregistered;
    vat_periods = none;
    financial_year = none;
    rates = [];
    onboarded_on = p.now;
    notes = none;
  };
  pending = onboarded p.id p.now (trim p.legal_name) ∷ [];
}

-- `onboard`
unfoldable pub onboard : OnboardParams → Result ClientConflict Client
onboard p =
    if is_empty (trim p.legal_name)
    then Result.err no_legal_name
    else Result.ok (onboarded_client p)
