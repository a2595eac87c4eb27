-- ===== src/Billing/Quotation/State.antt =====
-- packages/modules/billing/domain/quotation.ts: the data of a quotation.
use amc_system.Base.{Option, List}
use amc_system.Base.Int.{ℤ}
use amc_system.Base.Text.{Text}
use amc_system.Kernel.Money.{Money, Currency}
use amc_system.Kernel.Duration.{Instant}

pub data SentVia : Type 0 where
  email by_hand : SentVia

pub data DecidedBy : Type 0 where
  client staff : DecidedBy

-- `QuotationState`
pub data Standing : Type 0 where
  draft sent accepted declined expired : Standing

-- `LinePricing`. Hours are given to two decimal places, and kept in hundredths.
pub data Pricing : Type 0 where
  hours : ℤ → Money → Pricing
  fixed : Money → Pricing

pub record QuotationLine : Type 0 where
  pub id : Text
  pub service_code : Option Text
  pub description_en : Text
  pub description_ar : Text
  pub pricing : Pricing
  pub discount : Money
  pub vat_basis_points : Option ℤ

pub record QuotationSnapshot : Type 0 where
  pub id : Text
  pub client_id : Text
  pub branch_code : Option Text
  pub reference : Text
  pub state : Standing
  pub currency : Currency
  pub lines : List QuotationLine
  pub valid_until : Option Instant
  pub sent_at : Option Instant
  pub sent_via : Option SentVia
  pub link_token_hash : Option Text
  pub link_expires_at : Option Instant
  pub link_opened_at : Option Instant
  pub decided_by : Option DecidedBy
  pub decided_at : Option Instant
  pub notes_en : Option Text
  pub notes_ar : Option Text
  pub created_by : Text
  pub created_at : Instant

-- The argument of `Quotation.draft`.
pub record DraftParams : Type 0 where
  pub id : Text
  pub client_id : Text
  pub reference : Text
  pub currency : Currency
  pub created_by : Text
  pub branch_code : Option Text
  pub valid_until : Option Instant
  pub notes_en : Option Text
  pub notes_ar : Option Text
  pub now : Instant

-- One constructor for each `new Conflict(…)`.
pub data QuotationConflict : Type 0 where
  no_reference not_a_draft_any_more no_description other_currency negative_amount :
      QuotationConflict
  no_hours negative_discount discount_above_amount not_a_vat_rate no_such_line : QuotationConflict
  only_a_draft_is_sent no_lines expired_already answered_already link_too_short : QuotationConflict
  never_sent not_expired_yet not_with_client : QuotationConflict

-- The figures that an event reports: net, VAT, discount where it is told, and total.
pub record Figures : Type 0 where
  pub net_minor : ℤ
  pub vat_minor : ℤ
  pub discount_minor : Option ℤ
  pub total_minor : ℤ

-- The domain events, with the aggregate's id, the instant and the payload.
pub data QuotationEvent : Type 0 where
  branch_set : Text → Instant → Text → Option Text → Option Text → QuotationEvent
  sent : Text → Instant → Text → Text → Figures → Currency → QuotationEvent
  link_issued : Text → Instant → Text → Instant → QuotationEvent
  opened : Text → Instant → Text → QuotationEvent
  expired : Text → Instant → Text → QuotationEvent
  accepted declined : Text → Instant → Text → Figures → Currency → DecidedBy → QuotationEvent
