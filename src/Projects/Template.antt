-- ===== src/Projects/Template.antt =====
-- packages/modules/projects/domain/service-template.ts: what a service consists of. The table of the
-- built-in services is a parameter of what reads it.
use amc_system.Base.{ℕ, Bool, List}
use amc_system.Base.Text.{Text}

pub data Recurrence : Type 0 where
  once monthly per_vat_period per_financial_year : Recurrence

pub data DeadlineRule : Type 0 where
  vat_return ct_return manual : DeadlineRule
  days_from_start : ℕ → DeadlineRule

pub record TemplateTask : Type 0 where
  pub order : ℕ
  pub name_en : Text
  pub name_ar : Text

pub record RequiredDocument : Type 0 where
  pub type : Text
  pub mandatory : Bool

pub record ServiceTemplate : Type 0 where
  pub code : Text
  pub name_en : Text
  pub name_ar : Text
  pub recurrence : Recurrence
  pub deadline : DeadlineRule
  pub tasks : List TemplateTask
  pub required_documents : List RequiredDocument
