-- ===== src/Projects/Recurrence/Tests.antt =====
-- The sweep for one client, and the periods at concrete dates.
use amc_system.Base.{◌≡◌, refl, some, none, List, [], ◌∷◌, arith}
use amc_system.Base.Int.{pos, ◌+ℤ◌, ◌-ℤ◌, ◌*ℤ◌}
use amc_system.Base.Text.{text, eq_text}
use amc_system.Base.Digits.{decimal}
use amc_system.Base.Date.{utc, civil_of, day_of_civil}
use amc_system.Kernel.Throws.{Throws}
use amc_system.Clients.TaxPeriod.{
  ClientCycle, client_cycle_from, ending_in, vat_period_from, year_end_for, key_for,
}
use amc_system.Projects.Template.{ServiceTemplate, DeadlineRule, monthly, per_financial_year}
use amc_system.Projects.Recurrence.{period_for, next_period, corporate_tax_due_date}
use amc_system.Projects.Recurrence.Sweep.{Tables, Setting, CreatedProject, sweep}
use amc_system.Projects.Recurrence.Sweep.Fresh.{AreDistinct}
use amc_system.Projects.Recurrence.Sweep.Single.{IsSingle}
use amc_system.Projects.Recurrence.Sweep.Twice.{sweep_twice}

-- A client whose financial year ends in February.
abbrev february : ClientCycle
february = client_cycle_from (record {
  id = text "c1";
  vat_frequency = none;
  vat_anchor_end_month = none;
  financial_year_end_month = some (pos 2);
})

-- On 10 March 2027 the year to 28 February 2027 has closed. The sweep opens the one to February 2028.
missed_year :
    period_for per_financial_year (some february) (utc (pos 2_027) (pos 2) (pos 10))
    ≡ some (record { key = text "FY2028"; due_at = utc (pos 2_027) (pos 11) (pos 1) })
unfolding period_for client_cycle_from vat_period_from ending_in year_end_for key_for
    corporate_tax_due_date utc civil_of day_of_civil decimal ◌+ℤ◌ ◌-ℤ◌ ◌*ℤ◌
missed_year = refl

-- The month after one, with the 20th of the month behind it.
next_month_is_due :
    next_period monthly (text "2025-12") none (pos 0)
    ≡ some (record { key = text "2026-01"; due_at = utc (pos 2_026) (pos 1) (pos 20) })
unfolding next_period utc civil_of day_of_civil decimal ◌+ℤ◌ ◌-ℤ◌ ◌*ℤ◌
next_month_is_due = refl

abbrev bookkeeping : ServiceTemplate
bookkeeping = record {
  code = text "monthly_accounting";
  name_en = text "Monthly accounting";
  name_ar = [];
  recurrence = monthly;
  deadline = DeadlineRule.manual;
  tasks = [];
  required_documents = [];
}

abbrev setting : Setting
setting = record {
  service = text "monthly_accounting";
  template_for = λ _. some bookkeeping;
  id_at = λ n. n ∷ [];
  cycles = λ _. none;
  now = utc (pos 2_026) (pos 5) (pos 10);
}

abbrev tables : Tables
tables = record {
  services =
      record {
        id = text "s1";
        client_id = text "c1";
        service = text "monthly_accounting";
        active_from = pos 0;
        active_to = none;
      }
      ∷ [];
  projects = [];
  issued = 0;
}

distinct : AreDistinct setting.id_at
unfolding eq_text
distinct m n h = ground arith

sweep_twice_example :
    (created : List CreatedProject) × ((sweep setting tables).0 ≡ Throws.done created)
    × IsSingle (sweep setting tables).1
    × (sweep setting (sweep setting tables).1 ≡ (Throws.done [], (sweep setting tables).1))
sweep_twice_example = sweep_twice setting tables distinct (λ n h. tt) (λ id key. omega arith)
