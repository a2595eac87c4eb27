-- ===== src/Billing/Statement/Lines.antt =====
-- `replace` of statement.ts: a line gives way to its revision.
use amc_system.Base.{
  ◌≡◌, refl, ap, ap₂, sym, ◌∙◌, true, false, List, [], ◌∷◌, map, arith, any, some, Option,
  Bool-cases, inl, inr,
}
use amc_system.Base.Text.{Text, eq_text, eq_text_refl, eq_of_eq_text}
use amc_system.Kernel.Duration.{Instant, Duration}
use amc_system.Billing.Statement.State.{Pricing, StatementLine}
use amc_system.Billing.Statement.{line_with, replace_line}

-- What a line says of the work itself, whatever is billed for it.
pub record Work : Type 0 where
  pub id : Text
  pub project_id : Text
  pub service : Text
  pub performed_on : Instant
  pub user_id : Option Text
  pub worked : Duration
  pub pricing : Pricing
  pub entry_ids : List Text

abbrev pub work_of : StatementLine → Work
work_of line = record {
  id = line.id;
  project_id = line.project_id;
  service = line.service;
  performed_on = line.performed_on;
  user_id = line.user_id;
  worked = line.worked;
  pricing = line.pricing;
  entry_ids = line.entry_ids;
}

-- No two lines have one id.
abbrev pub AreDistinct : List Work → Type 0
AreDistinct [] = Unit
AreDistinct (w ∷ ws) = (any (λ v. eq_text v.id w.id) ws ≡ false) × AreDistinct ws

replace_line-absent :
    (line : StatementLine) (lines : List StatementLine)
    → any (λ w. eq_text w.id line.id) (map work_of lines) ≡ false
    → map work_of (replace_line line lines) ≡ map work_of lines
replace_line-absent line [] h = refl
replace_line-absent line (c ∷ lines) h = ground (arith, replace_line-absent line lines)

-- A line that is found has the id that was asked for.
pub line_with-id :
    (line_id : Text) (lines : List StatementLine) (line : StatementLine)
    → line_with line_id lines ≡ some line
    → line.id ≡ line_id
line_with-id line_id [] line h = cc
line_with-id line_id (c ∷ lines) line h =
    ground (arith, eq_of_eq_text c.id line_id, line_with-id line_id lines line)

some_injective : {a b : StatementLine} → some a ≡ some b → a ≡ b
some_injective h = cc

replaced_here :
    (c revised : StatementLine) (lines : List StatementLine)
    → work_of revised ≡ work_of c
    → any (λ w. eq_text w.id c.id) (map work_of lines) ≡ false
    → map work_of (replace_line revised (c ∷ lines)) ≡ map work_of (c ∷ lines)
replaced_here c revised lines e alone =
    let same : revised.id ≡ c.id = ap (λ w. w.id) e in
    let hit : eq_text c.id revised.id ≡ true = rw same (eq_text_refl c.id) in
    let others : any (λ w. eq_text w.id revised.id) (map work_of lines) ≡ false = rw same alone in
    rw hit (ap₂ (λ w ws. w ∷ ws) e (replace_line-absent revised lines others))

replaced_later :
    (c revised : StatementLine) (lines : List StatementLine)
    → eq_text c.id revised.id ≡ false
    → map work_of (replace_line revised lines) ≡ map work_of lines
    → map work_of (replace_line revised (c ∷ lines)) ≡ map work_of (c ∷ lines)
replaced_later c revised lines miss rest = rw miss (ap (λ ws. work_of c ∷ ws) rest)

-- A revision that keeps a line's work keeps the work of all lines.
pub replace_line-work :
    (line_id : Text) (lines : List StatementLine) (line revised : StatementLine)
    → AreDistinct (map work_of lines)
    → line_with line_id lines ≡ some line
    → work_of revised ≡ work_of line
    → map work_of (replace_line revised lines) ≡ map work_of lines
replace_line-work line_id [] line revised d h e = refl
replace_line-work line_id (c ∷ lines) line revised d h e =
    elim (Bool-cases (eq_text c.id line_id)) [
      | inl here ↦
          let found : c ≡ line = some_injective (sym (found_here here) ∙ h) in
          replaced_here c revised lines (e ∙ ap work_of (sym found)) d.0
      | inr later ↦
          let rest : line_with line_id lines ≡ some line = sym (found_later later) ∙ h in
          let id : revised.id ≡ line_id = ap (λ w. w.id) e ∙ line_with-id line_id lines line rest in
          replaced_later c revised lines (rw id later)
            (replace_line-work line_id lines line revised d.1 rest e)
    ]
  where
    found_here : eq_text c.id line_id ≡ true → line_with line_id (c ∷ lines) ≡ some c
    found_here e = rw e

    found_later :
        eq_text c.id line_id ≡ false → line_with line_id (c ∷ lines) ≡ line_with line_id lines
    found_later e = rw e
