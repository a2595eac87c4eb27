-- ===== src/Billing/Store/Attaching.antt =====
-- Rows that are attached to lines or freed from them (adapters.ts).
use amc_system.Base.{
  ◌≡◌, refl, sym, subst, ◌∙◌, Bool, true, ◌||◌, List, [], ◌∷◌, ◌++◌, map, filter, any, flat_map,
  All, is_some, arith, Bool-cases, inl, inr,
}
use amc_system.Base.Text.{Text, eq_text, eq_text_refl}
use amc_system.Kernel.Duration.{Instant}
use amc_system.Billing.Statement.State.{StatementLine}
use amc_system.Billing.Store.{Row, is_unbilled, is_named, attached}

-- `x` is among the ids.
abbrev pub Among : Text → List Text → Type 0
Among x ids = any (λ y. eq_text y x) ids ≡ true

pub any-append :
    (x : Text) (es fs : List Text)
    → any (λ y. eq_text y x) (es ++ fs) ≡ any (λ y. eq_text y x) es || any (λ y. eq_text y x) fs
any-append x [] fs = refl
any-append x (e ∷ es) fs = ground (arith, any-append x es fs)

-- Every row of a test is named, where the ids name what the test lets through.
pub rows_named :
    (test : Row → Bool) (rows : List Row) (ids : List Text)
    → ((x : Text) → Among x (map (λ row. row.work.entry_id) (filter test rows)) → Among x ids)
    → All (λ row. test row ≡ true → is_named ids row ≡ true) rows
rows_named test [] ids h = tt
rows_named test (row ∷ rows) ids h = (here, rows_named test rows ids later)
  where
    here : test row ≡ true → is_named ids row ≡ true
    here e = h row.work.entry_id (rw e (ground (arith, eq_text_refl row.work.entry_id)))

    later : (x : Text) → Among x (map (λ r. r.work.entry_id) (filter test rows)) → Among x ids
    later x k = elim (Bool-cases (test row)) [
      | inl kept ↦ h x (rw kept (ground (arith, k)))
      | inr passed ↦ h x (rw passed k)
    ]

abbrev pub named_on : List StatementLine → List Text
named_on lines = flat_map (λ line. line.entry_ids) lines

-- A row after the loop that attaches the hours of the lines.
unfoldable pub attached_by : List StatementLine → Row → Row
attached_by [] row = row
attached_by (line ∷ lines) row = attached_by lines (attached line.id line.entry_ids row)

-- Attaching changes nothing of a row but the line, and takes no row off its line.
pub attached_by-held :
    (lines : List StatementLine) (row : Row)
    → is_some row.statement_line_id ≡ true
    → attached_by lines row ≡ row
unfolding attached_by
attached_by-held [] row h = refl
attached_by-held (line ∷ lines) row h =
    let same : attached line.id line.entry_ids row ≡ row = ground arith in
    rw same (attached_by-held lines row h)

pub attached_by-work :
    (lines : List StatementLine) (row : Row) → (attached_by lines row).work ≡ row.work
unfolding attached_by
attached_by-work [] row = refl
attached_by-work (line ∷ lines) row =
    let same : (attached line.id line.entry_ids row).work ≡ row.work = ground arith in
    attached_by-work lines (attached line.id line.entry_ids row) ∙ same

pub attached_by-named :
    (lines : List StatementLine) (row : Row)
    → is_named (named_on lines) row ≡ true
    → is_some (attached_by lines row).statement_line_id ≡ true
unfolding attached_by
attached_by-named [] row h = cc
attached_by-named (line ∷ lines) row h = elim (Bool-cases (is_named line.entry_ids row)) [
  | inl here ↦
      let row' = attached line.id line.entry_ids row in
      let held : is_some row'.statement_line_id ≡ true = ground arith in
      subst (λ r. is_some r.statement_line_id ≡ true) (sym (attached_by-held lines row' held)) held
  | inr elsewhere ↦
      let same : attached line.id line.entry_ids row ≡ row = ground arith in
      let rest : is_named (named_on lines) row ≡ true =
        ground (arith, any-append row.work.entry_id line.entry_ids (named_on lines)) in
      subst (λ r. is_some (attached_by lines r).statement_line_id ≡ true) (sym same)
        (attached_by-named lines row rest)
]

attached-unbilled :
    (client_id : Text) (from to : Instant) (line_id : Text) (ids : List Text) (row : Row)
    → is_unbilled client_id from to (attached line_id ids row) ≡ true
    → is_unbilled client_id from to row ≡ true
unfolding is_unbilled
attached-unbilled client_id from to line_id ids row h =
    elim (Bool-cases (is_some row.statement_line_id)) [
      | inl held ↦ ground arith
      | inr free ↦ ground arith
    ]

pub attached_by-unbilled :
    (client_id : Text) (from to : Instant) (lines : List StatementLine) (row : Row)
    → is_unbilled client_id from to (attached_by lines row) ≡ true
    → is_unbilled client_id from to row ≡ true
unfolding attached_by
attached_by-unbilled client_id from to [] row h = h
attached_by-unbilled client_id from to (line ∷ lines) row h =
    attached-unbilled client_id from to line.id line.entry_ids row
      (attached_by-unbilled client_id from to lines (attached line.id line.entry_ids row) h)
