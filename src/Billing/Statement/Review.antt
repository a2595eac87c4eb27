-- ===== src/Billing/Statement/Review.antt =====
-- The review of a statement (statement.ts), and the work that stands behind its lines.
use amc_system.Base.{
  ◌≡◌, refl, ap, sym, subst, ◌∙◌, List, [], ◌∷◌, ◌++◌, map, arith, some, none, Option-cases, inl,
  inr, ◌⊎◌, flat_map,
}
use amc_system.Base.Text.{Text, trim}
use amc_system.Kernel.Throws as Throws
use amc_system.Kernel.Throws.{Throws, done, Throws-cases}
use amc_system.Kernel.Aggregate.{run_all, run_all-keeps}
use amc_system.Kernel.Money.{Money}
use amc_system.Kernel.Duration.{Instant, sum_durations}
use amc_system.Billing.Statement.State.{StatementLine}
use amc_system.Billing.Statement.{
  Statement, Command, leave_out, put_back, bill_at, sign_off, send_back, convert, call_off, execute,
  exclude, restore, adjust, approve, reopen, mark_invoiced, cancel, revise_line, line_with,
  replace_line, excluded_for, adjusted_for, restored, total_worked, entry_ids, worth, amounts_of,
  as_worked,
}
use amc_system.Billing.Statement.Lines.{Work, work_of, AreDistinct, replace_line-work}

-- The work on a statement.
abbrev pub works : Statement → List Work
works a = map work_of a.state.lines

-- The lines that a call leaves: those before it, or these with one found line revised.
Revises : Text → (StatementLine → StatementLine) → Statement → Statement → Type 0
Revises line_id change a a' =
    (a'.state.lines ≡ a.state.lines)
    ⊎ ((line : StatementLine) × (line_with line_id a.state.lines ≡ some line)
        × (a'.state.lines ≡ replace_line (change line) a.state.lines))

-- With the found line in hand, a revision is refused or made.
revised_or_not :
    (line_id reason : Text) (now : Instant) (change : StatementLine → Text → StatementLine)
    (a : Statement) (line : StatementLine)
    → line_with line_id a.state.lines ≡ some line
    → ((revise_line line_id reason now change a).1.state.lines ≡ a.state.lines)
      ⊎ ((revise_line line_id reason now change a).1.state.lines
          ≡ replace_line (change line (trim reason)) a.state.lines)
unfolding revise_line
revised_or_not line_id reason now change a line found = rw found (grind arith)

restored_or_not :
    (line_id : Text) (now : Instant) (a : Statement) (line : StatementLine)
    → line_with line_id a.state.lines ≡ some line
    → ((restore line_id now a).1.state.lines ≡ a.state.lines)
      ⊎ ((restore line_id now a).1.state.lines ≡ replace_line (restored line) a.state.lines)
unfolding restore
restored_or_not line_id now a line found = rw found (grind arith)

revise_line-Revises :
    (line_id reason : Text) (now : Instant) (change : StatementLine → Text → StatementLine)
    (a : Statement)
    → Revises line_id
        (λ line. change line (trim reason))
        a
        (revise_line line_id reason now change a).1
unfolding Revises
revise_line-Revises line_id reason now change a =
    elim (Option-cases (line_with line_id a.state.lines)) [
      | inl missing ↦ inl (unrevised missing)
      | inr (line, found) ↦ elim (revised_or_not line_id reason now change a line found) [
        | inl same ↦ inl same
        | inr revised ↦ inr (line, found, revised)
      ]
    ]
  where
    unrevised :
        line_with line_id a.state.lines ≡ none
        → (revise_line line_id reason now change a).1.state.lines ≡ a.state.lines
    unrevised missing = unfold revise_line in rw missing (ground arith)

restore-Revises :
    (line_id : Text) (now : Instant) (a : Statement)
    → Revises line_id restored a (restore line_id now a).1
unfolding Revises restore
restore-Revises line_id now a = elim (Option-cases (line_with line_id a.state.lines)) [
  | inl missing ↦ inl (rw missing (ground arith))
  | inr (line, found) ↦ elim (restored_or_not line_id now a line found) [
    | inl same ↦ inl same
    | inr revised ↦ inr (line, found, revised)
  ]
]

-- An adjustment is refused at once, or is a revision.
pub adjust-cases :
    (line_id : Text) (to : Money) (reason : Text) (now : Instant) (a : Statement)
    → ((adjust line_id to reason now a).1 ≡ a)
      ⊎ (adjust line_id to reason now a ≡ revise_line line_id reason now (adjusted_for to) a)
unfolding adjust
adjust-cases line_id to reason now a = grind arith

Revises-work :
    (line_id : Text) (change : StatementLine → StatementLine) (a a' : Statement)
    → ((line : StatementLine) → work_of (change line) ≡ work_of line)
    → AreDistinct (works a)
    → Revises line_id change a a'
    → works a' ≡ works a
unfolding Revises
Revises-work line_id change a a' keeps d (inl same) = ap (map work_of) same
Revises-work line_id change a a' keeps d (inr (line, found, revised)) =
    ap (map work_of) revised
    ∙ replace_line-work line_id a.state.lines line (change line) d found (keeps line)

approve-lines :
    (user_id : Text) (now : Instant) (a : Statement)
    → (approve user_id now a).1.state.lines ≡ a.state.lines
unfolding approve
approve-lines user_id now a = ground arith

reopen-lines : (now : Instant) (a : Statement) → (reopen now a).1.state.lines ≡ a.state.lines
unfolding reopen
reopen-lines now a = ground arith

mark_invoiced-lines :
    (now : Instant) (a : Statement) → (mark_invoiced now a).1.state.lines ≡ a.state.lines
unfolding mark_invoiced
mark_invoiced-lines now a = ground arith

cancel-lines :
    (reason : Text) (now : Instant) (a : Statement)
    → (cancel reason now a).1.state.lines ≡ a.state.lines
unfolding cancel
cancel-lines reason now a = ground arith

-- One call keeps the work of lines with distinct ids.
pub execute-works :
    (c : Command) (a : Statement) → AreDistinct (works a) → works (execute c a).1 ≡ works a
unfolding execute exclude
execute-works (leave_out line_id reason now) a d =
    Revises-work line_id (λ line. excluded_for line (trim reason)) a _ (λ line. refl) d
      (revise_line-Revises line_id reason now excluded_for a)
execute-works (put_back line_id now) a d =
    Revises-work line_id restored a _ (λ line. refl) d (restore-Revises line_id now a)
execute-works (bill_at line_id to reason now) a d = elim (adjust-cases line_id to reason now a) [
  | inl same ↦ ap works same
  | inr revision ↦
      ap (λ r. works r.1) revision
      ∙ Revises-work line_id (λ line. adjusted_for to line (trim reason)) a _ (λ line. refl) d
          (revise_line-Revises line_id reason now (adjusted_for to) a)
]
execute-works (sign_off user_id now) a d = ap (map work_of) (approve-lines user_id now a)
execute-works (send_back now) a d = ap (map work_of) (reopen-lines now a)
execute-works (convert now) a d = ap (map work_of) (mark_invoiced-lines now a)
execute-works (call_off reason now) a d = ap (map work_of) (cancel-lines reason now a)

run_all-works :
    (cs : List Command) (a : Statement)
    → AreDistinct (works a)
    → works (run_all execute cs a) ≡ works a
run_all-works cs a d =
    run_all-keeps (λ b. works b ≡ works a) execute
      (λ c b e. execute-works c b (subst AreDistinct (sym e) d) ∙ e) cs a refl

-- The figures that are read off the work alone.
amounts_of_works : List Work → Throws (List Money)
amounts_of_works [] = done []
amounts_of_works (w ∷ ws) =
    Throws.◌>>=◌ (worth w.pricing w.worked)
      (λ m. Throws.◌>>=◌ (amounts_of_works ws) (λ ms. done (m ∷ ms)))

amounts_of-works :
    (lines : List StatementLine) → amounts_of as_worked lines ≡ amounts_of_works (map work_of lines)
unfolding amounts_of amounts_of_works
amounts_of-works [] = refl
amounts_of-works (line ∷ lines) = rw (amounts_of-works lines)

entry_ids-works :
    (lines : List StatementLine)
    → flat_map (λ line. line.entry_ids) lines ≡ flat_map (λ w. w.entry_ids) (map work_of lines)
entry_ids-works [] = refl
entry_ids-works (line ∷ lines) = ap (λ ids. line.entry_ids ++ ids) (entry_ids-works lines)

worked-works :
    (lines : List StatementLine)
    → map (λ line. line.worked) lines ≡ map (λ w. w.worked) (map work_of lines)
worked-works [] = refl
worked-works (line ∷ lines) = ap (λ ds. line.worked ∷ ds) (worked-works lines)

-- Whatever is called on a statement whose lines have distinct ids, in any order: the time entries
-- behind it, the hours on it and what each line is worth as worked stay as they were.
pub review_keeps_work :
    (cs : List Command) (a : Statement)
    → AreDistinct (works a)
    → let a' = run_all execute cs a in
      (entry_ids a'.state ≡ entry_ids a.state)
      × (total_worked a'.state ≡ total_worked a.state)
      × (amounts_of as_worked a'.state.lines ≡ amounts_of as_worked a.state.lines)
unfolding entry_ids total_worked
review_keeps_work cs a d =
    let a' = run_all execute cs a in
    let e = run_all-works cs a d in
    (
      entry_ids-works a'.state.lines
          ∙ ap (flat_map (λ w. w.entry_ids)) e
          ∙ sym (entry_ids-works a.state.lines),
      ap sum_durations (
          worked-works a'.state.lines
          ∙ ap (map (λ w. w.worked)) e
          ∙ sym (worked-works a.state.lines)),
      amounts_of-works a'.state.lines
          ∙ ap amounts_of_works e
          ∙ sym (amounts_of-works a.state.lines),
    )
