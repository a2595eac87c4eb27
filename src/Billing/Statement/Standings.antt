-- ===== src/Billing/Statement/Standings.antt =====
-- The states of a statement (statement.ts): its diagram, and what an approval asks.
use amc_system.Base.{
  ◌≡◌, ◌≢◌, refl, ap, sym, subst, ◌∙◌, Bool, true, false, List, arith, Option-cases, inl, inr, ◌⊎◌,
}
use amc_system.Base.Text.{Text}
use amc_system.Kernel.Throws.{done, Throws-cases}
use amc_system.Kernel.Aggregate.{run_all, run_all-keeps}
use amc_system.Kernel.Money.{Money, is_zero}
use amc_system.Kernel.Duration.{Instant}
use amc_system.Billing.Statement.State.{Standing, StatementLine, StatementSnapshot}
use amc_system.Billing.Statement.{
  Statement, Command, leave_out, put_back, bill_at, sign_off, send_back, convert, call_off, execute,
  exclude, restore, adjust, approve, reopen, mark_invoiced, cancel, revise_line, line_with, total,
  excluded_for, adjusted_for, approved_state,
}
use amc_system.Billing.Statement.Review.{adjust-cases}

-- The ways on from each standing.
infix 40 ◌⟶◌
pub data ◌⟶◌ : Standing → Standing → Type 0 where
  stay : {s : Standing} → s ⟶ s
  approved_of : Standing.draft ⟶ Standing.approved
  sent_back : Standing.approved ⟶ Standing.draft
  billed : Standing.approved ⟶ Standing.invoiced
  dropped : Standing.draft ⟶ Standing.cancelled
  withdrawn : Standing.approved ⟶ Standing.cancelled

ruleset ways = (stay, approved_of, sent_back, billed, dropped, withdrawn)

-- What a call does, by what it needs.
pub data Change (a a' : Statement) : Type 0 where
  unchanged : a' ≡ a → Change a a'
  reviewed : a.state.state ≡ Standing.draft → a'.state.state ≡ Standing.draft → Change a a'
  signed_off :
      (user_id : Text) (now : Instant) (t : Money)
      → a.state.state ≡ Standing.draft
      → total a.state ≡ done t
      → is_zero t ≡ false
      → a'.state ≡ approved_state a.state user_id now
      → Change a a'
  returned : a.state.state ≡ Standing.approved → a'.state.state ≡ Standing.draft → Change a a'
  made_bill :
      a.state.state ≡ Standing.approved
      → a'.state ≡ record a.state { state = Standing.invoiced }
      → Change a a'
  put_away : a.state.state ≢ Standing.invoiced → a'.state.state ≡ Standing.cancelled → Change a a'

-- A row of guards and a change that only a draft takes.
abbrev IsReview : Statement → Statement → Type 0
IsReview a a' = (a' ≡ a) ⊎ ((a.state.state ≡ Standing.draft) × (a'.state.state ≡ Standing.draft))

review-Change : (a a' : Statement) → IsReview a a' → Change a a'
review-Change a a' (inl same) = unchanged same
review-Change a a' (inr (before, after)) = reviewed before after

revise_line-IsReview :
    (line_id reason : Text) (now : Instant) (change : StatementLine → Text → StatementLine)
    (a : Statement)
    → IsReview a (revise_line line_id reason now change a).1
unfolding revise_line
revise_line-IsReview line_id reason now change a =
    elim (Option-cases (line_with line_id a.state.lines)) [
      | inl missing ↦ rw missing (grind arith)
      | inr (line, found) ↦ rw found (grind arith)
    ]

restore-IsReview :
    (line_id : Text) (now : Instant) (a : Statement) → IsReview a (restore line_id now a).1
unfolding restore
restore-IsReview line_id now a = elim (Option-cases (line_with line_id a.state.lines)) [
  | inl missing ↦ rw missing (grind arith)
  | inr (line, found) ↦ rw found (grind arith)
]

adjust-IsReview :
    (line_id : Text) (to : Money) (reason : Text) (now : Instant) (a : Statement)
    → IsReview a (adjust line_id to reason now a).1
adjust-IsReview line_id to reason now a = elim (adjust-cases line_id to reason now a) [
  | inl same ↦ inl same
  | inr revision ↦ rw revision (revise_line-IsReview line_id reason now (adjusted_for to) a)
]

-- An approval changes nothing, or has found a total that is not zero.
approve-cases :
    (user_id : Text) (now : Instant) (a : Statement) (t : Money)
    → total a.state ≡ done t
    → ((approve user_id now a).1 ≡ a)
      ⊎ ((a.state.state ≡ Standing.draft)
          × (is_zero t ≡ false)
          × ((approve user_id now a).1.state ≡ approved_state a.state user_id now))
unfolding approve
approve-cases user_id now a t e = rw e (grind arith)

approve-Change :
    (user_id : Text) (now : Instant) (a : Statement) → Change a (approve user_id now a).1
unfolding approve
approve-Change user_id now a = elim (Throws-cases (total a.state)) [
  | inr (e, thrown) ↦ unchanged (rw thrown (ground arith))
  | inl (t, e) ↦ elim (approve-cases user_id now a t e) [
    | inl same ↦ unchanged same
    | inr (is_draft, something, after) ↦ signed_off user_id now t is_draft e something after
  ]
]

reopen-cases :
    (now : Instant) (a : Statement)
    → ((reopen now a).1 ≡ a)
      ⊎ ((a.state.state ≡ Standing.approved) × ((reopen now a).1.state.state ≡ Standing.draft))
unfolding reopen
reopen-cases now a = grind arith

mark_invoiced-cases :
    (now : Instant) (a : Statement)
    → ((mark_invoiced now a).1 ≡ a)
      ⊎ ((a.state.state ≡ Standing.approved)
          × ((mark_invoiced now a).1.state ≡ record a.state { state = Standing.invoiced }))
unfolding mark_invoiced
mark_invoiced-cases now a = grind arith

cancel-cases :
    (reason : Text) (now : Instant) (a : Statement)
    → ((cancel reason now a).1 ≡ a)
      ⊎ ((a.state.state ≢ Standing.invoiced)
          × ((cancel reason now a).1.state.state ≡ Standing.cancelled))
unfolding cancel
cancel-cases reason now a = grind arith

pub execute-Change : (c : Command) (a : Statement) → Change a (execute c a).1
unfolding execute exclude
execute-Change (leave_out line_id reason now) a =
    review-Change a _ (revise_line-IsReview line_id reason now excluded_for a)
execute-Change (put_back line_id now) a = review-Change a _ (restore-IsReview line_id now a)
execute-Change (bill_at line_id to reason now) a =
    review-Change a _ (adjust-IsReview line_id to reason now a)
execute-Change (sign_off user_id now) a = approve-Change user_id now a
execute-Change (send_back now) a = elim (reopen-cases now a) [
  | inl same ↦ unchanged same
  | inr (before, after) ↦ returned before after
]
execute-Change (convert now) a = elim (mark_invoiced-cases now a) [
  | inl same ↦ unchanged same
  | inr (before, after) ↦ made_bill before after
]
execute-Change (call_off reason now) a = elim (cancel-cases reason now a) [
  | inl same ↦ unchanged same
  | inr (open_still, after) ↦ put_away open_still after
]

between : {s t x y : Standing} → s ≡ x → t ≡ y → x ⟶ y → s ⟶ t
between e f way = rw (e, f) way

-- From every standing but invoiced there is a way to cancelled.
to_cancelled : (s : Standing) → s ≢ Standing.invoiced → s ⟶ Standing.cancelled
to_cancelled Standing.draft h = dropped
to_cancelled Standing.approved h = withdrawn
to_cancelled Standing.invoiced h = absurd (h refl)
to_cancelled Standing.cancelled h = stay

Change-⟶ : (a a' : Statement) → Change a a' → a.state.state ⟶ a'.state.state
Change-⟶ a a' (unchanged same) = between refl (ap (λ b. b.state.state) same) stay
Change-⟶ a a' (reviewed before after) = between before after stay
Change-⟶ a a' (signed_off user_id now t before e something after) =
    between before (ap (λ s. s.state) after) approved_of
Change-⟶ a a' (returned before after) = between before after sent_back
Change-⟶ a a' (made_bill before after) = between before (ap (λ s. s.state) after) billed
Change-⟶ a a' (put_away open_still after) =
    between refl after (to_cancelled a.state.state open_still)

Change-final : (a a' : Statement) → Change a a' → a.state.state ≡ Standing.invoiced → a' ≡ a
Change-final a a' (unchanged same) h = same
Change-final a a' (reviewed before after) h = absurd (cc)
Change-final a a' (signed_off user_id now t before e something after) h = absurd (cc)
Change-final a a' (returned before after) h = absurd (cc)
Change-final a a' (made_bill before after) h = absurd (cc)
Change-final a a' (put_away open_still after) h = absurd (open_still h)

-- Every call, however it ends, follows a way of the diagram (draft to approved and back, approved to
-- invoiced, either of the two to cancelled, or none), and nothing changes an invoiced statement.
pub statement_follows_diagram :
    (c : Command) (a : Statement)
    → (a.state.state ⟶ (execute c a).1.state.state)
      × (a.state.state ≡ Standing.invoiced → (execute c a).1 ≡ a)
statement_follows_diagram c a =
    let change = execute-Change c a in (Change-⟶ a _ change, Change-final a _ change)

abbrev is_settled : Standing → Bool
is_settled Standing.approved = true
is_settled Standing.invoiced = true
is_settled _ = false

-- What stands behind an approval: a total, and one that is not zero.
abbrev pub IsBacked : StatementSnapshot → Type 0
IsBacked s = is_settled s.state ≡ true → (t : Money) × (total s ≡ done t) × (is_zero t ≡ false)

-- The total is read off the lines and the currency.
total-approved_state :
    (s : StatementSnapshot) (user_id : Text) (now : Instant)
    → total (approved_state s user_id now) ≡ total s
unfolding total
total-approved_state s user_id now = refl

total-invoiced : (s : StatementSnapshot) → total (record s { state = Standing.invoiced }) ≡ total s
unfolding total
total-invoiced s = refl

not_settled : (s x : Standing) → s ≡ x → is_settled x ≡ false → is_settled s ≢ true
not_settled s x e h k = cc (ap is_settled e)

Change-IsBacked : (a a' : Statement) → Change a a' → IsBacked a.state → IsBacked a'.state
Change-IsBacked a a' (unchanged same) b = subst (λ c. IsBacked c.state) (sym same) b
Change-IsBacked a a' (reviewed before after) b = λ h. absurd (not_settled _ _ after refl h)
Change-IsBacked a a' (signed_off user_id now t before e something after) b =
    subst IsBacked (sym after) (λ h. (t, total-approved_state a.state user_id now ∙ e, something))
Change-IsBacked a a' (returned before after) b = λ h. absurd (not_settled _ _ after refl h)
Change-IsBacked a a' (made_bill before after) b =
    let (t, e, something) = b (ap is_settled before) in
    subst IsBacked (sym after) (λ h. (t, total-invoiced a.state ∙ e, something))
Change-IsBacked a a' (put_away open_still after) b = λ h. absurd (not_settled _ _ after refl h)

-- Whatever is called, in any order, on a statement that is a draft: whenever it then stands approved
-- or invoiced, its total can be computed and is not zero.
pub approved_for_something :
    (cs : List Command) (a : Statement)
    → a.state.state ≡ Standing.draft
    → IsBacked (run_all execute cs a).state
approved_for_something cs a h =
    run_all-keeps (λ b. IsBacked b.state) execute (λ c b. Change-IsBacked b _ (execute-Change c b))
      cs a (λ k. absurd (not_settled _ _ h refl k))
