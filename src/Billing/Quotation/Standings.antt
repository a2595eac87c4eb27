-- ===== src/Billing/Quotation/Standings.antt =====
-- The states of a quotation (quotation.ts): its diagram, the document and the link.
use amc_system.Base.{
  ◌≡◌, refl, ap, sym, true, false, arith, some, none, Option, inl, inr, ◌⊎◌, is_some, ◌↔◌,
  Option-cases, Bool-cases, subst,
}
use amc_system.Base.Int.{◌<ℤ◌}
use amc_system.Base.Text.{Text}
use amc_system.Kernel.Aggregate.{ok}
use amc_system.Kernel.Duration.{Instant}
use amc_system.Billing.Quotation.State.{
  SentVia, DecidedBy, Standing, QuotationLine, QuotationSnapshot,
}
use amc_system.Billing.Quotation.{
  Quotation, Command, offer, move_to, take_off, deliver, answer, give_link, open_link, lapse,
  execute, Answer, accepted, declined, add_line, set_branch, remove_line, send, issue_link,
  opened_by_client, expire, decide, link_is_live_at, is_draft, is_sent, sent_state, decided_state,
  standing_of, refused_sending,
}

-- The ways on from each standing.
infix 40 ◌⟶◌
pub data ◌⟶◌ : Standing → Standing → Type 0 where
  stay : {s : Standing} → s ⟶ s
  sent_out : Standing.draft ⟶ Standing.sent
  taken_up : Standing.sent ⟶ Standing.accepted
  turned_down : Standing.sent ⟶ Standing.declined
  lapsed : Standing.sent ⟶ Standing.expired

ruleset ways = (stay, sent_out, taken_up, turned_down, lapsed)

-- The document itself: what the client holds a copy of.
pub record IsSameOffer (s s' : QuotationSnapshot) : Type 0 where
  pub lines : s'.lines ≡ s.lines
  pub branch_code : s'.branch_code ≡ s.branch_code
  pub reference : s'.reference ≡ s.reference
  pub currency : s'.currency ≡ s.currency
  pub valid_until : s'.valid_until ≡ s.valid_until

add_line-fixed :
    (line : QuotationLine) (a : Quotation)
    → ((add_line line a).1.state.state ≡ a.state.state)
      × (is_draft a.state.state ≡ false → (add_line line a).1 ≡ a)
unfolding add_line
add_line-fixed line a = (ground arith, λ h. ground arith)

set_branch-fixed :
    (code : Option Text) (now : Instant) (a : Quotation)
    → ((set_branch code now a).1.state.state ≡ a.state.state)
      × (is_draft a.state.state ≡ false → (set_branch code now a).1 ≡ a)
unfolding set_branch
set_branch-fixed code now a = (ground arith, λ h. ground arith)

remove_line-fixed :
    (line_id : Text) (a : Quotation)
    → ((remove_line line_id a).1.state.state ≡ a.state.state)
      × (is_draft a.state.state ≡ false → (remove_line line_id a).1 ≡ a)
unfolding remove_line
remove_line-fixed line_id a = (ground arith, λ h. ground arith)

pub refused_sending-draft :
    (s : QuotationSnapshot) (now : Instant)
    → refused_sending s now ≡ none
    → s.state ≡ Standing.draft
unfolding refused_sending
refused_sending-draft s now h = ground arith

-- Sending is refused, or leaves the sent state, whatever the figures of its event then do.
pub send-way :
    (now : Instant) (via : SentVia) (a : Quotation)
    → ((send now via a).1 ≡ a)
      ⊎ ((refused_sending a.state now ≡ none)
          × ((send now via a).1.state ≡ sent_state a.state now via))
unfolding send
send-way now via a = elim (Option-cases (refused_sending a.state now)) [
  | inr (e, refused) ↦ inl (rw refused)
  | inl guards ↦ inr (guards, ground arith)
]

-- An answer is refused, or leaves the answered state.
pub decide-way :
    (next : Answer) (now : Instant) (by : DecidedBy) (a : Quotation)
    → ((decide next now by a).1 ≡ a)
      ⊎ ((a.state.state ≡ Standing.sent)
          × ((decide next now by a).1.state ≡ decided_state a.state next now by))
unfolding decide
decide-way next now by a = elim (Bool-cases (is_sent a.state.state)) [
  | inr elsewhere ↦ inl (rw elsewhere)
  | inl out ↦ inr (sent_of a.state.state out, ground arith)
]
  where
    sent_of : (s : Standing) → is_sent s ≡ true → s ≡ Standing.sent
    sent_of s h = ground arith

issue_link-way :
    (hash : Text) (expires_at now : Instant) (a : Quotation)
    → ((issue_link hash expires_at now a).1.state.state ≡ a.state.state)
      × IsSameOffer a.state (issue_link hash expires_at now a).1.state
unfolding issue_link
issue_link-way hash expires_at now a = (ground arith, ground arith)

opened_by_client-way :
    (now : Instant) (a : Quotation)
    → ((opened_by_client now a).1.state.state ≡ a.state.state)
      × IsSameOffer a.state (opened_by_client now a).1.state
unfolding opened_by_client
opened_by_client-way now a = (ground arith, ground arith)

expire-way :
    (now : Instant) (a : Quotation)
    → (((expire now a).1 ≡ a)
        ⊎ ((a.state.state ≡ Standing.sent) × ((expire now a).1.state.state ≡ Standing.expired)))
      × IsSameOffer a.state (expire now a).1.state
unfolding expire
expire-way now a = (grind arith, ground arith)

IsSameOffer-refl : (s : QuotationSnapshot) → IsSameOffer s s
IsSameOffer-refl s = ground arith

between : {s t x y : Standing} → s ≡ x → t ≡ y → x ⟶ y → s ⟶ t
between e f way = rw (e, f) way

answered : (next : Answer) → Standing.sent ⟶ standing_of next
answered accepted = taken_up
answered declined = turned_down

-- Every call, however it ends, follows a way of the diagram: from draft to sent, and from sent to
-- accepted, declined or expired, which are ends.
pub quotation_follows_diagram :
    (c : Command) (a : Quotation) → a.state.state ⟶ (execute c a).1.state.state
unfolding execute
quotation_follows_diagram (offer line) a = between refl (add_line-fixed line a).0 stay
quotation_follows_diagram (move_to code now) a = between refl (set_branch-fixed code now a).0 stay
quotation_follows_diagram (take_off line_id) a = between refl (remove_line-fixed line_id a).0 stay
quotation_follows_diagram (deliver now via) a = elim (send-way now via a) [
  | inl same ↦ between refl (ap (λ b. b.state.state) same) stay
  | inr (guards, sent) ↦
      between (refused_sending-draft a.state now guards) (ap (λ s. s.state) sent) sent_out
]
quotation_follows_diagram (answer next now by) a = elim (decide-way next now by a) [
  | inl same ↦ between refl (ap (λ b. b.state.state) same) stay
  | inr (out, decided) ↦ between out (ap (λ s. s.state) decided) (answered next)
]
quotation_follows_diagram (give_link hash expires_at now) a =
    between refl (issue_link-way hash expires_at now a).0 stay
quotation_follows_diagram (open_link now) a = between refl (opened_by_client-way now a).0 stay
quotation_follows_diagram (lapse now) a = elim ((expire-way now a).0) [
  | inl same ↦ between refl (ap (λ b. b.state.state) same) stay
  | inr (out, over) ↦ between out over lapsed
]

same_offer : (a a' : Quotation) → a' ≡ a → IsSameOffer a.state a'.state
same_offer a a' same =
    subst (λ b. IsSameOffer a.state b.state) (sym same) (IsSameOffer-refl a.state)

-- Once a quotation is no draft, no call, however it ends, changes the document that the client holds:
-- its lines, branch, reference, currency and last day.
pub execute-IsSameOffer :
    (c : Command) (a : Quotation)
    → is_draft a.state.state ≡ false
    → IsSameOffer a.state (execute c a).1.state
unfolding execute
execute-IsSameOffer (offer line) a h = same_offer a _ ((add_line-fixed line a).1 h)
execute-IsSameOffer (move_to code now) a h = same_offer a _ ((set_branch-fixed code now a).1 h)
execute-IsSameOffer (take_off line_id) a h = same_offer a _ ((remove_line-fixed line_id a).1 h)
execute-IsSameOffer (deliver now via) a h = elim (send-way now via a) [
  | inl same ↦ same_offer a _ same
  | inr (guards, sent) ↦ absurd (cc (ap is_draft (refused_sending-draft a.state now guards)))
]
execute-IsSameOffer (answer next now by) a h = elim (decide-way next now by a) [
  | inl same ↦ same_offer a _ same
  | inr (out, decided) ↦ subst (λ s. IsSameOffer a.state s) (sym decided) (ground arith)
]
execute-IsSameOffer (give_link hash expires_at now) a h = (issue_link-way hash expires_at now a).1
execute-IsSameOffer (open_link now) a h = (opened_by_client-way now a).1
execute-IsSameOffer (lapse now) a h = (expire-way now a).1

-- A link that was issued has an expiry still to come, keeps the hash that it was given, and is live
-- exactly before that expiry.
pub issue_link-live_iff :
    (hash : Text) (expires_at now later : Instant) (a : Quotation) {a' : Quotation}
    → issue_link hash expires_at now a ≡ (ok tt, a')
    → (now <ℤ expires_at)
      × (a'.state.link_token_hash ≡ some hash)
      × ((link_is_live_at a'.state later ≡ true) ↔ (later <ℤ expires_at))
unfolding issue_link link_is_live_at
issue_link-live_iff hash expires_at now later a h =
    (ground arith, ground arith, (λ k. ground arith, λ k. ground arith))

-- The first visit is kept: after one, every later visit changes and tells nothing.
pub opened_by_client_once :
    (first later : Instant) (a : Quotation)
    → let a' = (opened_by_client first a).1 in
      (is_some a'.state.link_opened_at ≡ true) × (opened_by_client later a' ≡ (ok tt, a'))
unfolding opened_by_client
opened_by_client_once first later a = (ground arith, ground arith)
