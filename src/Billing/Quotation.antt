-- ===== src/Billing/Quotation.antt =====
-- packages/modules/billing/domain/quotation.ts: what was offered, to whom, for how much, and whether
-- they said yes.
pub mod State
pub mod Amounts
pub mod Figures
pub mod Offer
pub mod Worth
pub mod Standings
pub mod Tests
use amc_system.Base.{
  ℕ, ◌≡◌, Bool, true, false, not, ◌&&◌, ◌||◌, Option, none, some, List, [], ◌∷◌, map, filter, push,
  length, is_some, ◌==◌, if◌then◌else◌,
}
use amc_system.Base.Int.{ℤ, pos, ltb_ℤ, leb_ℤ}
use amc_system.Base.Text.{Text, eq_text, trim, is_empty, non_blank}
use amc_system.Kernel.Throws as Throws
use amc_system.Kernel.Throws.{Throws}
use amc_system.Kernel.Result as Result
use amc_system.Kernel.Result.{Result}
use amc_system.Kernel.Aggregate.{
  Aggregate, Method, ok, err, threw, ◌>>=◌, ◌>>◌, pure, refuse_if, refuse, call, this_state, assign,
  emit,
}
use amc_system.Kernel.Money.{
  Money, Currency, eq_currency, add, subtract, sum, zero_money, scale_by_ratio,
  percentage_in_basis_points, is_negative, compare_money, Order, less, equal, greater,
}
use amc_system.Kernel.Duration.{Instant}
use amc_system.Billing.Quotation.State.{
  SentVia, DecidedBy, Standing, Pricing, hours, fixed, QuotationLine, QuotationSnapshot,
  DraftParams, QuotationConflict, QuotationEvent,
}
use amc_system.Billing.Quotation.Amounts.{quoted_price, net, vat_total, discount_total, total}
use amc_system.Billing.Quotation.State as State

abbrev pub Quotation : Type 0
Quotation = Aggregate QuotationSnapshot QuotationEvent

abbrev pub QuotationMethod : Type 0 → Type 0
QuotationMethod = Method QuotationSnapshot QuotationEvent QuotationConflict

-- `Quotation.draft`
unfoldable pub draft : DraftParams → Result QuotationConflict Quotation
draft p =
    if is_empty (trim p.reference)
    then Result.err QuotationConflict.no_reference
    else Result.ok (record {
      state = record {
        id = p.id;
        client_id = p.client_id;
        branch_code = p.branch_code;
        reference = trim p.reference;
        state = Standing.draft;
        currency = p.currency;
        lines = [];
        valid_until = p.valid_until;
        sent_at = none;
        sent_via = none;
        link_token_hash = none;
        link_expires_at = none;
        link_opened_at = none;
        decided_by = none;
        decided_at = none;
        notes_en = non_blank p.notes_en;
        notes_ar = non_blank p.notes_ar;
        created_by = p.created_by;
        created_at = p.now;
      };
      pending = [];
    })

abbrev pub is_draft : Standing → Bool
is_draft Standing.draft = true
is_draft _ = false

abbrev pub is_sent : Standing → Bool
is_sent Standing.sent = true
is_sent _ = false

abbrev is_answered : Standing → Bool
is_answered Standing.accepted = true
is_answered Standing.declined = true
is_answered _ = false

abbrev pub is_greater : Order → Bool
is_greater greater = true
is_greater _ = false

abbrev pub has_no_hours : Pricing → Bool
has_no_hours (hours hundredths _) = leb_ℤ hundredths (pos 0)
has_no_hours (fixed _) = false

abbrev pub is_bad_rate : Option ℤ → Bool
is_bad_rate none = false
is_bad_rate (some rate) = ltb_ℤ rate (pos 0) || ltb_ℤ (pos 10_000) rate

-- The guards of `addLine` on the words of a line, before it is priced.
abbrev pub is_undescribed : QuotationLine → Bool
is_undescribed line = is_empty (trim line.description_en) && is_empty (trim line.description_ar)

-- The guards of `addLine` once the line is priced, up to the comparison of the discount.
unfoldable pub refused_price : Currency → QuotationLine → Money → Option QuotationConflict
refused_price c line amount =
    if not (eq_currency amount.currency c) || not (eq_currency line.discount.currency c)
    then some QuotationConflict.other_currency
    else if is_negative amount
    then some QuotationConflict.negative_amount
    else if has_no_hours line.pricing
    then some QuotationConflict.no_hours
    else if is_negative line.discount
    then some QuotationConflict.negative_discount
    else none

-- `addLine`
unfoldable pub add_line : QuotationLine → QuotationMethod (Unit {0})
add_line line = do
  s ← this_state
  refuse_if (not (is_draft s.state)) QuotationConflict.not_a_draft_any_more
  refuse_if (is_undescribed line) QuotationConflict.no_description
  amount ← call (quoted_price line.pricing)
  refuse (refused_price s.currency line amount)
  order ← call (compare_money line.discount amount)
  refuse_if (is_greater order) QuotationConflict.discount_above_amount
  refuse_if (is_bad_rate line.vat_basis_points) QuotationConflict.not_a_vat_rate
  assign (record s { lines = push s.lines line })

abbrev eq_code : Option Text → Option Text → Bool
eq_code none none = true
eq_code (some a) (some b) = eq_text a b
eq_code none (some _) = false
eq_code (some _) none = false

-- `setBranch`
unfoldable pub set_branch : Option Text → Instant → QuotationMethod (Unit {0})
set_branch branch_code now = do
  s ← this_state
  refuse_if (not (is_draft s.state)) QuotationConflict.not_a_draft_any_more
  if eq_code branch_code s.branch_code then pure tt else (do
    assign (record s { branch_code = branch_code })
    emit (QuotationEvent.branch_set s.id now s.client_id s.branch_code branch_code))

abbrev other_lines : Text → List QuotationLine → List QuotationLine
other_lines line_id lines = filter (λ line. not (eq_text line.id line_id)) lines

-- `removeLine`
unfoldable pub remove_line : Text → QuotationMethod (Unit {0})
remove_line line_id = do
  s ← this_state
  refuse_if (not (is_draft s.state)) QuotationConflict.not_a_draft_any_more
  refuse_if (length (other_lines line_id s.lines) == length s.lines) QuotationConflict.no_such_line
  assign (record s { lines = other_lines line_id s.lines })

-- `validUntil && validUntil.getTime() <= now.getTime()`
abbrev has_lapsed : Option Instant → Instant → Bool
has_lapsed none now = false
has_lapsed (some until) now = leb_ℤ until now

-- `canSend`
unfoldable pub refused_sending : QuotationSnapshot → Instant → Option QuotationConflict
refused_sending s now =
    if not (is_draft s.state)
    then some QuotationConflict.only_a_draft_is_sent
    else if length s.lines == 0
    then some QuotationConflict.no_lines
    else if has_lapsed s.valid_until now
    then some QuotationConflict.expired_already
    else none

abbrev pub sent_state : QuotationSnapshot → Instant → SentVia → QuotationSnapshot
sent_state s now via = record s { state = Standing.sent; sent_at = some now; sent_via = some via }

unfoldable pub send : Instant → SentVia → QuotationMethod (Unit {0})
send now via = do
  s ← this_state
  refuse (refused_sending s now)
  assign (sent_state s now via)
  n ← call (net (sent_state s now via))
  v ← call (vat_total (sent_state s now via))
  d ← call (discount_total (sent_state s now via))
  t ← call (total (sent_state s now via))
  emit (
      QuotationEvent.sent s.id now s.client_id s.reference
        (record {
          net_minor = n.minor_units;
          vat_minor = v.minor_units;
          discount_minor = some d.minor_units;
          total_minor = t.minor_units;
        })
        s.currency)

-- `issueLink`
unfoldable pub issue_link : Text → Instant → Instant → QuotationMethod (Unit {0})
issue_link token_hash expires_at now = do
  s ← this_state
  refuse_if (is_answered s.state) QuotationConflict.answered_already
  refuse_if (leb_ℤ expires_at now) QuotationConflict.link_too_short
  assign (record s { link_token_hash = some token_hash; link_expires_at = some expires_at })
  emit (QuotationEvent.link_issued s.id now s.client_id expires_at)

-- `openedByClient`
unfoldable pub opened_by_client : Instant → QuotationMethod (Unit {0})
opened_by_client now = do
  s ← this_state
  if is_some s.link_opened_at then pure tt else (do
    assign (record s { link_opened_at = some now })
    emit (QuotationEvent.opened s.id now s.client_id))

abbrev is_live : Option Text → Option Instant → Instant → Bool
is_live (some _) (some expires_at) now = ltb_ℤ now expires_at
is_live (some _) none now = false
is_live none _ now = false

-- `linkIsLiveAt`
unfoldable pub link_is_live_at : QuotationSnapshot → Instant → Bool
link_is_live_at s now = is_live s.link_token_hash s.link_expires_at now

-- `!validUntil || validUntil.getTime() > now.getTime()`
abbrev still_valid : Option Instant → Instant → Bool
still_valid none now = true
still_valid (some until) now = ltb_ℤ now until

unfoldable pub expire : Instant → QuotationMethod (Unit {0})
expire now = do
  s ← this_state
  refuse_if (not (is_sent s.state)) QuotationConflict.never_sent
  refuse_if (still_valid s.valid_until now) QuotationConflict.not_expired_yet
  assign (record s { state = Standing.expired })
  emit (QuotationEvent.expired s.id now s.client_id)

-- The two answers.
pub data Answer : Type 0 where
  accepted declined : Answer

abbrev pub standing_of : Answer → Standing
standing_of accepted = Standing.accepted
standing_of declined = Standing.declined

abbrev event_of :
    Answer → Text → Instant → Text → State.Figures → Currency → DecidedBy → QuotationEvent
event_of accepted = QuotationEvent.accepted
event_of declined = QuotationEvent.declined

abbrev pub decided_state : QuotationSnapshot → Answer → Instant → DecidedBy → QuotationSnapshot
decided_state s next now by = record s {
  state = standing_of next;
  decided_at = some now;
  decided_by = some by;
}

-- `decide`, of which `accept` and `decline` are the two calls.
unfoldable pub decide : Answer → Instant → DecidedBy → QuotationMethod (Unit {0})
decide next now by = do
  s ← this_state
  refuse_if (not (is_sent s.state)) QuotationConflict.not_with_client
  assign (decided_state s next now by)
  n ← call (net (decided_state s next now by))
  v ← call (vat_total (decided_state s next now by))
  t ← call (total (decided_state s next now by))
  emit (
      event_of next s.id now s.client_id
        (record {
          net_minor = n.minor_units;
          vat_minor = v.minor_units;
          discount_minor = none;
          total_minor = t.minor_units;
        })
        s.currency by)

-- The calls that change a quotation.
pub data Command : Type 0 where
  offer : QuotationLine → Command
  move_to : Option Text → Instant → Command
  take_off : Text → Command
  deliver : Instant → SentVia → Command
  answer : Answer → Instant → DecidedBy → Command
  give_link : Text → Instant → Instant → Command
  open_link : Instant → Command
  lapse : Instant → Command

unfoldable pub execute : Command → QuotationMethod (Unit {0})
execute (offer line) = add_line line
execute (move_to branch_code now) = set_branch branch_code now
execute (take_off line_id) = remove_line line_id
execute (deliver now via) = send now via
execute (answer next now by) = decide next now by
execute (give_link token_hash expires_at now) = issue_link token_hash expires_at now
execute (open_link now) = opened_by_client now
execute (lapse now) = expire now
