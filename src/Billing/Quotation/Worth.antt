-- ===== src/Billing/Quotation/Worth.antt =====
-- The sign of what a quotation comes to (`total` of quotation.ts), over its calls.
use amc_system.Base.{
  ◌≡◌, ap, sym, subst, false, List, [], ◌∷◌, arith, none, some, Option, All, All-append, inl, inr,
  ◌⊎◌, Option-cases, Bool-cases,
}
use amc_system.Base.Int.{ℤ, pos, negsuc, ◌*ℤ◌, ◌≤ℤ◌, int_laws}
use amc_system.Base.Text.{Text, eq_text}
use amc_system.Kernel.Throws.{done, Throws-cases, >>=-eq-done}
use amc_system.Kernel.Result as Result
use amc_system.Kernel.Aggregate.{ok, run_all, run_all-keeps}
use amc_system.Kernel.Money.{Money, Currency, percentage_in_basis_points, compare_money}
use amc_system.Kernel.Money.Sums.{total_minor-nonneg, IsNonneg, add-done}
use amc_system.Kernel.Money.Rounding.{scale_by_ratio-IsRounded, *ℤ-nonneg, nonneg_quotient}
use amc_system.Kernel.Duration.{Instant}
use amc_system.Billing.Quotation.State.{SentVia, DecidedBy, QuotationLine, DraftParams}
use amc_system.Billing.Quotation.Amounts.{
  quoted_price, line_net, line_vat, line_chargeable, vat_at, amounts_of, total,
}
use amc_system.Billing.Quotation.{
  Quotation, Command, offer, move_to, take_off, deliver, answer, give_link, open_link, lapse,
  execute, Answer, add_line, set_branch, remove_line, send, decide, issue_link, opened_by_client,
  expire, other_lines, refused_price, is_bad_rate, draft,
}
use amc_system.Billing.Quotation.Figures.{
  line_net-done, sum_of-done, amounts_of-cons, amounts_of-nil,
}
use amc_system.Billing.Quotation.Standings.{send-way, decide-way}
use amc_system.Billing.Quotation.Offer.{IsOffered, add_line-IsOffered}

-- Every line is a fair offer in the quotation's currency.
abbrev AreOffered : Currency → List QuotationLine → Type 0
AreOffered c lines = All (λ line. (price : Money) × IsOffered c line price) lines

abbrev IsFair : Quotation → Type 0
IsFair a = AreOffered a.state.currency a.state.lines

same_lines :
    (a a' : Quotation)
    → (a'.state.lines ≡ a.state.lines) × (a'.state.currency ≡ a.state.currency)
    → IsFair a
    → IsFair a'
same_lines a a' (lines, currency) fair = rw (lines, currency) fair

add_line-cases :
    (line : QuotationLine) (a : Quotation)
    → ((add_line line a).1 ≡ a) ⊎ ((add_line line a).0 ≡ ok tt)
unfolding add_line
add_line-cases line a = elim (Throws-cases (quoted_price line.pricing)) [
  | inr (e, thrown) ↦ inl (ground arith)
  | inl (price, priced) ↦ elim (Option-cases (refused_price a.state.currency line price)) [
    | inr (e, refused) ↦ inl (ground arith)
    | inl fine ↦ elim (Throws-cases (compare_money line.discount price)) [
      | inr (e, thrown) ↦ inl (ground arith)
      | inl (order, compared) ↦ grind arith
    ]
  ]
]

added-IsFair : (line : QuotationLine) (a : Quotation) → IsFair a → IsFair (add_line line a).1
added-IsFair line a fair = elim (add_line-cases line a) [
  | inl same ↦ subst IsFair (sym same) fair
  | inr well ↦
      let (_, offered, after) =
        add_line-IsOffered line a (ap (λ r. (r, (add_line line a).1)) well) in
      subst IsFair (sym after) (
        All-append (λ l. (price : Money) × IsOffered a.state.currency l price) a.state.lines
          (line ∷ []) fair (offered, tt))
]

filter-AreOffered :
    (c : Currency) (line_id : Text) (lines : List QuotationLine)
    → AreOffered c lines
    → AreOffered c (other_lines line_id lines)
filter-AreOffered c line_id [] h = tt
filter-AreOffered c line_id (line ∷ lines) h = elim (Bool-cases (eq_text line.id line_id)) [
  | inl gone ↦ rw gone (filter-AreOffered c line_id lines h.1)
  | inr stays ↦ rw stays (h.0, filter-AreOffered c line_id lines h.1)
]

remove_line-cases :
    (line_id : Text) (a : Quotation)
    → ((remove_line line_id a).1 ≡ a)
      ⊎ ((remove_line line_id a).1
          ≡ record a { state = record a.state { lines = other_lines line_id a.state.lines } })
unfolding remove_line
remove_line-cases line_id a = grind arith

removed-IsFair : (line_id : Text) (a : Quotation) → IsFair a → IsFair (remove_line line_id a).1
removed-IsFair line_id a fair = elim (remove_line-cases line_id a) [
  | inl same ↦ subst IsFair (sym same) fair
  | inr after ↦
      subst IsFair (sym after) (filter-AreOffered a.state.currency line_id a.state.lines fair)
]

abbrev HasSameLines : Quotation → Quotation → Type 0
HasSameLines a a' = (a'.state.lines ≡ a.state.lines) × (a'.state.currency ≡ a.state.currency)

set_branch-lines :
    (code : Option Text) (now : Instant) (a : Quotation) → HasSameLines a (set_branch code now a).1
unfolding set_branch
set_branch-lines code now a = (ground arith, ground arith)

send-lines : (now : Instant) (via : SentVia) (a : Quotation) → HasSameLines a (send now via a).1
send-lines now via a = elim (send-way now via a) [
  | inl same ↦ (ap (λ b. b.state.lines) same, ap (λ b. b.state.currency) same)
  | inr (guards, sent) ↦ (ap (λ s. s.lines) sent, ap (λ s. s.currency) sent)
]

decide-lines :
    (next : Answer) (now : Instant) (by : DecidedBy) (a : Quotation)
    → HasSameLines a (decide next now by a).1
decide-lines next now by a = elim (decide-way next now by a) [
  | inl same ↦ (ap (λ b. b.state.lines) same, ap (λ b. b.state.currency) same)
  | inr (out, decided) ↦ (ap (λ s. s.lines) decided, ap (λ s. s.currency) decided)
]

issue_link-lines :
    (hash : Text) (expires_at now : Instant) (a : Quotation)
    → HasSameLines a (issue_link hash expires_at now a).1
unfolding issue_link
issue_link-lines hash expires_at now a = (ground arith, ground arith)

opened_by_client-lines : (now : Instant) (a : Quotation) → HasSameLines a (opened_by_client now a).1
unfolding opened_by_client
opened_by_client-lines now a = (ground arith, ground arith)

expire-lines : (now : Instant) (a : Quotation) → HasSameLines a (expire now a).1
unfolding expire
expire-lines now a = (ground arith, ground arith)

execute-IsFair : (c : Command) (a : Quotation) → IsFair a → IsFair (execute c a).1
unfolding execute
execute-IsFair (offer line) a fair = added-IsFair line a fair
execute-IsFair (move_to code now) a fair =
    same_lines a (set_branch code now a).1 (set_branch-lines code now a) fair
execute-IsFair (take_off line_id) a fair = removed-IsFair line_id a fair
execute-IsFair (deliver now via) a fair =
    same_lines a (send now via a).1 (send-lines now via a) fair
execute-IsFair (answer next now by) a fair =
    same_lines a (decide next now by a).1 (decide-lines next now by a) fair
execute-IsFair (give_link hash expires_at now) a fair =
    same_lines a (issue_link hash expires_at now a).1 (issue_link-lines hash expires_at now a) fair
execute-IsFair (open_link now) a fair =
    same_lines a (opened_by_client now a).1 (opened_by_client-lines now a) fair
execute-IsFair (lapse now) a fair = same_lines a (expire now a).1 (expire-lines now a) fair

-- VAT at a good rate on a net that is not negative is not negative.
vat_at-IsNonneg :
    (rate : Option ℤ) (n v : Money)
    → is_bad_rate rate ≡ false
    → IsNonneg n
    → vat_at rate n ≡ done v
    → IsNonneg v
unfolding percentage_in_basis_points
vat_at-IsNonneg none n v good h e = ground arith
vat_at-IsNonneg (some (negsuc r)) n v good h e = absurd (ground arith)
vat_at-IsNonneg (some (pos r)) n v good h e =
    let (_, _, rounded, _) = scale_by_ratio-IsRounded n (pos r) (pos 10_000) e in
    nonneg_quotient (n.minor_units *ℤ pos r) v.minor_units (*ℤ-nonneg n.minor_units r h) rounded

-- What a line charges is not negative.
chargeable-IsNonneg :
    (c : Currency) (line : QuotationLine) (price t : Money)
    → IsOffered c line price
    → line_chargeable line ≡ done t
    → IsNonneg t
unfolding line_chargeable line_vat
chargeable-IsNonneg c line price t offered h =
    let (n, netted, h₁) = >>=-eq-done (line_net line) _ h in
    let (v, charged, added) = >>=-eq-done (line_vat line) _ h₁ in
    let (n', netted', vatted) =
      >>=-eq-done (line_net line) (vat_at line.vat_basis_points) charged in
    let (_, _, minor, _) = add-done n v added in
    let n_minor = line_net-done line price n offered.priced netted in
    let n'_minor = line_net-done line price n' offered.priced netted' in
    let small = offered.discount_le_price in
    let net_nonneg : IsNonneg n = subst (λ z. pos 0 ≤ℤ z) (sym n_minor) (omega int_laws) in
    let net_nonneg' : IsNonneg n' = subst (λ z. pos 0 ≤ℤ z) (sym n'_minor) (omega int_laws) in
    let vat_nonneg =
      vat_at-IsNonneg line.vat_basis_points n' v offered.good_rate net_nonneg' vatted in
    subst (λ z. pos 0 ≤ℤ z) (sym minor) (omega int_laws)

amounts-IsNonneg :
    (c : Currency) (lines : List QuotationLine) (ms : List Money)
    → AreOffered c lines
    → amounts_of line_chargeable lines ≡ done ms
    → All IsNonneg ms
amounts-IsNonneg c [] ms fair h = rw (amounts_of-nil line_chargeable h) tt
amounts-IsNonneg c (line ∷ lines) ms fair h =
    let (m, rest, first, others, e) = amounts_of-cons line_chargeable line lines h in
    rw e (
      chargeable-IsNonneg c line fair.0.0 m fair.0.1 first,
      amounts-IsNonneg c lines rest fair.1 others,
    )

drafted : (p : DraftParams) {a : Quotation} → draft p ≡ Result.ok a → IsFair a
drafted p {a} h =
    let empty : a.state.lines ≡ [] = unfold draft in ground arith in
    subst (AreOffered a.state.currency) (sym empty) tt

-- Whatever is called, in any order, on a quotation that was drafted: where its total can be computed,
-- the total is not negative. No line and no discount makes the client's figure less than nothing.
pub total-nonneg :
    (p : DraftParams) {a : Quotation} (cs : List Command) {t : Money}
    → draft p ≡ Result.ok a
    → total (run_all execute cs a).state ≡ done t
    → pos 0 ≤ℤ t.minor_units
unfolding total
total-nonneg p {a} cs {t} h e =
    let a' = run_all execute cs a in
    let fair = run_all-keeps IsFair execute execute-IsFair cs a (drafted p h) in
    let (ms, each, exact) = sum_of-done line_chargeable a'.state e in
    let nonneg =
      total_minor-nonneg ms (amounts-IsNonneg a'.state.currency a'.state.lines ms fair each) in
    subst (λ z. pos 0 ≤ℤ z) (sym exact) nonneg
