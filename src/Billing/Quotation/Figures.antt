-- ===== src/Billing/Quotation/Figures.antt =====
-- The figures of a quotation (quotation.ts) as sums over its lines.
use amc_system.Base.{◌≡◌, ap, ap₂, sym, ◌∙◌, List, [], ◌∷◌}
use amc_system.Base.Int.{ℤ, pos, ◌+ℤ◌, ◌-ℤ◌, int_laws}
use amc_system.Kernel.Throws.{Throws, done, >>=-eq-done}
use amc_system.Kernel.Money.{Money}
use amc_system.Kernel.Money.Sums.{total_minor, sum-done, subtract-done, add-done}
use amc_system.Billing.Quotation.State.{QuotationLine, QuotationSnapshot}
use amc_system.Billing.Quotation.Amounts.{
  quoted_price, line_net, line_vat, line_chargeable, amounts_of, sum_of, subtotal, discount_total,
  net, vat_total, total,
}

done_injective {ℓ} : {A : Type ℓ} {a b : A} → done a ≡ done b → a ≡ b
done_injective h = cc

-- The sum of a figure over the lines, as the code computes it.
pub sum_of-done :
    (f : QuotationLine → Throws Money) (s : QuotationSnapshot) {t : Money}
    → sum_of f s ≡ done t
    → (ms : List Money) × (amounts_of f s.lines ≡ done ms) × (t.minor_units ≡ total_minor ms)
unfolding sum_of
sum_of-done f s h =
    let (ms, each, summed) = >>=-eq-done (amounts_of f s.lines) _ h in
    let (_, _, exact) = sum-done ms s.currency summed in (ms, each, exact)

pub amounts_of-cons :
    (f : QuotationLine → Throws Money) (line : QuotationLine) (lines : List QuotationLine)
    {all : List Money}
    → amounts_of f (line ∷ lines) ≡ done all
    → (m : Money) × (ms : List Money) × (f line ≡ done m)
      × (amounts_of f lines ≡ done ms)
      × (all ≡ m ∷ ms)
unfolding amounts_of
amounts_of-cons f line lines h =
    let (m, first, h₁) = >>=-eq-done (f line) _ h in
    let (ms, rest, last) = >>=-eq-done (amounts_of f lines) _ h₁ in
    (m, ms, first, rest, sym (done_injective last))

pub amounts_of-nil :
    (f : QuotationLine → Throws Money) {all : List Money} → amounts_of f [] ≡ done all → all ≡ []
unfolding amounts_of
amounts_of-nil f h = sym (done_injective h)

-- A figure that is one figure less, or plus, another on every line is so of the sums.
module _ (f g k : QuotationLine → Throws Money) where
  abbrev Combines : (ℤ → ℤ → ℤ) → Type 0
  Combines op =
      (line : QuotationLine) (a b c : Money)
      → f line ≡ done a
      → g line ≡ done b
      → k line ≡ done c
      → c.minor_units ≡ op a.minor_units b.minor_units

  sums_combine :
      (op : ℤ → ℤ → ℤ)
      → op (pos 0) (pos 0) ≡ pos 0
      → ((a b c d : ℤ) → op (a +ℤ c) (b +ℤ d) ≡ op a b +ℤ op c d)
      → Combines op
      → (lines : List QuotationLine) (firsts seconds thirds : List Money)
      → amounts_of f lines ≡ done firsts
      → amounts_of g lines ≡ done seconds
      → amounts_of k lines ≡ done thirds
      → total_minor thirds ≡ op (total_minor firsts) (total_minor seconds)
  sums_combine op nothing spread each [] firsts seconds thirds ha hb hc =
      rw (amounts_of-nil f ha, amounts_of-nil g hb, amounts_of-nil k hc) (sym nothing)
  sums_combine op nothing spread each (line ∷ lines) firsts seconds thirds ha hb hc =
      let (a, ra, fa, la, ea) = amounts_of-cons f line lines ha in
      let (b, rb, fb, lb, eb) = amounts_of-cons g line lines hb in
      let (c, rc, fc, lc, ec) = amounts_of-cons k line lines hc in
      let here = each line a b c fa fb fc in
      let rest = sums_combine op nothing spread each lines ra rb rc la lb lc in
      rw (ea, eb, ec, here, rest)
        (sym (spread a.minor_units b.minor_units (total_minor ra) (total_minor rb)))

-- What a line comes to is its price less its discount.
pub line_net-done :
    (line : QuotationLine) (price n : Money)
    → quoted_price line.pricing ≡ done price
    → line_net line ≡ done n
    → n.minor_units ≡ price.minor_units -ℤ line.discount.minor_units
unfolding line_net
line_net-done line price n priced h =
    let (p, priced', taken) = >>=-eq-done (quoted_price line.pricing) _ h in
    let same = done_injective (sym priced' ∙ priced) in
    let (_, _, minor, _) = subtract-done p line.discount taken in
    minor ∙ ap (λ (q : Money). q.minor_units -ℤ line.discount.minor_units) same

-- What a line charges is its net and its VAT.
line_chargeable-done :
    (line : QuotationLine) (n v t : Money)
    → line_net line ≡ done n
    → line_vat line ≡ done v
    → line_chargeable line ≡ done t
    → t.minor_units ≡ n.minor_units +ℤ v.minor_units
unfolding line_chargeable
line_chargeable-done line n v t netted charged h =
    let (n', netted', h₁) = >>=-eq-done (line_net line) _ h in
    let (v', charged', added) = >>=-eq-done (line_vat line) _ h₁ in
    let (_, _, minor, _) = add-done n' v' added in
    minor
    ∙ ap₂ (λ (a b : Money). a.minor_units +ℤ b.minor_units) (done_injective (sym netted' ∙ netted))
        (done_injective (sym charged' ∙ charged))

-- The figures that a quotation shows agree, to the last minor unit, however each line was rounded: the
-- net is the subtotal less the discounts, and the total is the net and the VAT.
pub figures_agree :
    (s : QuotationSnapshot) {a d n v t : Money}
    → subtotal s ≡ done a
    → discount_total s ≡ done d
    → net s ≡ done n
    → vat_total s ≡ done v
    → total s ≡ done t
    → (n.minor_units ≡ a.minor_units -ℤ d.minor_units)
      × (t.minor_units ≡ n.minor_units +ℤ v.minor_units)
unfolding subtotal discount_total net vat_total total
figures_agree s ha hd hn hv ht =
    let (as', la, ea) = sum_of-done (λ line. quoted_price line.pricing) s ha in
    let (ds, ld, ed) = sum_of-done (λ line. done line.discount) s hd in
    let (ns, ln, en) = sum_of-done line_net s hn in
    let (vs, lv, ev) = sum_of-done line_vat s hv in
    let (ts, lt, et) = sum_of-done line_chargeable s ht in
    (
      rw (ea, ed, en)
          (sums_combine (λ line. quoted_price line.pricing) (λ line. done line.discount) line_net
            ◌-ℤ◌ (omega int_laws) (λ a b c d. omega int_laws)
            (λ line a b c pa pb pc.
              line_net-done line a c pa pc
              ∙ ap (λ (m : Money). a.minor_units -ℤ m.minor_units) (done_injective pb))
            s.lines as' ds ns la ld ln),
      rw (en, ev, et)
          (sums_combine line_net line_vat line_chargeable ◌+ℤ◌ (omega int_laws)
            (λ a b c d. omega int_laws) line_chargeable-done s.lines ns vs ts ln lv lt),
    )
