-- ===== src/Billing/Quotation/Amounts.antt =====
-- packages/modules/billing/domain/quotation.ts: what a line comes to, and the figures of a quotation.
use amc_system.Base.{Option, none, some, List, [], ◌∷◌}
use amc_system.Base.Int.{ℤ, pos}
use amc_system.Kernel.Throws as Throws
use amc_system.Kernel.Throws.{Throws}
use amc_system.Kernel.Money.{
  Money, add, subtract, sum, zero_money, scale_by_ratio, percentage_in_basis_points,
}
use amc_system.Billing.Quotation.State.{Pricing, hours, fixed, QuotationLine, QuotationSnapshot}

-- `quotedPrice`
unfoldable pub quoted_price : Pricing → Throws Money
quoted_price (fixed amount) = Throws.done amount
quoted_price (hours hundredths per_hour) = scale_by_ratio per_hour hundredths (pos 100)

-- `lineNet`
unfoldable pub line_net : QuotationLine → Throws Money
line_net line = Throws.◌>>=◌ (quoted_price line.pricing) (λ price. subtract price line.discount)

abbrev pub vat_at : Option ℤ → Money → Throws Money
vat_at none net = Throws.done (zero_money net.currency)
vat_at (some rate) net = percentage_in_basis_points net rate

-- `lineVat`
unfoldable pub line_vat : QuotationLine → Throws Money
line_vat line = Throws.◌>>=◌ (line_net line) (vat_at line.vat_basis_points)

-- `lineChargeable`
unfoldable pub line_chargeable : QuotationLine → Throws Money
line_chargeable line =
    Throws.◌>>=◌ (line_net line) (λ n. Throws.◌>>=◌ (line_vat line) (λ v. add n v))

-- `lines.map(amount)`, where an amount may throw.
unfoldable pub amounts_of :
    (QuotationLine → Throws Money) → List QuotationLine → Throws (List Money)
amounts_of f [] = Throws.done []
amounts_of f (line ∷ lines) =
    Throws.◌>>=◌ (f line) (λ m. Throws.◌>>=◌ (amounts_of f lines) (λ ms. Throws.done (m ∷ ms)))

-- `Money.sum(this.state.lines.map(amount), this.state.currency)`
unfoldable pub sum_of : (QuotationLine → Throws Money) → QuotationSnapshot → Throws Money
sum_of f s = Throws.◌>>=◌ (amounts_of f s.lines) (λ ms. sum ms s.currency)

unfoldable pub subtotal : QuotationSnapshot → Throws Money
subtotal s = sum_of (λ line. quoted_price line.pricing) s

-- `discountTotal`
unfoldable pub discount_total : QuotationSnapshot → Throws Money
discount_total s = sum_of (λ line. Throws.done line.discount) s

unfoldable pub net : QuotationSnapshot → Throws Money
net s = sum_of line_net s

-- `vatTotal`
unfoldable pub vat_total : QuotationSnapshot → Throws Money
vat_total s = sum_of line_vat s

unfoldable pub total : QuotationSnapshot → Throws Money
total s = sum_of line_chargeable s
