-- ===== src/Billing/Quotation/Offer.antt =====
-- `addLine` of quotation.ts: what a line passes to be offered.
use amc_system.Base.{◌≡◌, ap, false, ◌&&◌, arith, none, push, inl, inr, Option-cases}
use amc_system.Base.Int.{pos, ◌≤ℤ◌}
use amc_system.Base.Text.{trim, is_empty}
use amc_system.Kernel.Throws.{done, Throws-cases}
use amc_system.Kernel.Aggregate.{ok}
use amc_system.Kernel.Money.{Money, Currency, Order, compare_money}
use amc_system.Kernel.Money.Sums.{eq_of_eq_currency, compare_money-done}
use amc_system.Billing.Quotation.State.{Standing, QuotationLine}
use amc_system.Billing.Quotation.Amounts.{quoted_price}
use amc_system.Billing.Quotation.{
  Quotation, add_line, is_undescribed, is_greater, refused_price, has_no_hours, is_bad_rate,
}

-- What a line on a quotation is, at the price that it was quoted.
pub record IsOffered (c : Currency) (line : QuotationLine) (price : Money) : Type 0 where
  pub described : is_empty (trim line.description_en) && is_empty (trim line.description_ar) ≡ false
  pub priced : quoted_price line.pricing ≡ done price
  pub price_currency : price.currency ≡ c
  pub discount_currency : line.discount.currency ≡ c
  pub has_hours : has_no_hours line.pricing ≡ false
  pub discount_nonneg : pos 0 ≤ℤ line.discount.minor_units
  pub discount_le_price : line.discount.minor_units ≤ℤ price.minor_units
  pub good_rate : is_bad_rate line.vat_basis_points ≡ false

refused_price-none :
    (c : Currency) (line : QuotationLine) (price : Money)
    → refused_price c line price ≡ none
    → (price.currency ≡ c)
      × (line.discount.currency ≡ c)
      × (has_no_hours line.pricing ≡ false)
      × (pos 0 ≤ℤ line.discount.minor_units)
unfolding refused_price
refused_price-none c line price h =
    ground (arith, eq_of_eq_currency price.currency c, eq_of_eq_currency line.discount.currency c)

-- The guards before the price and after it, once the line is priced and compared.
add_line-passed :
    (line : QuotationLine) (a a' : Quotation) (price : Money) (order : Order)
    → quoted_price line.pricing ≡ done price
    → refused_price a.state.currency line price ≡ none
    → compare_money line.discount price ≡ done order
    → add_line line a ≡ (ok tt, a')
    → (a.state.state ≡ Standing.draft)
      × (is_undescribed line ≡ false)
      × (is_greater order ≡ false)
      × (is_bad_rate line.vat_basis_points ≡ false)
      × (a' ≡ record a { state = record a.state { lines = push a.state.lines line } })
unfolding add_line
add_line-passed line a a' price order priced fine compared h = ground arith

-- A line that is taken is a fair offer in the quotation's currency, and stands last. The quotation
-- was a draft, and nothing else of it changes.
pub add_line-IsOffered :
    (line : QuotationLine) (a : Quotation) {a' : Quotation}
    → add_line line a ≡ (ok tt, a')
    → (a.state.state ≡ Standing.draft)
      × ((price : Money) × IsOffered a.state.currency line price)
      × (a' ≡ record a { state = record a.state { lines = push a.state.lines line } })
unfolding add_line
add_line-IsOffered line a {a'} h = elim (Throws-cases (quoted_price line.pricing)) [
  | inr (e, thrown) ↦ absurd (ground arith)
  | inl (price, priced) ↦ elim (Option-cases (refused_price a.state.currency line price)) [
    | inr (e, refused) ↦ absurd (ground arith)
    | inl fine ↦ elim (Throws-cases (compare_money line.discount price)) [
      | inr (e, thrown) ↦ absurd (ground arith)
      | inl (order, compared) ↦
          let (one, two, three, four) = refused_price-none a.state.currency line price fine in
          let (drafted, described, order_small, rate, same) =
            add_line-passed line a a' price order priced fine compared h in
          let (_, _, _, small, _) = compare_money-done line.discount price compared in
          (
            drafted,
            (
              price,
              record {
                described = described;
                priced = priced;
                price_currency = one;
                discount_currency = two;
                has_hours = three;
                discount_nonneg = four;
                discount_le_price = small (λ e. cc (ap is_greater e));
                good_rate = rate;
              },
            ),
            same,
          )
    ]
  ]
]
