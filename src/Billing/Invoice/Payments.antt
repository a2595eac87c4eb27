-- ===== src/Billing/Invoice/Payments.antt =====
-- `recordPayment` of invoice.ts: the ways through the method, and the state after each.
use amc_system.Base.{
  ◌≡◌, ◌≢◌, refl, sym, subst, ◌∙◌, Bool, true, false, arith, All, any, push, any-push_self, inl,
  inr, ◌⊎◌, none, some, flat_map, Option-cases,
}
use amc_system.Base.Int.{ℤ, pos, ◌≤ℤ◌, ◌<ℤ◌}
use amc_system.Base.Text.{eq_text, eq_text_refl}
use amc_system.Kernel.Throws.{ProgrammerError, Throws, done, Throws-cases}
use amc_system.Kernel.Aggregate.{ok, err, threw, Outcome}
use amc_system.Kernel.Money.{Money}
use amc_system.Kernel.Money.Sums.{InCurrency, eq_of_eq_currency, eq_currency_refl}
use amc_system.Billing.Invoice.State.{
  Settlement, Payment, InvoiceSnapshot, InvoiceConflict, InvoiceEvent,
}
use amc_system.Billing.Invoice.{
  Invoice, balance, total, net, vat, with_payment, is_settled_by, refused_payment, record_payment,
  amount_and_discount,
}
use amc_system.Billing.Invoice.Amounts.{IsBalance, left_minor, balance-done, is_settled_by-done}

-- What a payment has to be, to be taken.
pub record IsAcceptable (s : InvoiceSnapshot) (p : Payment) : Type 0 where
  pub not_cancelled : s.settlement ≢ Settlement.cancelled
  pub same_currency : p.amount.currency ≡ s.currency
  pub positive : pos 0 <ℤ p.amount.minor_units
  pub after_issue : s.issued_on ≤ℤ p.received_on
  pub fresh : any (λ q. eq_text q.id p.id) s.payments ≡ false

refused_payment-IsAcceptable :
    (s : InvoiceSnapshot) (p : Payment) → refused_payment s p ≡ none → IsAcceptable s p
unfolding refused_payment
refused_payment-IsAcceptable s p h = ground (arith, eq_of_eq_currency p.amount.currency s.currency)

-- The invoice after a payment that was taken.
abbrev pub taken : Payment → Invoice → Bool → Money → Invoice
taken p a settled left = record {
  state = with_payment a.state p settled;
  pending = push a.pending (
      InvoiceEvent.payment_received a.state.id p.received_on a.state.client_id p.id
        p.amount.minor_units left.minor_units settled);
}

module _ (p : Payment) (a : Invoice) where
  -- One equation for each way through the method.
  pub record_payment-refused :
      (e : InvoiceConflict) → refused_payment a.state p ≡ some e → record_payment p a ≡ (err e, a)
  unfolding record_payment
  record_payment-refused e refused = rw refused

  pub record_payment-uncovered :
      (e : ProgrammerError)
      → refused_payment a.state p ≡ none
      → is_settled_by a.state p ≡ Throws.threw e
      → record_payment p a ≡ (threw e, a)
  unfolding record_payment
  record_payment-uncovered e guards thrown = rw (guards, thrown)

  pub record_payment-unbalanced :
      (e : ProgrammerError) (settled : Bool)
      → refused_payment a.state p ≡ none
      → is_settled_by a.state p ≡ done settled
      → balance (with_payment a.state p settled) ≡ Throws.threw e
      → record_payment p a ≡ (threw e, record a { state = with_payment a.state p settled })
  unfolding record_payment
  record_payment-unbalanced e settled guards covers thrown = rw (guards, covers, thrown)

  pub record_payment-taken :
      (settled : Bool) (left : Money)
      → refused_payment a.state p ≡ none
      → is_settled_by a.state p ≡ done settled
      → balance (with_payment a.state p settled) ≡ done left
      → record_payment p a ≡ (ok tt, taken p a settled left)
  unfolding record_payment
  record_payment-taken settled left guards covers owes = rw (guards, covers, owes)

-- The ways through the method, with what it gives.
pub data Way (p : Payment) (a : Invoice) (r : Outcome InvoiceConflict (Unit {0}) × Invoice)
    : Type 0 where
  refused : (e : InvoiceConflict) → r ≡ (err e, a) → Way p a r
  uncovered : (e : ProgrammerError) → r ≡ (threw e, a) → Way p a r
  unbalanced :
      (e : ProgrammerError) (settled : Bool)
      → IsAcceptable a.state p
      → is_settled_by a.state p ≡ done settled
      → r ≡ (threw e, record a { state = with_payment a.state p settled })
      → Way p a r
  taken_with :
      (settled : Bool) (left : Money)
      → IsAcceptable a.state p
      → is_settled_by a.state p ≡ done settled
      → balance (with_payment a.state p settled) ≡ done left
      → r ≡ (ok tt, taken p a settled left)
      → Way p a r

pub record_payment-Way : (p : Payment) (a : Invoice) → Way p a (record_payment p a)
record_payment-Way p a = elim (Option-cases (refused_payment a.state p)) [
  | inr (e, because) ↦ refused e (record_payment-refused p a e because)
  | inl guards ↦ elim (Throws-cases (is_settled_by a.state p)) [
    | inr (e, thrown) ↦ uncovered e (record_payment-uncovered p a e guards thrown)
    | inl (settled, covers) ↦
        let fine = refused_payment-IsAcceptable a.state p guards in
        elim (Throws-cases (balance (with_payment a.state p settled))) [
          | inr (e, thrown) ↦
              unbalanced e settled fine covers
                (record_payment-unbalanced p a e settled guards covers thrown)
          | inl (left, owes) ↦
              taken_with settled left fine covers owes
                (record_payment-taken p a settled left guards covers owes)
        ]
  ]
]

-- The ways that end well.
pub record_payment-taken_with :
    (p : Payment) (a : Invoice) {a' : Invoice}
    → record_payment p a ≡ (ok tt, a')
    → (settled : Bool) × (left : Money) × IsAcceptable a.state p
      × (is_settled_by a.state p ≡ done settled)
      × (balance (with_payment a.state p settled) ≡ done left)
      × (a' ≡ taken p a settled left)
record_payment-taken_with p a {a'} h = found (record_payment-Way p a)
  where
    found :
        Way p a (record_payment p a)
        → (settled : Bool) × (left : Money) × IsAcceptable a.state p
          × (is_settled_by a.state p ≡ done settled)
          × (balance (with_payment a.state p settled) ≡ done left)
          × (a' ≡ taken p a settled left)
    found (refused e r) = absurd (cc)
    found (uncovered e r) = absurd (cc)
    found (unbalanced e settled fine covers r) = absurd (cc)
    found (taken_with settled left fine covers owes r) = (settled, left, fine, covers, owes, cc)

-- What is owed after a payment that was taken, by how the invoice then stands.
abbrev pub Owes : InvoiceSnapshot → Money → Type 0
Owes s left =
    (s.settlement ≡ Settlement.paid → left.minor_units ≡ pos 0)
    × (s.settlement ≡ Settlement.part_paid → pos 0 <ℤ left.minor_units)
    × ((s.settlement ≡ Settlement.paid) ⊎ (s.settlement ≡ Settlement.part_paid))

-- A payment changes no total.
pub total-with_payment :
    (s : InvoiceSnapshot) (p : Payment) (settled : Bool)
    → total (with_payment s p settled) ≡ total s
unfolding total vat net
total-with_payment s p settled = refl

owed :
    (s : InvoiceSnapshot) (p : Payment) (settled : Bool) (minor : ℤ) (left : Money)
    → (settled ≡ true → minor ≤ℤ pos 0)
    → (settled ≡ false → pos 0 <ℤ minor)
    → IsBalance minor left.minor_units
    → Owes (with_payment s p settled) left
owed s p true minor left nothing something (_, _, _, zero) =
    (λ _. zero (nothing refl), λ e. cc, inl refl)
owed s p false minor left nothing something (_, _, exact, _) =
    let positive = something refl in
    (
      λ e. cc,
      λ _. subst (λ z. pos 0 <ℤ z) (sym (exact (le_of_lt minor positive))) positive,
      inr refl,
    )
  where
    le_of_lt : (z : ℤ) → pos 0 <ℤ z → pos 0 ≤ℤ z
    le_of_lt z h = omega arith

done_injective : {a b : Money} → done a ≡ done b → a ≡ b
done_injective h = cc

with_payment-Owes :
    (s : InvoiceSnapshot) (p : Payment) (settled : Bool) (left : Money)
    → is_settled_by s p ≡ done settled
    → balance (with_payment s p settled) ≡ done left
    → Owes (with_payment s p settled) left
with_payment-Owes s p settled left covers owes =
    let (t, is_total, _, nothing, something) = is_settled_by-done s p covers in
    let (u, is_total', cut) = balance-done (with_payment s p settled) owes in
    let same : u ≡ t = done_injective (sym is_total' ∙ total-with_payment s p settled ∙ is_total) in
    owed s p settled (left_minor t (push s.payments p)) left nothing something
      (subst (λ z. IsBalance (left_minor z (push s.payments p)) left.minor_units) same cut)

-- A payment that is taken was acceptable, and stands last among the payments. Every amount and
-- discount is then in the invoice's currency. The invoice is paid, with nothing owed and no
-- lateness, or part paid, with something owed.
pub record_payment_settles :
    (p : Payment) (a : Invoice) {a' : Invoice}
    → record_payment p a ≡ (ok tt, a')
    → IsAcceptable a.state p
      × (a'.state.payments ≡ push a.state.payments p)
      × All (InCurrency a.state.currency) (flat_map amount_and_discount a'.state.payments)
      × ((left : Money) × (balance a'.state ≡ done left) × Owes a'.state left)
      × (a'.state.settlement ≡ Settlement.paid → a'.state.overdue_since ≡ none)
record_payment_settles p a {a'} h =
    let (settled, left, fine, covers, owes, same) = record_payment-taken_with p a h in
    let (_, _, all, _, _) = is_settled_by-done a.state p covers in
    rw same (
      fine,
      refl,
      all,
      (left, owes, with_payment-Owes a.state p settled left covers owes),
      paid_on_time settled,
    )
  where
    paid_on_time :
        (settled : Bool)
        → (with_payment a.state p settled).settlement ≡ Settlement.paid
        → (with_payment a.state p settled).overdue_since ≡ none
    paid_on_time true e = refl
    paid_on_time false e = cc

refused_again :
    (p : Payment) (s : InvoiceSnapshot) (settled : Bool)
    → IsAcceptable s p
    → refused_payment (with_payment s p settled) p ≡ some InvoiceConflict.payment_recorded_already
unfolding refused_payment
refused_again p s true fine = ground (
  arith,
  any-push_self (λ q. eq_text q.id p.id) s.payments p (eq_text_refl p.id),
  eq_currency_refl s.currency,
)
refused_again p s false fine = ground (
  arith,
  any-push_self (λ q. eq_text q.id p.id) s.payments p (eq_text_refl p.id),
  eq_currency_refl s.currency,
)

-- A payment is counted once: recording it again is refused, and changes nothing.
pub record_payment_once :
    (p : Payment) (a : Invoice) {a' : Invoice}
    → record_payment p a ≡ (ok tt, a')
    → record_payment p a' ≡ (err InvoiceConflict.payment_recorded_already, a')
record_payment_once p a {a'} h =
    let (settled, left, fine, covers, owes, same) = record_payment-taken_with p a h in
    rw same (
      record_payment-refused p (taken p a settled left) InvoiceConflict.payment_recorded_already
        (refused_again p a.state settled fine))
