-- ===== src/Billing/Invoice/Validity.antt =====
-- The well-formed states of an invoice (invoice.ts), over its calls.
use amc_system.Base.{
  ◌≡◌, ◌≢◌, refl, ap, sym, subst, Bool, true, false, List, [], ◌∷◌, arith, All, All-append, any,
  push, inl, inr, ◌⊎◌, none, some, ◌↔◌, flat_map, is_some,
}
use amc_system.Base.Int.{pos, ◌<ℤ◌}
use amc_system.Base.Text.{Text, eq_text, eq_text_comm}
use amc_system.Kernel.Throws.{done}
use amc_system.Kernel.Aggregate.{ok}
use amc_system.Kernel.Money.{Currency}
use amc_system.Kernel.Money.Sums.{InCurrency}
use amc_system.Kernel.Duration.{Instant}
use amc_system.Billing.Invoice.State.{Settlement, Status, Payment, InvoiceSnapshot, RaiseParams}
use amc_system.Billing.Invoice.{
  Invoice, with_payment, is_settled_by, record_payment, mark_overdue, cancel, amount_and_discount,
  raise, status,
}
use amc_system.Billing.Invoice.Amounts.{is_settled_by-done}
use amc_system.Billing.Invoice.Raising.{IsBillable, raise_lem}
use amc_system.Billing.Invoice.Payments.{
  IsAcceptable, Way, refused, uncovered, unbalanced, taken_with, record_payment-Way,
}
use amc_system.Billing.Invoice.Lifecycle.{Command, execute, execute_all}

-- No two payments have one id.
abbrev pub AreDistinct : List Payment → Type 0
AreDistinct [] = Unit
AreDistinct (p ∷ ps) = (any (λ q. eq_text q.id p.id) ps ≡ false) × AreDistinct ps

abbrev pub IsSound : Currency → Payment → Type 0
IsSound c p = (p.amount.currency ≡ c) × (p.discount.currency ≡ c) × (pos 0 <ℤ p.amount.minor_units)

-- What holds of an invoice between two calls.
pub record IsValid (s : InvoiceSnapshot) : Type 0 where
  pub lines_billable : All (IsBillable s.currency) s.lines
  pub payments_sound : All (IsSound s.currency) s.payments
  pub payments_distinct : AreDistinct s.payments
  pub issued_unpaid : s.settlement ≡ Settlement.issued → s.payments ≡ []
  pub cancelled_unpaid : s.settlement ≡ Settlement.cancelled → s.payments ≡ []
  pub paid_on_time : s.settlement ≡ Settlement.paid → s.overdue_since ≡ none
  pub cancelled_on_time : s.settlement ≡ Settlement.cancelled → s.overdue_since ≡ none
  pub late_after_due : (t : Instant) → s.overdue_since ≡ some t → s.due_on <ℤ t

any-push-false :
    (x : Payment) (ps : List Payment) (p : Payment)
    → any (λ q. eq_text q.id x.id) ps ≡ false
    → eq_text p.id x.id ≡ false
    → any (λ q. eq_text q.id x.id) (push ps p) ≡ false
any-push-false x [] p h k = ground arith
any-push-false x (y ∷ ps) p h k = ground (arith, any-push-false x ps p)

AreDistinct-push :
    (ps : List Payment) (p : Payment)
    → AreDistinct ps
    → any (λ q. eq_text q.id p.id) ps ≡ false
    → AreDistinct (push ps p)
AreDistinct-push [] p d fresh = (refl, tt)
AreDistinct-push (x ∷ ps) p d fresh =
    ground (arith, AreDistinct-push ps p d.1, any-push-false x ps p, eq_text_comm x.id p.id)

IsSound-of_currencies :
    (c : Currency) (ps : List Payment)
    → All (InCurrency c) (flat_map amount_and_discount ps)
    → All (λ p. pos 0 <ℤ p.amount.minor_units) ps
    → All (IsSound c) ps
IsSound-of_currencies c [] h k = tt
IsSound-of_currencies c (p ∷ ps) h k = ((h.0, h.1.0, k.0), IsSound-of_currencies c ps h.1.1 k.1)

-- Marking late leaves the state alone, or sets the day on an open invoice that is past due.
mark_overdue-state :
    (as_of : Instant) (a : Invoice)
    → ((mark_overdue as_of a).1.state ≡ a.state)
      ⊎ (((mark_overdue as_of a).1.state ≡ record a.state { overdue_since = some as_of })
          × (a.state.due_on <ℤ as_of)
          × (a.state.settlement ≢ Settlement.paid)
          × (a.state.settlement ≢ Settlement.cancelled))
unfolding mark_overdue
mark_overdue-state as_of a = grind arith

marked-IsValid :
    (s : InvoiceSnapshot) (as_of : Instant)
    → s.due_on <ℤ as_of
    → s.settlement ≢ Settlement.paid
    → s.settlement ≢ Settlement.cancelled
    → IsValid s
    → IsValid (record s { overdue_since = some as_of })
marked-IsValid s as_of late not_paid not_cancelled v = record {
  lines_billable = v.lines_billable;
  payments_sound = v.payments_sound;
  payments_distinct = v.payments_distinct;
  issued_unpaid = v.issued_unpaid;
  cancelled_unpaid = v.cancelled_unpaid;
  paid_on_time = λ e. absurd (not_paid e);
  cancelled_on_time = λ e. absurd (not_cancelled e);
  late_after_due = λ t e. ground arith;
}

mark_overdue-IsValid :
    (as_of : Instant) (a : Invoice) → IsValid a.state → IsValid (mark_overdue as_of a).1.state
mark_overdue-IsValid as_of a v = elim (mark_overdue-state as_of a) [
  | inl e ↦ subst IsValid (sym e) v
  | inr (e, late, not_paid, not_cancelled) ↦
      subst IsValid (sym e) (marked-IsValid a.state as_of late not_paid not_cancelled v)
]

cancel-state :
    (reason : Text) (now : Instant) (a : Invoice)
    → ((cancel reason now a).1.state ≡ a.state)
      ⊎ (((cancel reason now a).1.state
            ≡ record a.state { settlement = Settlement.cancelled; overdue_since = none })
          × (a.state.payments ≡ []))
unfolding cancel
cancel-state reason now a = grind arith

called_off-IsValid :
    (s : InvoiceSnapshot)
    → s.payments ≡ []
    → IsValid s
    → IsValid (record s { settlement = Settlement.cancelled; overdue_since = none })
called_off-IsValid s unpaid v = record {
  lines_billable = v.lines_billable;
  payments_sound = v.payments_sound;
  payments_distinct = v.payments_distinct;
  issued_unpaid = λ e. cc;
  cancelled_unpaid = λ e. unpaid;
  paid_on_time = λ e. cc;
  cancelled_on_time = λ e. refl;
  late_after_due = λ t e. cc;
}

cancel-IsValid :
    (reason : Text) (now : Instant) (a : Invoice)
    → IsValid a.state
    → IsValid (cancel reason now a).1.state
cancel-IsValid reason now a v = elim (cancel-state reason now a) [
  | inl e ↦ subst IsValid (sym e) v
  | inr (e, unpaid) ↦ subst IsValid (sym e) (called_off-IsValid a.state unpaid v)
]

All-positive :
    (c : Currency) (ps : List Payment)
    → All (IsSound c) ps
    → All (λ p. pos 0 <ℤ p.amount.minor_units) ps
All-positive c [] h = tt
All-positive c (p ∷ ps) h = (h.0.2, All-positive c ps h.1)

with_payment-IsValid :
    (s : InvoiceSnapshot) (p : Payment) (settled : Bool)
    → IsAcceptable s p
    → is_settled_by s p ≡ done settled
    → IsValid s
    → IsValid (with_payment s p settled)
with_payment-IsValid s p settled fine covers v =
    let (_, _, currencies, _, _) = is_settled_by-done s p covers in
    let positive =
      All-append (λ q. pos 0 <ℤ q.amount.minor_units) s.payments (p ∷ [])
        (All-positive s.currency s.payments v.payments_sound) (fine.positive, tt) in
    record {
      lines_billable = v.lines_billable;
      payments_sound = IsSound-of_currencies s.currency (push s.payments p) currencies positive;
      payments_distinct = AreDistinct-push s.payments p v.payments_distinct fine.fresh;
      issued_unpaid = λ e. absurd (not_issued settled e);
      cancelled_unpaid = λ e. absurd (not_cancelled settled e);
      paid_on_time = on_time settled;
      cancelled_on_time = λ e. absurd (not_cancelled settled e);
      late_after_due = late settled;
    }
  where
    not_issued : (b : Bool) → (with_payment s p b).settlement ≢ Settlement.issued
    not_issued true e = cc
    not_issued false e = cc

    not_cancelled : (b : Bool) → (with_payment s p b).settlement ≢ Settlement.cancelled
    not_cancelled true e = cc
    not_cancelled false e = cc

    on_time :
        (b : Bool)
        → (with_payment s p b).settlement ≡ Settlement.paid
        → (with_payment s p b).overdue_since ≡ none
    on_time true e = refl
    on_time false e = cc

    late : (b : Bool) (t : Instant) → (with_payment s p b).overdue_since ≡ some t → s.due_on <ℤ t
    late true t e = cc
    late false t e = v.late_after_due t e

record_payment-IsValid :
    (p : Payment) (a : Invoice)
    → Way p a (record_payment p a)
    → IsValid a.state
    → IsValid (record_payment p a).1.state
record_payment-IsValid p a (refused e r) v = subst IsValid (sym (ap (λ t. t.1.state) r)) v
record_payment-IsValid p a (uncovered e r) v = subst IsValid (sym (ap (λ t. t.1.state) r)) v
record_payment-IsValid p a (unbalanced e settled fine covers r) v =
    subst IsValid (sym (ap (λ t. t.1.state) r))
      (with_payment-IsValid a.state p settled fine covers v)
record_payment-IsValid p a (taken_with settled left fine covers owes r) v =
    subst IsValid (sym (ap (λ t. t.1.state) r))
      (with_payment-IsValid a.state p settled fine covers v)

-- However a call ends, also by an exception, a valid invoice stays valid.
pub execute-IsValid : (c : Command) (a : Invoice) → IsValid a.state → IsValid (execute c a).1.state
unfolding execute
execute-IsValid (Command.pay p) a v = record_payment-IsValid p a (record_payment-Way p a) v
execute-IsValid (Command.fall_due as_of) a v = mark_overdue-IsValid as_of a v
execute-IsValid (Command.call_off reason now) a v = cancel-IsValid reason now a v

execute_all-IsValid :
    (cs : List Command) (a : Invoice) → IsValid a.state → IsValid (execute_all cs a).state
unfolding execute_all
execute_all-IsValid [] a v = v
execute_all-IsValid (c ∷ cs) a v = execute_all-IsValid cs (execute c a).1 (execute-IsValid c a v)

raised-IsValid : (p : RaiseParams) (a : Invoice) → raise p ≡ ok a → IsValid a.state
raised-IsValid p a h =
    let (fine, (_, _, same)) = raise_lem p h in
    subst IsValid (sym (ap (λ b. b.state) same)) (record {
      lines_billable = fine.billable;
      payments_sound = tt;
      payments_distinct = tt;
      issued_unpaid = λ e. refl;
      cancelled_unpaid = λ e. refl;
      paid_on_time = λ e. refl;
      cancelled_on_time = λ e. refl;
      late_after_due = λ t e. cc;
    })

-- Whatever is called on an invoice that was raised, in any order, it stays valid: its lines are
-- billable, its payments positive, distinct and in its currency, it has none while it is issued or
-- cancelled, and it is late only past its due day and while it is open.
pub execute_all-raised :
    (p : RaiseParams) {a : Invoice} (cs : List Command)
    → raise p ≡ ok a
    → IsValid (execute_all cs a).state
execute_all-raised p {a} cs h = execute_all-IsValid cs a (raised-IsValid p a h)

-- A valid invoice is shown as overdue exactly when the day that it became late is recorded.
pub status-overdue_iff :
    (s : InvoiceSnapshot)
    → IsValid s
    → (status s ≡ Status.overdue) ↔ (is_some s.overdue_since ≡ true)
unfolding status
status-overdue_iff s v =
    (λ h. ground arith, λ h. ground (arith, v.paid_on_time, v.cancelled_on_time))
