-- ===== src/Whatsapp/Message/Order.antt =====
-- The order in which the callbacks for a message arrive (message.ts).
use mathlib.Core.List.{Perm, Permᴰ}
use mathlib.Core.Logic.{∥∥₁_elim}
use native.Mathlib.Nat.{ℕ_set}
use amc_system.Base.{
  ℕ, ◌≤◌, ◌≡◌, refl, ap, ap₂, sym, ◌∙◌, Option, List, [], ◌∷◌, ltb, ◌==◌, arith, inl, inr,
  Bool-cases, if◌then◌else◌,
}
use amc_system.Base.Text.{Text}
use amc_system.Whatsapp.Message.{
  DeliveryStatus, received, queued, sent, delivered, read, failed, progress, Message, forwards_only,
  advance_to, advance_all,
}

abbrev reached : ℕ → DeliveryStatus
reached n =
    if n == 0
    then received
    else if n == 1
    then queued
    else if n == 2
    then sent
    else if n == 3
    then delivered
    else if n == 4
    then read
    else failed

reached-progress : (s : DeliveryStatus) → reached (progress s) ≡ s
reached-progress received = refl
reached-progress queued = refl
reached-progress sent = refl
reached-progress delivered = refl
reached-progress read = refl
reached-progress failed = refl

progress-cancel : (s t : DeliveryStatus) → progress s ≡ progress t → s ≡ t
progress-cancel s t e = sym (reached-progress s) ∙ ap reached e ∙ reached-progress t

abbrev further : ℕ → ℕ → ℕ
further m n = if ltb m n then n else m

progress-forwards_only :
    (current s : DeliveryStatus)
    → progress (forwards_only current s) ≡ further (progress current) (progress s)
progress-forwards_only current s = elim (Bool-cases (ltb (progress current) (progress s))) [
  | inl forwards ↦ rw forwards refl
  | inr stale ↦ rw stale refl
]

further_swap : (m n k : ℕ) → further (further m n) k ≡ further (further m k) n
further_swap m n k = ground arith

forwards_only_swap :
    (current s t : DeliveryStatus)
    → forwards_only (forwards_only current s) t ≡ forwards_only (forwards_only current t) s
forwards_only_swap current s t = progress-cancel _ _ (
    progress-forwards_only (forwards_only current s) t
    ∙ ap (λ n. further n (progress t)) (progress-forwards_only current s)
    ∙ further_swap (progress current) (progress s) (progress t)
    ∙ ap (λ n. further n (progress s)) (sym (progress-forwards_only current t))
    ∙ sym (progress-forwards_only (forwards_only current t) s))

failed-forwards_only : (current : DeliveryStatus) → failed ≡ forwards_only current failed
failed-forwards_only received = refl
failed-forwards_only queued = refl
failed-forwards_only sent = refl
failed-forwards_only delivered = refl
failed-forwards_only read = refl
failed-forwards_only failed = refl

-- Also a failure is a step forwards.
status-advance_to :
    (s : DeliveryStatus) (detail : Option Text) (m : Message)
    → (advance_to s detail m).status ≡ forwards_only m.status s
unfolding advance_to
status-advance_to received detail m = refl
status-advance_to queued detail m = refl
status-advance_to sent detail m = refl
status-advance_to delivered detail m = refl
status-advance_to read detail m = refl
status-advance_to failed detail m = failed-forwards_only m.status

status-advance_all :
    (cs : List (DeliveryStatus × Option Text)) (m n : Message)
    → m.status ≡ n.status
    → (advance_all cs m).status ≡ (advance_all cs n).status
unfolding advance_all
status-advance_all [] m n e = e
status-advance_all ((s, detail) ∷ cs) m n e =
    status-advance_all cs (advance_to s detail m) (advance_to s detail n) (
      status-advance_to s detail m
      ∙ ap (λ c. forwards_only c s) e
      ∙ sym (status-advance_to s detail n))

any_order :
    (cs ds : List (DeliveryStatus × Option Text)) (m : Message)
    → Permᴰ cs ds
    → (advance_all cs m).status ≡ (advance_all ds m).status
unfolding advance_all
any_order cs ds m Permᴰ.nil = refl
any_order cs ds m (Permᴰ.cons {a} {b} {l₁} {l₂} e p) =
    any_order l₁ l₂ (advance_to a.0 a.1 m) p
    ∙ ap (λ c. (advance_all l₂ (advance_to c.0 c.1 m)).status) e
any_order cs ds m (Permᴰ.swap {a} {b} {a'} {b'} {l} e₁ e₂) =
    status-advance_all l _ _ (
      status-advance_to b.0 b.1 (advance_to a.0 a.1 m)
      ∙ ap (λ c. forwards_only c b.0) (status-advance_to a.0 a.1 m)
      ∙ forwards_only_swap m.status a.0 b.0
      ∙ ap (λ c. forwards_only c a.0) (sym (status-advance_to b.0 b.1 m))
      ∙ sym (status-advance_to a.0 a.1 (advance_to b.0 b.1 m)))
    ∙ ap₂ (λ c d. (advance_all l (advance_to d.0 d.1 (advance_to c.0 c.1 m))).status) e₂ e₁
any_order cs ds m (Permᴰ.trans {l₁} {l₂} {l₃} p q) = any_order cs l₂ m p ∙ any_order l₂ ds m q

progress-advance_all :
    (cs : List (DeliveryStatus × Option Text)) (m : Message)
    → progress m.status ≤ progress (advance_all cs m).status
unfolding advance_all
progress-advance_all [] m = omega arith
progress-advance_all ((s, detail) ∷ cs) m =
    let later = progress-advance_all cs (advance_to s detail m) in
    let e : progress (advance_to s detail m).status ≡ further (progress m.status) (progress s) =
      ap progress (status-advance_to s detail m) ∙ progress-forwards_only m.status s in
    ground (arith, later, e)

-- However the callbacks for a message are ordered, its status ends as the same one; and that is never
-- less far along than the status it had.
pub callbacks_in_any_order :
    (cs ds : List (DeliveryStatus × Option Text)) (m : Message)
    → Perm cs ds
    → ((advance_all cs m).status ≡ (advance_all ds m).status)
      × (progress m.status ≤ progress (advance_all cs m).status)
callbacks_in_any_order cs ds m p = (
  progress-cancel _ _ (
      ∥∥₁_elim p (ℕ_set (progress (advance_all cs m).status) (progress (advance_all ds m).status))
        (λ d. ap progress (any_order cs ds m d))),
  progress-advance_all cs m,
)
