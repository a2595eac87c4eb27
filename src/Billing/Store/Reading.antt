-- ===== src/Billing/Store/Reading.antt =====
-- What is read of the store after a write (statement.repository.ts).
use amc_system.Base.{◌≡◌, refl, ap, sym, ◌∙◌, some, arith, Option-cases, inl, inr}
use amc_system.Base.Text.{Text, eq_text_refl}
use amc_system.Billing.Statement.{Statement}
use amc_system.Billing.Store.{Store, IsKeyed, find_by_id, read_back, save}

pub some_injective {ℓ} : {A : Type ℓ} {x y : A} → some x ≡ some y → x ≡ y
some_injective h = cc

-- The statement that is read has the id that it was asked for by.
pub find_by_id-id :
    (id : Text) (store : Store) {a : Statement}
    → IsKeyed store
    → find_by_id id store ≡ some a
    → a.state.id ≡ id
unfolding find_by_id
find_by_id-id id store {a} keyed h = elim (Option-cases (store.statements id)) [
  | inl missing ↦ absurd (ground arith)
  | inr (b, held) ↦
      let read : read_back store.rows b ≡ a = some_injective (sym (rw held refl) ∙ h) in
      ap (λ x. x.state.id) (sym read) ∙ keyed id b held
]

-- A statement that was just saved is the one that is read.
pub find_by_id-save :
    (id : Text) (a : Statement) (store : Store)
    → a.state.id ≡ id
    → find_by_id id (save a store) ≡ some (read_back store.rows a)
unfolding find_by_id save
find_by_id-save id a store h = rw (h, eq_text_refl id) refl

pub save-rest :
    (a : Statement) (store : Store)
    → ((save a store).invoices ≡ store.invoices)
      × ((save a store).numbers ≡ store.numbers)
      × ((save a store).rows ≡ store.rows)
unfolding save
save-rest a store = (refl, refl, refl)
