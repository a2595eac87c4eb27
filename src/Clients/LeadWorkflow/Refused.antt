-- ===== src/Clients/LeadWorkflow/Refused.antt =====
-- Conversions that are refused (lead-workflow.ts).
use amc_system.Base.{ℕ, ◌<◌, ◌≡◌, refl, false, none, some, push, arith}
use amc_system.Base.Text.{Text, trim, trim_twice, is_empty}
use amc_system.Kernel.Aggregate.{err}
use amc_system.Kernel.Duration.{Instant}
use amc_system.Clients.Client.{Client, onboard}
use amc_system.Clients.Lead.{Lead, declined, was_declined, convert_to}
use amc_system.Clients.LeadWorkflow.{Store, not_moved, convert}

-- No enquiry names a client by an identifier that the generator is still to give.
abbrev pub IsAhead : (ℕ → Text) → Store → Type 0
IsAhead ids store =
    (id client_id : Text) (b : Lead)
    → store.leads id ≡ some b
    → b.state.converted_client_id ≡ some client_id
    → (n : ℕ) × (n < store.taken) × (client_id ≡ ids n)

-- Of a generator that never gives an identifier twice, and with every client that an enquiry names
-- having one that it gave before: to convert an enquiry that was declined and has no client is refused,
-- and yet leaves a client in the store that was not there. It has the name that was given and the
-- identifier that was next; the enquiries are those of before, and none of them names it.
pub refused_conversion_leaves_client :
    (ids : ℕ → Text) (id legal_name : Text) (now : Instant) (store : Store) {a : Lead}
    → ((n m : ℕ) → ids n ≡ ids m → n ≡ m)
    → IsAhead ids store
    → store.leads id ≡ some a
    → a.state.status ≡ declined
    → a.state.converted_client_id ≡ none
    → is_empty (trim legal_name) ≡ false
    → let (r, store') = convert ids id legal_name now store in
      (r ≡ err (not_moved was_declined))
      × ((c : Client) × (store'.clients ≡ push store.clients c)
          × (c.state.id ≡ ids store.taken)
          × (c.state.legal_name ≡ trim legal_name)
          × ((other : Text) (b : Lead)
              → store'.leads other ≡ some b
              → ¬ (b.state.converted_client_id ≡ some c.state.id)))
      × (store'.leads ≡ store.leads)
unfolding convert convert_to onboard
refused_conversion_leaves_client ids id legal_name now store {a} once ahead found status nobody
      named =
    rw (found, nobody, trim_twice legal_name, named, status)
      (refl, (_, refl, refl, refl, unnamed), refl)
  where
    unnamed :
        (other : Text) (b : Lead)
        → store.leads other ≡ some b
        → ¬ (b.state.converted_client_id ≡ some (ids store.taken))
    unnamed other b there names =
        let (n, before, same) = ahead other (ids store.taken) b there names in
        let e : store.taken ≡ n = once store.taken n same in omega arith
