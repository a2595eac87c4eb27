-- ===== src/Projects/Recurrence/Sweep/Single.antt =====
-- One project for each client, service and period, in recurrence.ts.
use amc_system.Base.{
  ℕ, ◌+◌, ◌≤◌, ◌≡◌, refl, sym, subst, ◌∙◌, Bool, true, false, ◌&&◌, ◌||◌, Option, none, some, List,
  [], ◌∷◌, push, All, All-map_of, any, filter, length, is_some, arith, inl, inr, Bool-cases,
  if◌then◌else◌,
}
use amc_system.Base.Text.{Text, eq_text, eq_text_refl, eq_of_eq_text}
use amc_system.Projects.Project.State.{ProjectSnapshot}
use amc_system.Projects.Recurrence.Sweep.{
  ClientService, Tables, all_active, row_of, same_work, has_key, is_for, exists_for_period,
}

-- No two projects are for the same client, service and period.
abbrev pub IsSingle : Tables → Type 0
IsSingle t = (id key : Text) → length (filter (is_for t.services id key) t.projects) ≤ 1

length-filter-push :
    (f : ProjectSnapshot → Bool) (ps : List ProjectSnapshot) (p : ProjectSnapshot)
    → length (filter f (push ps p)) ≡ length (filter f ps) + (if f p then 1 else 0)
length-filter-push f [] p = ground arith
length-filter-push f (q ∷ qs) p = ground (arith, length-filter-push f qs p)

none_left :
    (f g : ProjectSnapshot → Bool) (ps : List ProjectSnapshot)
    → ((q : ProjectSnapshot) → f q ≡ true → g q ≡ true)
    → any g ps ≡ false
    → length (filter f ps) ≡ 0
none_left f g [] h k = refl
none_left f g (q ∷ qs) h k = elim (Bool-cases (f q)) [
  | inl fits ↦ let both : g q ≡ true = h q fits in absurd (ground (arith, both))
  | inr other ↦ rw other (none_left f g qs h (later (g q) (any g qs) k))
]
  where
    later : (a b : Bool) → (a || b) ≡ false → b ≡ false
    later true b e = cc
    later false b e = e

pub same_work_refl : (o : Option ClientService) → is_some o ≡ true → same_work o o ≡ true
same_work_refl none h = cc
same_work_refl (some a) h = rw (eq_text_refl a.client_id, eq_text_refl a.service) refl

both : (a b : Bool) → (a && b) ≡ true → (a ≡ true) × (b ≡ true)
both true b h = (refl, h)
both false b h = cc

-- What is the work of `o` as well as of `p` makes `p` the work of `q`.
same_work_through :
    (o p q : Option ClientService)
    → same_work p o ≡ true
    → same_work q o ≡ true
    → same_work q p ≡ true
same_work_through none none q h k = cc
same_work_through none (some a) q h k = cc
same_work_through (some c) none q h k = cc
same_work_through (some c) (some a) none h k = cc
same_work_through (some c) (some a) (some b) h k =
    let (ac, asv) = both _ _ h in
    let (bc, bs) = both _ _ k in
    let client : b.client_id ≡ a.client_id =
      eq_of_eq_text b.client_id c.client_id bc ∙ sym (eq_of_eq_text a.client_id c.client_id ac) in
    let service : b.service ≡ a.service =
      eq_of_eq_text b.service c.service bs ∙ sym (eq_of_eq_text a.service c.service asv) in
    rw (client, service, eq_text_refl a.client_id, eq_text_refl a.service) refl

has_key_same :
    (key k : Text) (o : Option Text)
    → has_key key (some k) ≡ true
    → has_key key o ≡ true
    → has_key k o ≡ true
has_key_same key k o h e = rw (eq_of_eq_text k key h) e

-- A project like the new one, of a client, service and period, is one of the new project's.
is_for_same :
    (rows : List ClientService) (id key k : Text) (p q : ProjectSnapshot)
    → p.period_key ≡ some k
    → is_for rows id key p ≡ true
    → is_for rows id key q ≡ true
    → is_for rows p.client_service_id k q ≡ true
is_for_same rows id key k p q e h h' =
    let (keyed, work) = both _ _ h in
    let (keyed', work') = both _ _ h' in
    let first : has_key k q.period_key ≡ true =
      has_key_same key k q.period_key (subst (λ o. has_key key o ≡ true) e keyed) keyed' in
    let second : same_work (row_of q.client_service_id rows) (row_of p.client_service_id rows)
        ≡ true =
      same_work_through (row_of id rows) (row_of p.client_service_id rows)
        (row_of q.client_service_id rows) work work' in
    rw (first, second) refl

-- A project for which there was none yet leaves every work single.
pub push-IsSingle :
    (t : Tables) (p : ProjectSnapshot) (k : Text) (issued : ℕ)
    → p.period_key ≡ some k
    → exists_for_period t p.client_service_id k ≡ false
    → IsSingle t
    → IsSingle (record t { projects = push t.projects p; issued = issued })
push-IsSingle t p k issued e missing single = λ id key.
    elim (Bool-cases (is_for t.services id key p)) [
      | inr other ↦
          let counted = length-filter-push (is_for t.services id key) t.projects p in
          let before = single id key in ground (arith, counted, other)
      | inl fits ↦
          let counted = length-filter-push (is_for t.services id key) t.projects p in
          let nothing =
            none_left (is_for t.services id key) (is_for t.services p.client_service_id k)
              t.projects (λ q. is_for_same t.services id key k p q e fits) missing in
          ground (arith, counted, nothing, fits)
    ]

-- The engagements in a table have a row there.
rows-found : (rows : List ClientService) → All (λ r. is_some (row_of r.id rows) ≡ true) rows
rows-found [] = tt
rows-found (r ∷ rs) = (
  rw (eq_text_refl r.id) refl,
  All-map_of (λ q. is_some (row_of q.id rs) ≡ true) (λ q. is_some (row_of q.id (r ∷ rs)) ≡ true)
      (λ q h. still q h) rs (rows-found rs),
)
  where
    still :
        (q : ClientService)
        → is_some (row_of q.id rs) ≡ true
        → is_some (row_of q.id (r ∷ rs)) ≡ true
    still q h = elim (Bool-cases (eq_text r.id q.id)) [
      | inl same ↦ rw same refl
      | inr other ↦ rw other h
    ]

All-filter {ℓ κ} :
    {A : Type ℓ} (P : A → Type κ) (f : A → Bool) (xs : List A) → All P xs → All P (filter f xs)
All-filter P f [] h = tt
All-filter P f (x ∷ xs) h = elim (Bool-cases (f x)) [
  | inl fits ↦ rw fits (h.0, All-filter P f xs h.1)
  | inr other ↦ rw other (All-filter P f xs h.1)
]

pub all_active-found :
    (service : Text) (rows : List ClientService)
    → All (λ r. is_some (row_of r.id rows) ≡ true) (all_active service rows)
all_active-found service rows = All-filter _ _ rows (rows-found rows)
