-- ===== src/Time/Service/Review.antt =====
-- packages/modules/time-tracking/application: time written down by hand and confirmed (timer-service.ts),
-- and approved (approve-time.ts).
use amc_system.Base.{
  ℕ, suc, ◌+◌, ◌≡◌, refl, sym, subst, Bool, false, ◌&&◌, Option, none, some, List, [], ◌∷◌, push,
  find, filter, length, length-append, is_some, arith, if◌then◌else◌, Bool-cases, Option-cases, inl,
  inr,
}
use amc_system.Base.Int.{ltb_ℤ}
use amc_system.Base.Text.{Text, eq_text}
use amc_system.Kernel.Throws.{Throws}
use amc_system.Kernel.Result.{Result}
use amc_system.Kernel.Aggregate.{Outcome, ok, err, threw}
use amc_system.Kernel.Duration.{Instant, Duration}
use amc_system.Time.Entry as Entry
use amc_system.Time.Entry.{TimeEntry, by_hand, worked_time, awaits_review, approve}
use amc_system.Time.Entry.State.{TimeEntryState, ManualParams, EntryConflict}
use amc_system.Time.Service.Tables.{
  Ports, Store, ServiceConflict, no_such_project, not_yet_done, no_such_entry, nothing_selected,
  of_entry, StoppedEntry, save_entry,
}

-- The argument of `recordManual`, without the person.
pub record ManualRequest : Type 0 where
  pub project : Text
  pub started_at : Instant
  pub ended_at : Instant
  pub reason : Text
  pub billable : Option Bool
  pub note : Option Text

abbrev manual_params : Text → Text → ManualRequest → ManualParams
manual_params id assignment r = record {
  id = id;
  assignment_id = assignment;
  started_at = r.started_at;
  ended_at = r.ended_at;
  reason = r.reason;
  billable = r.billable;
  note = r.note;
}

abbrev recorded_as : TimeEntry → Throws Duration → Outcome ServiceConflict StoppedEntry
recorded_as entry (Throws.done worked) =
    ok (record { entry_id = entry.state.id; seconds = worked.seconds })
recorded_as entry (Throws.threw e) = threw e

abbrev save_manual :
    Result EntryConflict TimeEntry → Store → Outcome ServiceConflict StoppedEntry × Store
save_manual (Result.err e) s = (err (of_entry e), s)
save_manual (Result.ok entry) s = (recorded_as entry (worked_time entry.state), save_entry entry s)

abbrev record_on :
    Ports
    → ManualRequest
    → Instant
    → Option Text
    → Store
    → Outcome ServiceConflict StoppedEntry × Store
record_on ports r clock none s = (err no_such_project, s)
record_on ports r clock (some assignment) s =
    if ltb_ℤ clock r.ended_at
    then (err not_yet_done, s)
    else save_manual (by_hand (manual_params (ports.id_at s.issued) assignment r))
        (record s { issued = suc s.issued })

-- `recordManual`
unfoldable pub record_manual :
    Ports → Text → ManualRequest → Instant → Store → Outcome ServiceConflict StoppedEntry × Store
record_manual ports user r clock s = record_on ports r clock (ports.assignment_for user r.project) s

-- An entry as it is read from its table.
abbrev pub rehydrate : TimeEntryState → TimeEntry
rehydrate e = record { state = e; pending = [] }

abbrev pub is_theirs : Text → Option Text → Bool
is_theirs user none = false
is_theirs user (some owner) = eq_text owner user

-- `awaitingReview`: a person's own entries in doubt. Ids are unique, so the order does not matter.
abbrev pub awaiting_review : Ports → Text → List TimeEntryState → List TimeEntryState
awaiting_review ports user entries =
    filter (λ e. is_theirs user (ports.user_of e.assignment_id) && awaits_review e) entries

abbrev save_confirmed :
    Outcome EntryConflict (Unit {0}) × TimeEntry
    → Store
    → Outcome ServiceConflict (Unit {0}) × Store
save_confirmed (ok _, entry) s = (ok tt, save_entry entry s)
save_confirmed (err e, entry) s = (err (of_entry e), s)
save_confirmed (threw e, entry) s = (threw e, s)

abbrev confirm_found :
    Text → Instant → Option TimeEntryState → Store → Outcome ServiceConflict (Unit {0}) × Store
confirm_found user clock none s = (err no_such_entry, s)
confirm_found user clock (some e) s = save_confirmed (Entry.confirm user clock (rehydrate e)) s

-- `confirm`
unfoldable pub confirm :
    Ports → Text → Text → Instant → Store → Outcome ServiceConflict (Unit {0}) × Store
confirm ports user entry_id clock s =
    confirm_found user clock
      (find (λ e. eq_text e.id entry_id) (awaiting_review ports user s.entries)) s

-- Why an entry was not approved.
pub data Because : Type 0 where
  not_there : Because
  refused_by : EntryConflict → Because

-- What `execute` of approve-time.ts has gathered.
pub record Approval : Type 0 where
  pub approved : List Text
  pub refused : List (Text × Because)

abbrev pub add_refused : Text → Because → Approval → Approval
add_refused id why a = record a { refused = push a.refused (id, why) }

abbrev approve_saved :
    Text
    → Outcome EntryConflict (Unit {0}) × TimeEntry
    → Approval
    → Store
    → Outcome ServiceConflict Approval × Store
approve_saved id (ok _, entry) a s =
    (ok (record a { approved = push a.approved id }), save_entry entry s)
approve_saved id (err e, entry) a s = (ok (add_refused id (refused_by e) a), s)
approve_saved id (threw e, entry) a s = (threw e, s)

abbrev approve_found :
    Text
    → Instant
    → Text
    → Option TimeEntryState
    → Approval
    → Store
    → Outcome ServiceConflict Approval × Store
approve_found approver now id none a s = (ok (add_refused id not_there a), s)
approve_found approver now id (some e) a s =
    approve_saved id (approve approver now (rehydrate e)) a s

-- One round of the loop, with `TimeEntryRepository.findById`.
abbrev approve_one :
    Text → Instant → Text → Approval → Store → Outcome ServiceConflict Approval × Store
approve_one approver now id a s =
    approve_found approver now id (find (λ e. eq_text e.id id) s.entries) a s

-- The loop over the entries that were selected.
unfoldable pub approve_each :
    Text → Instant → List Text → Approval → Store → Outcome ServiceConflict Approval × Store
approve_each approver now [] a s = (ok a, s)
approve_each approver now (id ∷ ids) a s =
    let (r, s') = approve_one approver now id a s in
    elim r [
      | ok a' ↦ approve_each approver now ids a' s'
      | err e ↦ (err e, s')
      | threw e ↦ (threw e, s')
    ]

-- `execute` of approve-time.ts
unfoldable pub approve_time :
    Text → List Text → Instant → Store → Outcome ServiceConflict Approval × Store
approve_time approver [] now s = (err nothing_selected, s)
approve_time approver (id ∷ ids) now s =
    approve_each approver now (id ∷ ids) (record { approved = []; refused = [] }) s

-- How many were looked at so far.
abbrev seen : Approval → ℕ
seen a = length a.approved + length a.refused

approve_one-ok :
    (approver : Text) (now : Instant) (id : Text) (a : Approval) (s : Store)
    → (a' : Approval) × ((approve_one approver now id a s).0 ≡ ok a') × (seen a' ≡ suc (seen a))
unfolding approve
approve_one-ok approver now id a s = elim (Option-cases (find (λ e. eq_text e.id id) s.entries)) [
  | inl none_such ↦ (add_refused id not_there a, rw none_such refl, more_refused not_there)
  | inr (e, k) ↦ elim (Bool-cases (is_some e.statement_line_id)) [
    | inl locked ↦ (
      add_refused id (refused_by EntryConflict.on_statement_already) a,
      rw (k, locked) refl,
      more_refused (refused_by EntryConflict.on_statement_already),
    )
    | inr free ↦ elim (Bool-cases (is_some e.ended_at)) [
      | inl ended ↦ (
        record a { approved = push a.approved id },
        rw (k, free, ended) refl,
        omega (arith, length-append a.approved (id ∷ [])),
      )
      | inr going ↦ (
        add_refused id (refused_by EntryConflict.not_finished) a,
        rw (k, free, going) refl,
        more_refused (refused_by EntryConflict.not_finished),
      )
    ]
  ]
]
  where
    more_refused :
        (why : Because) → length a.approved + length (push a.refused (id, why)) ≡ suc (seen a)
    more_refused why = omega (arith, length-append a.refused ((id, why) ∷ []))

approve_each-ok :
    (approver : Text) (now : Instant) (ids : List Text) (a : Approval) (s : Store)
    → (a' : Approval) × ((approve_each approver now ids a s).0 ≡ ok a')
      × (seen a' ≡ length ids + seen a)
unfolding approve_each
approve_each-ok approver now [] a s = (a, refl, omega arith)
approve_each-ok approver now (id ∷ ids) a s =
    let (a', one, counted) = approve_one-ok approver now id a s in
    let (a'', rest, total) =
      approve_each-ok approver now ids a' (approve_one approver now id a s).1 in
    let s' = (approve_one approver now id a s).1 in
    let go_on : Outcome ServiceConflict Approval → Outcome ServiceConflict Approval × Store = λ r.
      elim r [
        | ok b ↦ approve_each approver now ids b s'
        | err e ↦ (err e, s')
        | threw e ↦ (threw e, s')
      ] in
    (a'', subst (λ r. (go_on r).0 ≡ ok a'') (sym one) rest, omega arith)

-- Approving a selection that is not empty always returns, and what it returns has as many approved and
-- refused entries together as were selected: none is left out.
pub approve_time-returns :
    (approver : Text) (id : Text) (ids : List Text) (now : Instant) (s : Store)
    → (a : Approval) × ((approve_time approver (id ∷ ids) now s).0 ≡ ok a)
      × (length a.approved + length a.refused ≡ length (id ∷ ids))
unfolding approve_time
approve_time-returns approver id ids now s =
    let (a, e, counted) =
      approve_each-ok approver now (id ∷ ids) (record { approved = []; refused = [] }) s in
    (a, e, omega arith)
