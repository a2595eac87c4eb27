-- ===== src/Billing/Release.antt =====
-- packages/modules/billing/application/release-from-statement.ts: hours are taken back off a statement.
pub mod Freeing
use amc_system.Base.{
  ℕ, Bool, true, false, not, Option, none, some, List, length, ltb, ◌==◌, if◌then◌else◌,
}
use amc_system.Base.Text.{Text, text, trim}
use amc_system.Kernel.Caller.{CallerLike, may}
use amc_system.Kernel.Aggregate.{Outcome, ok, err, threw}
use amc_system.Kernel.Duration.{Instant}
use amc_system.Billing.Statement.State.{StatementConflict}
use amc_system.Billing.Statement.{Statement, entry_ids, cancel, is_invoiced}
use amc_system.Billing.Store.{Store, find_by_id, release, save}

pub data ReleaseConflict : Type 0 where
  only_a_manager no_reason no_such_statement was_invoiced no_hours : ReleaseConflict
  not_cancelled : StatementConflict → ReleaseConflict

-- The end of `execute`, where the statement was asked to be cancelled.
abbrev pub settled :
    List Text
    → Outcome StatementConflict (Unit {0}) × Statement
    → Store
    → Outcome ReleaseConflict ℕ × Store
settled ids (ok _, a) store =
    (ok (length ids), save a (record store { rows = release ids store.rows }))
settled ids (err e, a) store = (err (not_cancelled e), store)
settled ids (threw e, a) store = (threw e, store)

abbrev pub release_found :
    Text → Instant → Option Statement → Store → Outcome ReleaseConflict ℕ × Store
release_found trimmed now none store = (err no_such_statement, store)
release_found trimmed now (some a) store =
    if is_invoiced a.state.state
    then (err was_invoiced, store)
    else if length (entry_ids a.state) == 0
    then (err no_hours, store)
    else settled (entry_ids a.state) (cancel trimmed now a) store

-- `execute`
unfoldable pub execute :
    CallerLike → Text → Text → Instant → Store → Outcome ReleaseConflict ℕ × Store
execute caller id reason now store =
    if not (may caller (text "billing.entries.unlink"))
    then (err only_a_manager, store)
    else if ltb (length (trim reason)) 3
    then (err no_reason, store)
    else release_found (trim reason) now (find_by_id id store) store
