-- ===== src/Clients/RateHistory.antt =====
-- packages/modules/clients/domain/client-rate.ts: what a client is charged an hour, and was charged.
pub mod Past
use amc_system.Base.{
  Bool, true, false, Option, none, some, List, [], ◌∷◌, push, find, is_some, get_or, if◌then◌else◌,
}
use amc_system.Base.Int.{ltb_ℤ, leb_ℤ, eqb_ℤ}
use amc_system.Base.Text.{Text}
use amc_system.Kernel.Result as Result
use amc_system.Kernel.Result.{Result}
use amc_system.Kernel.Money.{is_negative}
use amc_system.Kernel.Rate.{Rate}
use amc_system.Kernel.Duration.{Instant}

pub record RateChange : Type 0 where
  pub rate : Rate
  pub effective_from : Instant
  pub changed_by : Text
  pub note : Option Text

abbrev pub RateHistory : Type 0
RateHistory = List RateChange

pub data RateConflict : Type 0 where
  takes_effect_already negative_hourly_rate : RateConflict

-- A change in its place by its day, behind those of the same day.
unfoldable pub insert : RateChange → RateHistory → RateHistory
insert change [] = change ∷ []
insert change (c ∷ changes) =
    let rest = insert change changes in
    if ltb_ℤ change.effective_from c.effective_from then change ∷ c ∷ changes else c ∷ rest

-- `RateHistory.from`: a sort by the day that keeps the order of two on one day.
unfoldable pub sort_onto : RateHistory → List RateChange → RateHistory
sort_onto sorted [] = sorted
sort_onto sorted (c ∷ changes) = sort_onto (insert c sorted) changes

abbrev pub from : List RateChange → RateHistory
from changes = sort_onto [] changes

-- `add`
unfoldable pub add : RateChange → RateHistory → Result RateConflict RateHistory
add change changes =
    if is_some (find (λ c. eqb_ℤ c.effective_from change.effective_from) changes)
    then Result.err takes_effect_already
    else if is_negative change.rate.amount
    then Result.err negative_hourly_rate
    else Result.ok (from (push changes change))

-- The loop of `on`, with the rate so far.
unfoldable pub on_from : Option Rate → Instant → RateHistory → Option Rate
on_from current date [] = current
on_from current date (c ∷ changes) =
    let rest = on_from (some c.rate) date changes in
    if leb_ℤ c.effective_from date then rest else current

-- `on`
abbrev pub on : Instant → RateHistory → Option Rate
on date changes = on_from none date changes

-- `currentAt`
abbrev pub current_at : Instant → Rate → RateHistory → Rate
current_at now fallback changes = get_or (on now changes) fallback
