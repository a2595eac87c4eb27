-- ===== src/Time/Service/Booking.antt =====
-- The time that timer-service.ts books for one person, call after call.
use mathlib.Core.Option
use amc_system.Base.{
  ◌≡◌, refl, ap, sym, ◌∙◌, Bool, Option, none, some, List, [], ◌∷◌, find-map, find-holds, arith,
  inl, inr, Bool-cases, if◌then◌else◌,
}
use amc_system.Base.Int.{◌≤ℤ◌, ◌<ℤ◌}
use amc_system.Base.Text.{Text, eq_text, eq_text_refl, eq_of_eq_text}
use amc_system.Kernel.Duration.{Instant}
use amc_system.Time.Timer.{RunningTimer, StoppedTimer, floor}
use amc_system.Time.Entry.State.{TimeEntryState}
use amc_system.Time.Service.Tables.{Ports, Store, put_entry, put_timer, timer_of, cleared, written}
use amc_system.Time.Service.{record_span, stop, effective, start, hold, resume, beat}
use amc_system.Time.Service.Saved.{Saves, nothing, one, record_span-Saves}

-- The calls of one person, with the claimed instant and the clock.
pub data Call : Type 0 where
  starts : Text → Option Text → Option Instant → Instant → Call
  stops holds resumes : Option Instant → Instant → Call
  beats : Instant → Call

unfoldable pub step : Ports → Text → Call → Store → Store
step ports user (starts project device at clock) s = (start ports user project device at clock s).1
step ports user (stops at clock) s = (stop ports user at clock s).1
step ports user (holds at clock) s = (hold ports user at clock s).1
step ports user (resumes at clock) s = (resume user at clock s).1
step ports user (beats clock) s = beat user clock s

unfoldable pub run : Ports → Text → List Call → Store → Store
run ports user [] s = s
run ports user (c ∷ cs) s = run ports user cs (step ports user c s)

-- When a call happens: at the instant it claims, if that is not in the future.
abbrev pub time_of : Call → Instant
time_of (starts project device at clock) = effective at clock
time_of (stops at clock) = effective at clock
time_of (holds at clock) = effective at clock
time_of (resumes at clock) = effective at clock
time_of (beats clock) = clock

abbrev pub AreInOrder : Instant → List Call → Type 0
AreInOrder t [] = Unit
AreInOrder t (c ∷ cs) = (t ≤ℤ time_of c) × AreInOrder (time_of c) cs

-- The entries are saved one after the other.
abbrev pub put_all : List TimeEntryState → List TimeEntryState → List TimeEntryState
put_all [] entries = entries
put_all (e ∷ es) entries = put_all es (put_entry e entries)

-- Entries that have ended, each after the one before, from one instant to another.
abbrev pub AreApart : Instant → Instant → List TimeEntryState → Type 0
AreApart from to [] = from ≤ℤ to
AreApart from to (e ∷ es) =
    (end : Instant) × (e.ended_at ≡ some end)
    × (from ≤ℤ e.started_at)
    × (e.started_at <ℤ end)
    × AreApart end to es

-- A timer up to whose last start or hold the time is booked, no later than `high`, at an instant `t`.
pub record IsWatched (high t : Instant) (timer : RunningTimer) : Type 0 where
  pub after : high ≤ℤ floor timer
  pub before : floor timer ≤ℤ t
  pub alive : timer.started_at ≤ℤ timer.last_seen_at
  pub seen : timer.last_seen_at ≤ℤ t

-- What is known of a person between two calls.
pub record IsTidy (user : Text) (high t : Instant) (s : Store) : Type 0 where
  pub booked : high ≤ℤ t
  pub watched :
      (timer : RunningTimer) → timer_of user s.timers ≡ some timer → IsWatched high t timer

-- What a call books, on top of the entries that were there.
pub record Books (user : Text) (high t : Instant) (before : List TimeEntryState) (s' : Store)
    : Type 0 where
  pub entries : List TimeEntryState
  pub high' : Instant
  pub saved : s'.entries ≡ put_all entries before
  pub apart : AreApart high high' entries
  pub tidy : IsTidy user high' t s'

-- A span that is written down, and the timer that goes on from its end.
pub record_span-Books :
    (ports : Ports) (user : Text) (abandoned : Bool) (sp : StoppedTimer) (high t : Instant)
    (s : Store)
    → high ≤ℤ sp.started_at
    → sp.started_at ≤ℤ sp.ended_at
    → sp.ended_at ≤ℤ t
    → ((timer : RunningTimer) → timer_of user s.timers ≡ some timer → IsWatched sp.ended_at t timer)
    → Books user high t s.entries (record_span ports user abandoned sp s).1
record_span-Books ports user abandoned sp high t s h₁ h₂ h₃ w =
    booked (record_span-Saves ports user abandoned sp s)
  where
    s' : Store
    s' = (record_span ports user abandoned sp s).1

    watched :
        s'.timers ≡ s.timers
        → (timer : RunningTimer) → timer_of user s'.timers ≡ some timer
        → IsWatched sp.ended_at t timer
    watched same timer e = w timer (ap (timer_of user) (sym same) ∙ e)

    booked : Saves (ports.hours_of user) sp s s' → Books user high t s.entries s'
    booked (nothing same kept) = record {
      entries = [];
      high' = sp.ended_at;
      saved = same;
      apart = omega arith;
      tidy = record { booked = h₃; watched = watched kept };
    }
    booked (one e of_span put kept) = record {
      entries = e ∷ [];
      high' = sp.ended_at;
      saved = put;
      apart = (
        sp.ended_at,
        of_span.ends,
        rw of_span.starts h₁,
        rw of_span.starts of_span.lasts,
        omega arith,
      );
      tidy = record { booked = h₃; watched = watched kept };
    }

-- The row of a person in the table of timers.
pub timer_of-user :
    (user : Text) (ts : List RunningTimer) {timer : RunningTimer}
    → timer_of user ts ≡ some timer
    → timer.user_id ≡ user
timer_of-user user ts {timer} h =
    eq_of_eq_text timer.user_id user (find-holds (λ t. eq_text t.user_id user) ts h)

pub timer_of-cleared :
    (user : Text) (ts : List RunningTimer) → timer_of user (cleared user ts) ≡ none
timer_of-cleared user [] = refl
timer_of-cleared user (t ∷ ts) = elim (Bool-cases (eq_text t.user_id user)) [
  | inl theirs ↦ rw theirs (timer_of-cleared user ts)
  | inr other ↦ rw (other, other) (timer_of-cleared user ts)
]

pub timer_of-put :
    (timer : RunningTimer) (ts : List RunningTimer)
    → timer_of timer.user_id (put_timer timer ts) ≡ some timer
unfolding put_timer
timer_of-put timer [] = rw (eq_text_refl timer.user_id) refl
timer_of-put timer (t ∷ ts) = elim (Bool-cases (eq_text t.user_id timer.user_id)) [
  | inl theirs ↦ rw (theirs, eq_text_refl timer.user_id) refl
  | inr other ↦ rw (other, other) (timer_of-put timer ts)
]

abbrev pub write : RunningTimer → RunningTimer → RunningTimer
write timer t =
    if eq_text t.user_id timer.user_id
    then record t {
      started_at = timer.started_at;
      last_seen_at = timer.last_seen_at;
      held_at = timer.held_at;
    }
    else t

pub timer_of-written :
    (user : Text) (timer : RunningTimer) (ts : List RunningTimer)
    → timer_of user (written timer ts) ≡ Option.map (write timer) (timer_of user ts)
timer_of-written user timer ts =
    find-map (write timer) (λ t. eq_text t.user_id user) (λ t. ground arith) ts
