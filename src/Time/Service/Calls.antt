-- ===== src/Time/Service/Calls.antt =====
-- What each call of timer-service.ts books for a person, and what it leaves of their timer.
use mathlib.Core.Option
use amc_system.Base.{
  ◌≡◌, refl, ap, sym, subst, ◌∙◌, true, false, Option, none, some, List, [], find-map, arith, inl,
  inr, Bool-cases, Option-cases, if◌then◌else◌,
}
use amc_system.Base.Int.{◌≤ℤ◌, eq_of_parts}
use amc_system.Base.Text.{Text, eq_text, eq_text_refl}
use amc_system.Kernel.Duration.{Instant}
use amc_system.Time.Timer as Timer
use amc_system.Time.Timer.{
  RunningTimer, StoppedTimer, floor, clamp, is_abandoned_at, stop_as_abandoned, span,
}
use amc_system.Time.Timer.Spans.{hold-running, hold-held}
use amc_system.Time.Entry.State.{TimeEntryState}
use amc_system.Time.Service.Tables.{Ports, Store, put_timer, timer_of, cleared, written}
use amc_system.Time.Service.{stop, effective, start, hold, resume, beat, final_span}
use amc_system.Time.Service.Booking.{
  Call, starts, stops, holds, resumes, beats, step, time_of, IsWatched, IsTidy, Books,
  record_span-Books, timer_of-cleared, timer_of-put, timer_of-written, write,
}

effective-clock : (at : Option Instant) (clock : Instant) → effective at clock ≤ℤ clock
effective-clock none clock = omega arith
effective-clock (some at) clock = ground arith

effective_twice :
    (at : Option Instant) (clock : Instant)
    → effective (some (effective at clock)) clock ≡ effective at clock
effective_twice none clock = ground arith
effective_twice (some at) clock = ground arith

clamp-effective :
    (timer : RunningTimer) (at : Option Instant) (clock : Instant)
    → floor timer ≤ℤ effective at clock
    → clamp timer at clock ≡ effective at clock
unfolding clamp
clamp-effective timer none clock h = refl
clamp-effective timer (some at) clock h = ground (arith, eq_of_parts at clock)

final_span-ends :
    (timer : RunningTimer) (high t now : Instant)
    → IsWatched high t timer
    → t ≤ℤ now
    → (high ≤ℤ (final_span timer now).started_at)
      × ((final_span timer now).started_at ≤ℤ (final_span timer now).ended_at)
      × ((final_span timer now).ended_at ≤ℤ now)
unfolding is_abandoned_at stop_as_abandoned Timer.stop
final_span-ends timer high t now w h =
    let after = w.after in
    let before = w.before in
    let alive = w.alive in let seen = w.seen in (ground arith, ground arith, ground arith)

-- A call that leaves the tables alone.
idle-Books :
    (user : Text) (high t t' : Instant) (s : Store)
    → t ≤ℤ t'
    → IsTidy user high t s
    → Books user high t' s.entries s
idle-Books user high t t' s h tidy = record {
  entries = [];
  high' = high;
  saved = refl;
  apart = omega arith;
  tidy = record {
    booked = let b = tidy.booked in omega arith;
    watched = λ timer e.
        let w = tidy.watched timer e in
        let before = w.before in
        let seen = w.seen in
        record { after = w.after; before = omega arith; alive = w.alive; seen = omega arith };
  };
}

stop-Books :
    (ports : Ports) (user : Text) (at : Option Instant) (clock high t : Instant) (s : Store)
    → t ≤ℤ effective at clock
    → IsTidy user high t s
    → Books user high (effective at clock) s.entries (stop ports user at clock s).1
unfolding stop
stop-Books ports user at clock high t s h tidy = elim (Option-cases (timer_of user s.timers)) [
  | inl nobody ↦ rw nobody (idle-Books user high t (effective at clock) s h tidy)
  | inr (timer, e) ↦
      let w = tidy.watched timer e in
      let low : floor timer ≤ℤ effective at clock = let b = w.before in omega arith in
      let (h₁, h₂, h₃) = final_span-ends timer high t (effective at clock) w h in
      rw (e, clamp-effective timer at clock low)
        (record_span-Books ports user (is_abandoned_at timer (effective at clock))
          (final_span timer (effective at clock)) high (effective at clock)
          (record s { timers = cleared user s.timers }) h₁ h₂ h₃
          λ other there.
            absurd
              (let gone : none ≡ some other = sym (timer_of-cleared user s.timers) ∙ there in cc))
]

-- A timer that begins at `t`, where the time is booked up to `high`.
begun-IsWatched :
    (user assignment : Text) (device : Option Text) (high t : Instant)
    → high ≤ℤ t
    → IsWatched high t (Timer.start user assignment t device)
begun-IsWatched user assignment device high t h = record {
  after = h;
  before = omega arith;
  alive = omega arith;
  seen = omega arith;
}

-- A person has one timer.
IsWatched-only :
    (user : Text) (high t : Instant) (ts : List RunningTimer) {timer : RunningTimer}
    → timer_of user ts ≡ some timer
    → IsWatched high t timer
    → (other : RunningTimer) → timer_of user ts ≡ some other
    → IsWatched high t other
IsWatched-only user high t ts {timer} e w other there =
    let both : some timer ≡ some other = sym e ∙ there in
    let same : timer ≡ other = cc in subst (IsWatched high t) same w

-- After the time was booked, a new timer begins.
begin-Books :
    (user assignment : Text) (device : Option Text) (high t : Instant)
    (before : List TimeEntryState) (s : Store)
    → Books user high t before s
    → Books user high t before
        (record s { timers = put_timer (Timer.start user assignment t device) s.timers })
begin-Books user assignment device high t before s b = record {
  entries = b.entries;
  high' = b.high';
  saved = b.saved;
  apart = b.apart;
  tidy = record {
    booked = b.tidy.booked;
    watched =
        IsWatched-only user b.high' t (put_timer (Timer.start user assignment t device) s.timers)
          (timer_of-put (Timer.start user assignment t device) s.timers)
          (begun-IsWatched user assignment device b.high' t b.tidy.booked);
  };
}

start-Books :
    (ports : Ports) (user project : Text) (device : Option Text) (at : Option Instant)
    (clock high t : Instant) (s : Store)
    → t ≤ℤ effective at clock
    → IsTidy user high t s
    → Books user high (effective at clock) s.entries (start ports user project device at clock s).1
unfolding start
start-Books ports user project device at clock high t s h tidy =
    elim (Option-cases (ports.assignment_for user project)) [
      | inl none_such ↦ rw none_such (idle-Books user high t (effective at clock) s h tidy)
      | inr (assignment, e) ↦
          let now = effective at clock in
          let same : effective (some now) clock ≡ now = effective_twice at clock in
          let b : Books user high now s.entries (stop ports user (some now) clock s).1 =
            subst (λ u. Books user high u s.entries (stop ports user (some now) clock s).1) same
              (stop-Books ports user (some now) clock high t s (subst (λ u. t ≤ℤ u) (sym same) h)
                tidy) in
          rw e (
            begin-Books user assignment device high now s.entries
              (stop ports user (some now) clock s).1 b)
    ]

-- The row of the person who is written over.
timer_of-written_self :
    (user : Text) (timer timer' : RunningTimer) (ts : List RunningTimer)
    → timer_of user ts ≡ some timer
    → timer'.user_id ≡ timer.user_id
    → timer_of user (written timer' ts)
      ≡ some (record timer {
        started_at = timer'.started_at;
        last_seen_at = timer'.last_seen_at;
        held_at = timer'.held_at;
      })
timer_of-written_self user timer timer' ts e same =
    let theirs : eq_text timer.user_id timer'.user_id ≡ true =
      subst (λ u. eq_text timer.user_id u ≡ true) (sym same) (eq_text_refl timer.user_id) in
    timer_of-written user timer' ts ∙ ap (Option.map (write timer')) e ∙ rw theirs refl

running_since :
    (timer : RunningTimer) (high t now : Instant)
    → IsWatched high t timer
    → timer.held_at ≡ none
    → floor timer ≤ℤ now
    → (high ≤ℤ timer.started_at) × (timer.started_at ≤ℤ now)
running_since timer high t now w running low = let after = w.after in (ground arith, ground arith)

hold-Books :
    (ports : Ports) (user : Text) (at : Option Instant) (clock high t : Instant) (s : Store)
    → t ≤ℤ effective at clock
    → IsTidy user high t s
    → Books user high (effective at clock) s.entries (hold ports user at clock s).1
unfolding hold
hold-Books ports user at clock high t s h tidy = elim (Option-cases (timer_of user s.timers)) [
  | inl nobody ↦ rw nobody (idle-Books user high t (effective at clock) s h tidy)
  | inr (timer, e) ↦
      let w = tidy.watched timer e in
      let low : floor timer ≤ℤ effective at clock = let b = w.before in omega arith in
      elim (Option-cases timer.held_at) [
        | inr (held, k) ↦
            rw (e, hold-held timer (clamp timer at clock) held k)
              (idle-Books user high t (effective at clock) s h tidy)
        | inl running ↦
            let now = effective at clock in
            let timer' = record timer { held_at = some now; last_seen_at = now } in
            let (booked, begun) = running_since timer high t now w running low in
            rw (e, clamp-effective timer at clock low, hold-running timer now running begun)
              (record_span-Books ports user false (span timer.assignment_id timer.started_at now)
                high now (record s { timers = written timer' s.timers }) booked begun (omega arith)
                (IsWatched-only user now now (written timer' s.timers)
                  (timer_of-written_self user timer timer' s.timers e refl)
                  (record {
                    after = omega arith;
                    before = omega arith;
                    alive = begun;
                    seen = omega arith;
                  })))
      ]
]

resume-Books :
    (user : Text) (at : Option Instant) (clock high t : Instant) (s : Store)
    → t ≤ℤ effective at clock
    → IsTidy user high t s
    → Books user high (effective at clock) s.entries (resume user at clock s).1
unfolding resume Timer.resume
resume-Books user at clock high t s h tidy = elim (Option-cases (timer_of user s.timers)) [
  | inl nobody ↦ rw nobody (idle-Books user high t (effective at clock) s h tidy)
  | inr (timer, e) ↦
      let w = tidy.watched timer e in
      let low : floor timer ≤ℤ effective at clock = let b = w.before in omega arith in
      elim (Option-cases timer.held_at) [
        | inl running ↦ rw (e, running) (idle-Books user high t (effective at clock) s h tidy)
        | inr (held, k) ↦
            let now = effective at clock in
            let timer' = record timer { started_at = now; held_at = none; last_seen_at = now } in
            let late : high ≤ℤ now = let b = tidy.booked in omega arith in
            rw (e, clamp-effective timer at clock low, k)
              (record {
                entries = [];
                high' = high;
                saved = refl;
                apart = omega arith;
                tidy = record {
                  booked = late;
                  watched =
                      IsWatched-only user high now (written timer' s.timers)
                        (timer_of-written_self user timer timer' s.timers e refl)
                        (record {
                          after = late;
                          before = omega arith;
                          alive = omega arith;
                          seen = omega arith;
                        });
                };
              })
      ]
]

abbrev seen_at : Text → Instant → RunningTimer → RunningTimer
seen_at user clock t = if eq_text t.user_id user then record t { last_seen_at = clock } else t

seen_at-IsWatched :
    (user : Text) (clock high t : Instant) (timer : RunningTimer)
    → t ≤ℤ clock
    → IsWatched high t timer
    → IsWatched high clock (seen_at user clock timer)
seen_at-IsWatched user clock high t timer h w =
    let before = w.before in
    let alive = w.alive in
    let seen = w.seen in
    elim (Bool-cases (eq_text timer.user_id user)) [
      | inl theirs ↦ rw theirs (record {
        after = w.after;
        before = omega arith;
        alive = omega arith;
        seen = omega arith;
      })
      | inr other ↦
          rw other
            (record { after = w.after; before = omega arith; alive = alive; seen = omega arith })
    ]

beat-Books :
    (user : Text) (clock high t : Instant) (s : Store)
    → t ≤ℤ clock
    → IsTidy user high t s
    → Books user high clock s.entries (beat user clock s)
beat-Books user clock high t s h tidy = record {
  entries = [];
  high' = high;
  saved = refl;
  apart = omega arith;
  tidy = record { booked = let b = tidy.booked in omega arith; watched = beaten };
}
  where
    later :
        timer_of user (beat user clock s).timers
        ≡ Option.map (seen_at user clock) (timer_of user s.timers)
    later = find-map (seen_at user clock) (λ t. eq_text t.user_id user) (λ t. ground arith) s.timers

    beaten :
        (other : RunningTimer)
        → timer_of user (beat user clock s).timers ≡ some other
        → IsWatched high clock other
    beaten = elim (Option-cases (timer_of user s.timers)) [
      | inl nobody ↦ λ other there. absurd (
          let gone : none ≡ some other =
            ap (Option.map (seen_at user clock)) (sym nobody) ∙ sym later ∙ there in
          cc)
      | inr (timer, e) ↦
          IsWatched-only user high clock (beat user clock s).timers
            (later ∙ ap (Option.map (seen_at user clock)) e)
            (seen_at-IsWatched user clock high t timer h (tidy.watched timer e))
    ]

pub step-Books :
    (ports : Ports) (user : Text) (c : Call) (high t : Instant) (s : Store)
    → t ≤ℤ time_of c
    → IsTidy user high t s
    → Books user high (time_of c) s.entries (step ports user c s)
unfolding step
step-Books ports user (starts project device at clock) high t s h tidy =
    start-Books ports user project device at clock high t s h tidy
step-Books ports user (stops at clock) high t s h tidy =
    stop-Books ports user at clock high t s h tidy
step-Books ports user (holds at clock) high t s h tidy =
    hold-Books ports user at clock high t s h tidy
step-Books ports user (resumes at clock) high t s h tidy =
    resume-Books user at clock high t s h tidy
step-Books ports user (beats clock) high t s h tidy = beat-Books user clock high t s h tidy
