-- ===== src/Time/Timer/Spans.antt =====
-- The spans that a timer records (running-timer.ts), and where they lie in time.
use amc_system.Base.{
  ◌≡◌, ap, sym, subst, true, Option, none, some, List, [], ◌∷◌, inl, inr, Option-cases, arith,
}
use amc_system.Base.Int.{pos, ◌-ℤ◌, ◌+ℤ◌, ◌≤ℤ◌, ◌<ℤ◌, -ℤ_parts, +ℤ_parts}
use amc_system.Kernel.Result.{ok, err}
use amc_system.Kernel.Duration.{Instant, try_between}
use amc_system.Time.Timer.{
  RunningTimer, StoppedTimer, Command, hold_at, resume_at, beat_at, held_already, elapsed_at, stop,
  hold, resume, beat, is_abandoned_at, floor, clamp, stop_as_abandoned, kept, recorded, span,
}

stop-ends :
    (timer : RunningTimer) (t now : Instant)
    → floor timer ≤ℤ t
    → t ≤ℤ now
    → (s : StoppedTimer) × (stop timer t ≡ ok s) × (s.ended_at ≤ℤ now)
unfolding stop
stop-ends timer t now h k = elim (Option-cases timer.held_at) [
  | inl running ↦ (span timer.assignment_id timer.started_at t, ground arith, k)
  | inr (held, e) ↦ (span timer.assignment_id held held, ground arith, ground arith)
]

clamp-within :
    (timer : RunningTimer) (claimed : Option Instant) (now : Instant)
    → floor timer ≤ℤ now
    → (floor timer ≤ℤ clamp timer claimed now) × (clamp timer claimed now ≤ℤ now)
unfolding clamp
clamp-within timer claimed now h = (ground arith, ground arith)

-- Where the timer's floor (the hold, or else the start) is not later than now, a replayed instant is
-- taken from the window between the two. A claim within the window is taken as it is, one from now on
-- as now, and one up to the floor as the floor; and stopping at the taken instant ends well, with a
-- span that ends no later than now.
pub clamp_lem :
    (timer : RunningTimer) (claimed : Option Instant) (now : Instant)
    → floor timer ≤ℤ now
    → (floor timer ≤ℤ clamp timer claimed now)
      × (clamp timer claimed now ≤ℤ now)
      × ((c : Instant)
          → claimed ≡ some c
          → floor timer ≤ℤ c
          → c ≤ℤ now
          → clamp timer claimed now ≡ c)
      × ((c : Instant) → claimed ≡ some c → now ≤ℤ c → clamp timer claimed now ≡ now)
      × ((c : Instant)
          → claimed ≡ some c
          → c ≤ℤ floor timer
          → clamp timer claimed now ≡ floor timer)
      × ((s : StoppedTimer) × (stop timer (clamp timer claimed now) ≡ ok s) × (s.ended_at ≤ℤ now))
unfolding clamp
clamp_lem timer claimed now h =
    let (low, high) = clamp-within timer claimed now h in
    (
      low,
      high,
      λ c e least most. ground arith,
      λ c e late. ground arith,
      λ c e early. ground arith,
      stop-ends timer (clamp timer claimed now) now low high,
    )

-- What a stop records is as long as the time on the screen.
pub elapsed_at-stop :
    (timer : RunningTimer) (now : Instant) {s : StoppedTimer}
    → stop timer now ≡ ok s
    → try_between (some s.started_at) (some s.ended_at) ≡ ok (elapsed_at timer now)
unfolding stop elapsed_at try_between ◌-ℤ◌
elapsed_at-stop timer now h = ground arith

-- An abandoned timer is not held, and is recorded up to its last sign of life, which is more than an
-- hour before.
pub abandoned_trims :
    (timer : RunningTimer) (now : Instant)
    → is_abandoned_at timer now ≡ true
    → (timer.held_at ≡ none)
      × (stop_as_abandoned timer ≡ span timer.assignment_id timer.started_at timer.last_seen_at)
      × ((stop_as_abandoned timer).ended_at +ℤ pos 3_600_000 <ℤ now)
unfolding is_abandoned_at stop_as_abandoned
abandoned_trims timer now h = (
  ground arith,
  ground arith,
  ground (arith, -ℤ_parts now timer.last_seen_at, +ℤ_parts timer.last_seen_at (pos 3_600_000)),
)

-- Spans one after the other, the first no earlier than `from` and the last no later than `to`.
abbrev pub IsChain : Instant → Instant → List StoppedTimer → Type 0
IsChain from to [] = from ≤ℤ to
IsChain from to (s ∷ ss) =
    (from ≤ℤ s.started_at) × (s.started_at ≤ℤ s.ended_at) × IsChain s.ended_at to ss

abbrev pub time_of : Command → Instant
time_of (hold_at t) = t
time_of (resume_at t) = t
time_of (beat_at t) = t

-- The calls come in the order of their instants, after `t` and before `now`.
abbrev pub AreInOrder : Instant → List Command → Instant → Type 0
AreInOrder t [] now = t ≤ℤ now
AreInOrder t (c ∷ cs) now = (t ≤ℤ time_of c) × AreInOrder (time_of c) cs now

IsChain-weaken :
    (a b to : Instant) (ss : List StoppedTimer) → a ≤ℤ b → IsChain b to ss → IsChain a to ss
IsChain-weaken a b to [] h k = omega arith
IsChain-weaken a b to (s ∷ ss) h (first, whole, rest) = (omega arith, whole, rest)

stopped-IsChain :
    (timer : RunningTimer) (t now : Instant)
    → floor timer ≤ℤ t
    → t ≤ℤ now
    → IsChain (floor timer) now (recorded timer [] now)
unfolding recorded stop
stopped-IsChain timer t now h k = ground arith

-- A hold of a running timer, once its start has passed.
pub hold-running :
    (timer : RunningTimer) (t : Instant)
    → timer.held_at ≡ none
    → timer.started_at ≤ℤ t
    → hold timer t ≡ (
      ok (span timer.assignment_id timer.started_at t),
      record timer { held_at = some t; last_seen_at = t },
    )
unfolding hold stop
hold-running timer t e h = ground arith

pub hold-held :
    (timer : RunningTimer) (t held : Instant)
    → timer.held_at ≡ some held
    → hold timer t ≡ (err held_already, timer)
unfolding hold
hold-held timer t held e = ground arith

recorded-running :
    (timer : RunningTimer) (t : Instant) (cs : List Command) (now : Instant)
    → timer.held_at ≡ none
    → timer.started_at ≤ℤ t
    → recorded timer (hold_at t ∷ cs) now
      ≡ span timer.assignment_id timer.started_at t
        ∷ recorded (record timer { held_at = some t; last_seen_at = t }) cs now
unfolding recorded
recorded-running timer t cs now e h =
    ap (λ r. kept r.0 (recorded r.1 cs now)) (hold-running timer t e h)

recorded-held :
    (timer : RunningTimer) (t held : Instant) (cs : List Command) (now : Instant)
    → timer.held_at ≡ some held
    → recorded timer (hold_at t ∷ cs) now ≡ recorded timer cs now
unfolding recorded
recorded-held timer t held cs now e =
    ap (λ r. kept r.0 (recorded r.1 cs now)) (hold-held timer t held e)

-- Resuming moves the floor to its instant, or changes nothing.
resume-floor :
    (timer : RunningTimer) (t : Instant)
    → floor timer ≤ℤ t
    → (floor timer ≤ℤ floor (resume timer t).1) × (floor (resume timer t).1 ≤ℤ t)
unfolding resume
resume-floor timer t h = (ground arith, ground arith)

floor_started : (timer : RunningTimer) → timer.held_at ≡ none → floor timer ≤ℤ timer.started_at
floor_started timer e = ground arith

started_by :
    (timer : RunningTimer) (u : Instant)
    → timer.held_at ≡ none
    → floor timer ≤ℤ u
    → timer.started_at ≤ℤ u
started_by timer u e h = ground arith

chained :
    (timer : RunningTimer) (cs : List Command) (now t : Instant)
    → floor timer ≤ℤ t
    → AreInOrder t cs now
    → IsChain (floor timer) now (recorded timer cs now)
unfolding recorded
chained timer [] now t low h = stopped-IsChain timer t now low h
chained timer (hold_at u ∷ cs) now t low (after, rest) = elim (Option-cases timer.held_at) [
  | inl running ↦
      let started : timer.started_at ≤ℤ u = started_by timer u running (omega arith) in
      let timer' = record timer { held_at = some u; last_seen_at = u } in
      subst (IsChain (floor timer) now) (sym (recorded-running timer u cs now running started))
        (floor_started timer running, started, chained timer' cs now u (omega arith) rest)
  | inr (held, e) ↦
      subst (IsChain (floor timer) now) (sym (recorded-held timer u held cs now e))
        (chained timer cs now u (omega arith) rest)
]
chained timer (resume_at u ∷ cs) now t low (after, rest) =
    let (up, below) = resume-floor timer u (omega arith) in
    IsChain-weaken (floor timer) (floor (resume timer u).1) now (recorded (resume timer u).1 cs now)
      up (chained (resume timer u).1 cs now u below rest)
chained timer (beat_at u ∷ cs) now t low (after, rest) =
    chained (beat timer u) cs now u (omega arith) rest

-- For calls in the order of time, from the timer's floor on: what is recorded are spans one after the
-- other between the floor and the last instant. So no time is recorded twice, however often the timer
-- is held and resumed.
pub recorded-IsChain :
    (timer : RunningTimer) (cs : List Command) (now : Instant)
    → AreInOrder (floor timer) cs now
    → IsChain (floor timer) now (recorded timer cs now)
recorded-IsChain timer cs now h = chained timer cs now (floor timer) (omega arith) h
