-- ===== src/Time/Timer/Tests.antt =====
-- A timer that is held once and resumed, at concrete instants.
use amc_system.Base.{◌≡◌, refl, true, none, some, List, [], ◌∷◌, arith}
use amc_system.Base.Int.{pos, ◌-ℤ◌, ◌≤ℤ◌}
use amc_system.Base.Text.{text}
use amc_system.Kernel.Result.{ok}
use amc_system.Kernel.Duration.{Instant}
use amc_system.Time.Timer.{
  RunningTimer, StoppedTimer, Command, hold_at, resume_at, beat_at, start, span, stop, hold, resume,
  clamp, is_abandoned_at, recorded,
}
use amc_system.Time.Timer.Spans.{clamp_lem}

abbrev timer : RunningTimer
timer = start (text "u1") (text "a1") (pos 1_000) none

abbrev calls : List Command
calls = beat_at (pos 2_000) ∷ hold_at (pos 3_000) ∷ resume_at (pos 8_000) ∷ []

two_spans :
    recorded timer calls (pos 9_000)
    ≡ span (text "a1") (pos 1_000) (pos 3_000) ∷ span (text "a1") (pos 8_000) (pos 9_000) ∷ []
unfolding recorded hold resume stop
two_spans = refl

clamp_lem_example :
    (pos 1_000 ≤ℤ clamp timer (some (pos 5_000)) (pos 6_000))
    × (clamp timer (some (pos 5_000)) (pos 6_000) ≤ℤ pos 6_000)
    × ((c : Instant)
        → some (pos 5_000) ≡ some c
        → pos 1_000 ≤ℤ c
        → c ≤ℤ pos 6_000
        → clamp timer (some (pos 5_000)) (pos 6_000) ≡ c)
    × ((c : Instant)
        → some (pos 5_000) ≡ some c
        → pos 6_000 ≤ℤ c
        → clamp timer (some (pos 5_000)) (pos 6_000) ≡ pos 6_000)
    × ((c : Instant)
        → some (pos 5_000) ≡ some c
        → c ≤ℤ pos 1_000
        → clamp timer (some (pos 5_000)) (pos 6_000) ≡ pos 1_000)
    × ((s : StoppedTimer) × (stop timer (clamp timer (some (pos 5_000)) (pos 6_000)) ≡ ok s)
        × (s.ended_at ≤ℤ pos 6_000))
clamp_lem_example = clamp_lem timer (some (pos 5_000)) (pos 6_000) (omega arith)

stopped : stop timer (pos 4_500) ≡ ok (span (text "a1") (pos 1_000) (pos 4_500))
unfolding stop
stopped = refl

silent : is_abandoned_at timer (pos 3_601_001) ≡ true
unfolding is_abandoned_at ◌-ℤ◌
silent = refl
