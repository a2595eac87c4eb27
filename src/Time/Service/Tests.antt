-- ===== src/Time/Service/Tests.antt =====
-- The timer service at concrete instants.
use amc_system.Base.{◌≡◌, refl, Option, none, some, List, [], ◌∷◌, arith, map, false}
use amc_system.Base.Int.{pos, ◌-ℤ◌}
use amc_system.Base.Text.{Text, text, eq_text}
use amc_system.Kernel.Duration.{Instant, try_between}
use amc_system.Time.WorkingHours.{default_hours, questions}
use amc_system.Time.Timer as Timer
use amc_system.Time.Timer.{StoppedTimer, clamp, is_abandoned_at}
use amc_system.Time.Entry.{from_timer}
use amc_system.Time.Entry.State.{TimeEntryState}
use amc_system.Time.Service.Tables.{Ports, Store, put_entry, put_timer}
use amc_system.Time.Service.{start, stop, hold, resume, record_span}
use amc_system.Time.Service.Saved.{Saves, record_span-Saves}
use amc_system.Time.Service.Booking.{
  Call, starts, stops, holds, resumes, step, run, put_all, AreApart,
}
use amc_system.Time.Service.Apart.{run-AreApart}

-- One person, assigned to every project.
abbrev ports : Ports
ports = record {
  assignment_for = λ user project. some project;
  user_of = λ assignment. some (text "u1");
  hours_of = default_hours;
  id_at = λ n. n ∷ [];
}

abbrev no_time : Store
no_time = record { timers = []; entries = []; issued = 0; collected = [] }

abbrev user : Text
user = text "u1"

-- A morning: a project, a hold, and a switch to another project that is replayed later.
abbrev morning : List Call
morning =
    starts (text "a1") none none (pos 1_000_000)
    ∷ holds none (pos 1_600_000)
    ∷ resumes none (pos 2_000_000)
    ∷ starts (text "a2") none (some (pos 2_500_000)) (pos 2_600_000)
    ∷ stops none (pos 3_000_000)
    ∷ []

run-AreApart_example :
    (es : List TimeEntryState) × (to : Instant) × ((run ports user morning no_time).entries
      ≡ put_all es [])
    × AreApart (pos 0) to es
unfolding run step start stop hold resume put_timer eq_text
run-AreApart_example =
    run-AreApart ports user morning (pos 0) no_time refl
      (omega arith, (omega arith, (omega arith, (omega arith, (omega arith, tt)))))

abbrev ends_of : TimeEntryState → Instant × Option Instant
ends_of e = (e.started_at, e.ended_at)

-- A start that claims an instant before the end of what is written down books time twice.
booked_twice :
    map ends_of
      (run ports user
        (starts (text "a1") none none (pos 1_000_000)
          ∷ stops none (pos 2_000_000)
          ∷ starts (text "a2") none (some (pos 1_500_000)) (pos 2_100_000)
          ∷ stops none (pos 2_500_000)
          ∷ [])
        no_time).entries
    ≡ (pos 1_000_000, some (pos 2_000_000)) ∷ (pos 1_500_000, some (pos 2_500_000)) ∷ []
unfolding run step start stop put_timer eq_text clamp Timer.stop is_abandoned_at record_span
    from_timer put_entry questions try_between ◌-ℤ◌
booked_twice = refl

abbrev an_hour : StoppedTimer
an_hour = Timer.span (text "a1") (pos 0) (pos 3_600_000)

record_span-Saves_example :
    Saves (default_hours user) an_hour no_time (record_span ports user false an_hour no_time).1
record_span-Saves_example = record_span-Saves ports user false an_hour no_time
