-- ===== src/Time/Service/Saved.antt =====
-- What `record` of timer-service.ts writes down.
use amc_system.Base.{
  ◌+◌, ◌/◌, ◌≡◌, refl, subst, Bool, true, false, Option, none, some, arith, inl, inr, Bool-cases,
  if◌then◌else◌,
}
use amc_system.Base.Int.{
  ℤ, pos, negsuc, nat_abs, ◌-ℤ◌, ◌≤ℤ◌, ◌<ℤ◌, ltb_ℤ, leb_ℤ, int_laws, -ℤ_parts, +ℤ_parts, ◌+ℤ◌,
  pos_part, neg_part,
}
use amc_system.Base.Text.{Text}
use amc_system.Base.Date.{floor_div}
use amc_system.Kernel.Result.{Result}
use amc_system.Kernel.Duration.{Instant, Duration, duration, try_between}
use amc_system.Time.Timer.{StoppedTimer}
use amc_system.Time.WorkingHours.{WorkingHours, questions, covers}
use amc_system.Time.WorkingHours.Unquestioned.{unquestioned_is_worked}
use amc_system.Time.Entry.{from_timer, timed_entry, doubt, implausible_seconds}
use amc_system.Time.Entry.State.{ReviewReason, TimeEntryState}
use amc_system.Time.Service.Tables.{Ports, Store, put_entry}
use amc_system.Time.Service.{record_span, seconds_of, review_reason, params_of}

-- Every instant from one to another falls into the working hours.
abbrev pub IsWorked : WorkingHours → Instant → Instant → Type 0
IsWorked hours from to =
    (instant : Instant) → from ≤ℤ instant → instant ≤ℤ to → covers hours instant ≡ true

-- The entry of a span: its ends, and what it means that nothing was found to question.
pub record IsEntryOf (hours : WorkingHours) (span : StoppedTimer) (e : TimeEntryState)
    : Type 0 where
  pub starts : e.started_at ≡ span.started_at
  pub ends : e.ended_at ≡ some span.ended_at
  pub lasts : span.started_at <ℤ span.ended_at
  pub unflagged :
      e.review_reason ≡ none
      → IsWorked hours span.started_at span.ended_at
        × (span.ended_at <ℤ span.started_at +ℤ pos 43_201_000)

-- Nothing is written, or one entry of the span is. The timers stay as they are.
pub data Saves (hours : WorkingHours) (span : StoppedTimer) (s t : Store) : Type 0 where
  nothing : t.entries ≡ s.entries → t.timers ≡ s.timers → Saves hours span s t
  one :
      (e : TimeEntryState)
      → IsEntryOf hours span e
      → t.entries ≡ put_entry e s.entries
      → t.timers ≡ s.timers
      → Saves hours span s t

positive : (d : ℤ) → leb_ℤ (floor_div d 1000) (pos 0) ≡ false → pos 0 <ℤ d
positive (pos n) h = ground arith
positive (negsuc n) h = absurd (ground arith)

try_between-ok :
    (start end : Instant)
    → start <ℤ end
    → try_between (some start) (some end)
      ≡ Result.ok (duration (pos (nat_abs (end -ℤ start) / 1000)))
unfolding try_between
try_between-ok start end h =
    let forward : ltb_ℤ (end -ℤ start) (pos 0) ≡ false = ground (arith, -ℤ_parts end start) in
    rw forward refl

unflagged-IsWorked :
    (hours : WorkingHours) (abandoned : Bool) (span : StoppedTimer)
    → review_reason hours abandoned span ≡ none
    → IsWorked hours span.started_at span.ended_at
unflagged-IsWorked hours true span h = absurd (cc)
unflagged-IsWorked hours false span h =
    elim (Bool-cases (questions hours span.started_at span.ended_at)) [
      | inl questioned ↦
          let h' : some ReviewReason.after_hours ≡ none =
            subst (λ b. (if b then some ReviewReason.after_hours else none) ≡ none) questioned h in
          absurd (cc)
      | inr passed ↦ λ instant le₁ le₂.
          unquestioned_is_worked hours span.started_at span.ended_at instant passed le₁ le₂
    ]

length_of : StoppedTimer → Duration
length_of span = duration (pos (nat_abs (span.ended_at -ℤ span.started_at) / 1000))

doubt-none :
    (why : Option ReviewReason) (span : StoppedTimer)
    → span.started_at <ℤ span.ended_at
    → doubt why (length_of span) ≡ none
    → (why ≡ none) × (span.ended_at <ℤ span.started_at +ℤ pos 43_201_000)
unfolding length_of
doubt-none (some why) span lasts h = cc
doubt-none none span lasts h = (
  refl,
  plausible (span.ended_at -ℤ span.started_at) span.started_at span.ended_at
      (-ℤ_parts span.ended_at span.started_at) lasts h,
)
  where
    plausible :
        (d start end : ℤ)
        → pos_part d + neg_part end + pos_part start ≡ neg_part d + pos_part end + neg_part start
        → start <ℤ end
        → (if ltb_ℤ implausible_seconds (pos (nat_abs d / 1000))
            then some ReviewReason.implausible
            else none)
          ≡ none
        → end <ℤ start +ℤ pos 43_201_000
    plausible (pos n) start end e le h = ground (arith, +ℤ_parts start (pos 43_201_000))
    plausible (negsuc n) start end e le h = absurd (omega arith)

from_timer-ok :
    (id : Text) (why : Option ReviewReason) (span : StoppedTimer)
    → span.started_at <ℤ span.ended_at
    → from_timer (params_of id why span)
      ≡ Result.ok (timed_entry (params_of id why span) (length_of span))
unfolding from_timer length_of
from_timer-ok id why span h = rw (from_timer, try_between-ok span.started_at span.ended_at h) refl

-- `record` leaves the timers as they are, and writes nothing or one entry: with the ends of the span,
-- which has some length. Where that entry is not flagged for review, every instant of it falls into the
-- person's working hours, and it is shorter than twelve hours and a second.
pub record_span-Saves :
    (ports : Ports) (user : Text) (abandoned : Bool) (span : StoppedTimer) (s : Store)
    → Saves (ports.hours_of user) span s (record_span ports user abandoned span s).1
unfolding record_span
record_span-Saves ports user abandoned span s =
    elim (Bool-cases (leb_ℤ (seconds_of span) (pos 0))) [
      | inl short ↦ rw short (nothing refl refl)
      | inr long ↦
          let lasts : span.started_at <ℤ span.ended_at =
            let d = positive (span.ended_at -ℤ span.started_at) long in omega (int_laws, d) in
          let hours = ports.hours_of user in
          let why = review_reason hours abandoned span in
          rw (long, from_timer-ok (ports.id_at s.issued) why span lasts)
            (one (timed_entry (params_of (ports.id_at s.issued) why span) (length_of span)).state
              (record {
                starts = refl;
                ends = refl;
                lasts = lasts;
                unflagged = λ h.
                    let (clear, short) = doubt-none why span lasts h in
                    (unflagged-IsWorked hours abandoned span clear, short);
              })
              refl refl)
    ]
