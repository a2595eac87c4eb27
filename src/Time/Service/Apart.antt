-- ===== src/Time/Service/Apart.antt =====
-- The calls of one person on timer-service.ts never book a moment twice.
use amc_system.Base.{◌≡◌, refl, ap, sym, ◌∙◌, none, some, List, [], ◌∷◌, ◌++◌, arith}
use amc_system.Base.Text.{Text}
use amc_system.Kernel.Duration.{Instant}
use amc_system.Time.Entry.State.{TimeEntryState}
use amc_system.Time.Service.Tables.{Ports, Store, put_entry, timer_of}
use amc_system.Time.Service.Booking.{
  Call, step, run, time_of, AreInOrder, put_all, AreApart, IsTidy,
}
use amc_system.Time.Service.Calls.{step-Books}

put_all-append :
    (es fs entries : List TimeEntryState)
    → put_all (es ++ fs) entries ≡ put_all fs (put_all es entries)
put_all-append [] fs entries = refl
put_all-append (e ∷ es) fs entries = put_all-append es fs (put_entry e entries)

AreApart-append :
    (from mid to : Instant) (es fs : List TimeEntryState)
    → AreApart from mid es
    → AreApart mid to fs
    → AreApart from to (es ++ fs)
AreApart-append from mid to [] [] h k = omega arith
AreApart-append from mid to [] (f ∷ fs) h (end, e, after, lasts, rest) =
    (end, e, omega arith, lasts, rest)
AreApart-append from mid to (e ∷ es) fs (end, ended, after, lasts, rest) k =
    (end, ended, after, lasts, AreApart-append end mid to es fs rest k)

run-Booked :
    (ports : Ports) (user : Text) (cs : List Call) (high t : Instant) (s : Store)
    → AreInOrder t cs
    → IsTidy user high t s
    → (es : List TimeEntryState) × (to : Instant) × ((run ports user cs s).entries
        ≡ put_all es s.entries)
      × AreApart high to es
unfolding run
run-Booked ports user [] high t s h tidy = ([], high, refl, omega arith)
run-Booked ports user (c ∷ cs) high t s (first, rest) tidy =
    let b = step-Books ports user c high t s first tidy in
    let (es, to, saved, apart) =
      run-Booked ports user cs b.high' (time_of c) (step ports user c s) rest b.tidy in
    (
      b.entries ++ es,
      to,
      saved ∙ ap (put_all es) b.saved ∙ sym (put_all-append b.entries es s.entries),
      AreApart-append high b.high' to b.entries es b.apart apart,
    )

-- For a person who runs no timer at `t`, and calls that happen in order from `t` on (each at the instant
-- it claims, or at the clock's where it claims none or one in the future): what the calls write down are
-- entries that have ended, each of some length, the first from `t` on and each from the end of the one
-- before. So no moment is booked twice.
pub run-AreApart :
    (ports : Ports) (user : Text) (cs : List Call) (t : Instant) (s : Store)
    → timer_of user s.timers ≡ none
    → AreInOrder t cs
    → (es : List TimeEntryState) × (to : Instant) × ((run ports user cs s).entries
        ≡ put_all es s.entries)
      × AreApart t to es
run-AreApart ports user cs t s nobody h = run-Booked ports user cs t t s h (record {
  booked = omega arith;
  watched = λ timer e. absurd (let gone : none ≡ some timer = sym nobody ∙ e in cc);
})
