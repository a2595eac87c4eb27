-- ===== src/Time/WorkingHours/Unquestioned.antt =====
-- What a span is that `questions` of working-hours.ts lets pass.
use amc_system.Base.{ℕ, suc, ◌≤◌, ◌/◌, ◌≡◌, ap, sym, subst, ◌∙◌, true, false, arith}
use amc_system.Base.Int.{ℤ, pos, negsuc, pos_part, neg_part, ◌≤ℤ◌, eqb_ℤ, int_laws, eq_of_parts}
use amc_system.Base.Date.{ms_per_day, day_of, weekday_of}
use amc_system.Kernel.Duration.{Instant}
use amc_system.Time.WorkingHours.{
  WorkingHours, local, minutes_of, iso_weekday, is_worked, covers, questions,
}

day_of_mono : (s t : ℤ) → s ≤ℤ t → day_of s ≤ℤ day_of t
day_of_mono (pos m) (pos n) h = omega arith
day_of_mono (pos m) (negsuc n) h = absurd (omega arith)
day_of_mono (negsuc m) (pos n) h = omega arith
day_of_mono (negsuc m) (negsuc n) h = omega arith

-- Within one day, a later instant is no fewer minutes into it.
minutes_of_mono : (s t : ℤ) → s ≤ℤ t → day_of s ≡ day_of t → minutes_of s ≤ minutes_of t
minutes_of_mono (pos m) (pos n) h e =
    let q : m / ms_per_day ≡ n / ms_per_day = ap pos_part e in omega arith
minutes_of_mono (pos m) (negsuc n) h e = absurd (omega arith)
minutes_of_mono (negsuc m) (pos n) h e = cc
minutes_of_mono (negsuc m) (negsuc n) h e =
    let q : suc (m / ms_per_day) ≡ suc (n / ms_per_day) = ap neg_part e in omega arith

between_days : (a b c : ℤ) → a ≤ℤ b → b ≤ℤ c → a ≡ c → a ≡ b
between_days a b c h k e =
    let back : b ≤ℤ a = subst (λ z. b ≤ℤ z) (sym e) k in eq_of_parts a b (omega arith)

is_worked_between :
    (w : WorkingHours) (weekday first minutes last : ℕ)
    → first ≤ minutes
    → minutes ≤ last
    → is_worked w weekday first ≡ true
    → is_worked w weekday last ≡ true
    → is_worked w weekday minutes ≡ true
unfolding is_worked
is_worked_between w weekday first minutes last h k opened closed = ground arith

-- What a span that is let pass has at its ends.
record IsLetPass (w : WorkingHours) (s e : Instant) : Type 0 where
  starts : covers w s ≡ true
  ends : covers w e ≡ true
  same_day : eqb_ℤ (day_of (local s)) (day_of (local e)) ≡ true

questions-false : (w : WorkingHours) (s e : Instant) → questions w s e ≡ false → IsLetPass w s e
unfolding questions
questions-false w s e h = record {
  starts = ground arith;
  ends = ground arith;
  same_day = ground arith;
}

local_mono : (s t : ℤ) → s ≤ℤ t → local s ≤ℤ local t
local_mono s t h = omega int_laws

-- A span that raises no question was worked in working hours from its start to its end: every instant of
-- it falls on a working day and inside that day's hours.
pub unquestioned_is_worked :
    (w : WorkingHours) (started_at ended_at instant : Instant)
    → questions w started_at ended_at ≡ false
    → started_at ≤ℤ instant
    → instant ≤ℤ ended_at
    → covers w instant ≡ true
unquestioned_is_worked w s e t h le₁ le₂ =
    let p = questions-false w s e h in
    let days : day_of (local s) ≡ day_of (local e) = eq_of_parts _ _ (ground (arith, p.same_day)) in
    let first : day_of (local s) ≡ day_of (local t) =
      between_days _ _ _ (day_of_mono _ _ (local_mono s t le₁))
        (day_of_mono _ _ (local_mono t e le₂)) days in
    let last : day_of (local t) ≡ day_of (local e) = sym first ∙ days in
    let weekday : ℤ → ℕ = λ day. iso_weekday (weekday_of day) in
    is_worked_between w (weekday (day_of (local t))) (minutes_of (local s)) (minutes_of (local t))
      (minutes_of (local e)) (minutes_of_mono _ _ (local_mono s t le₁) first)
      (minutes_of_mono _ _ (local_mono t e le₂) last)
      (subst (λ day. is_worked w (weekday day) (minutes_of (local s)) ≡ true) first p.starts)
      (subst (λ day. is_worked w (weekday day) (minutes_of (local e)) ≡ true) (sym last) p.ends)
