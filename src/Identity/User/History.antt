-- ===== src/Identity/User/History.antt =====
-- What a person's past says of their next sign-in (user.ts).
use amc_system.Base.{
  ℕ, ◌+◌, ◌≡◌, refl, subst, ◌∙◌, Bool, true, false, Option, none, some, List, [], ◌∷◌, length, leb,
  arith, inl, inr, Bool-cases, Option-cases, if◌then◌else◌,
}
use amc_system.Base.Text.{trim, is_empty, eq_text}
use amc_system.Base.Int.{◌+ℤ◌, ltb_ℤ}
use amc_system.Kernel.Result.{Result}
use amc_system.Kernel.Aggregate.{run_all}
use amc_system.Kernel.Duration.{Instant}
use amc_system.Identity.User.{
  User, UserState, RegisterParams, is_suspended, register, registered_as, is_none_of, no_role,
  max_failed_attempts, lockout, UserConflict, account_suspended, too_many_attempts, is_locked_at,
  can_sign_in_at, Command, fails_at, succeeds_at, confirms_at, disables_at, suspends_at,
  reinstates_at, sets_password, enrols, is_named, gets_roles, execute, record_failed_attempt,
  record_successful_sign_in, change_password, begin_two_factor_enrolment, confirm_two_factor,
  disable_two_factor, rename, assign_roles, suspend, reinstate,
}

-- The failures since the last success, change of password or reinstatement, the newest first.
abbrev after_one : Command → List Instant → List Instant
after_one (fails_at now) fs = now ∷ fs
after_one (succeeds_at now) fs = []
after_one (sets_password hash now) fs = []
after_one (reinstates_at now) fs = []
after_one (confirms_at now) fs = fs
after_one (disables_at now) fs = fs
after_one (suspends_at now) fs = fs
after_one (enrols secret now) fs = fs
after_one (is_named name now) fs = fs
after_one (gets_roles roles now) fs = fs

abbrev pub failures_after : List Instant → List Command → List Instant
failures_after fs [] = fs
failures_after fs (c ∷ cs) = failures_after (after_one c fs) cs

-- Whether somebody suspended the account and nobody has reinstated it.
abbrev out_one : Command → Bool → Bool
out_one (suspends_at now) b = true
out_one (reinstates_at now) b = false
out_one (fails_at now) b = b
out_one (succeeds_at now) b = b
out_one (sets_password hash now) b = b
out_one (confirms_at now) b = b
out_one (disables_at now) b = b
out_one (enrols secret now) b = b
out_one (is_named name now) b = b
out_one (gets_roles roles now) b = b

abbrev pub out_after : Bool → List Command → Bool
out_after b [] = b
out_after b (c ∷ cs) = out_after (out_one c b) cs

-- From the fifth failure in a row on, until a quarter of an hour after the newest.
abbrev pub locked_by : List Instant → Option Instant
locked_by [] = none
locked_by (newest ∷ before) = if leb 5 (length before + 1) then some (newest +ℤ lockout) else none

abbrev pub refused_by : Bool → Option Instant → Instant → Result UserConflict (Unit {0})
refused_by true until now = Result.err account_suspended
refused_by false none now = Result.ok tt
refused_by false (some until) now =
    if ltb_ℤ now until then Result.err (too_many_attempts (some until)) else Result.ok tt

abbrev Remembers : List Instant → Bool → UserState → Type 0
Remembers fs b s =
    (s.failed_attempts ≡ length fs) × (s.locked_until ≡ locked_by fs) × (is_suspended s.status ≡ b)

not_yet : (fs : List Instant) → leb 5 (length fs + 1) ≡ false → locked_by fs ≡ none
not_yet [] h = refl
not_yet (f ∷ fs) h = ground arith

locks :
    (now : Instant) (k : ℕ) (fs : List Instant) (until : Option Instant)
    → k ≡ length fs
    → until ≡ locked_by fs
    → (if leb max_failed_attempts (k + 1) then some (now +ℤ lockout) else until)
      ≡ locked_by (now ∷ fs)
locks now k fs until n l = elim (Bool-cases (leb 5 (length fs + 1))) [
  | inl five ↦ rw (n, five) refl
  | inr fewer ↦ rw (n, l, fewer) (not_yet fs fewer)
]

execute-Remembers :
    (c : Command) (fs : List Instant) (b : Bool) (a : User)
    → Remembers fs b a.state
    → Remembers (after_one c fs) (out_one c b) (execute c a).1.state
unfolding execute record_failed_attempt record_successful_sign_in change_password
    begin_two_factor_enrolment confirm_two_factor disable_two_factor rename assign_roles suspend
    reinstate
execute-Remembers (fails_at now) fs b a (n, l, s) =
    (rw n (omega arith), locks now a.state.failed_attempts fs a.state.locked_until n l, s)
execute-Remembers (succeeds_at now) fs b a (n, l, s) = (refl, refl, s)
execute-Remembers (sets_password hash now) fs b a (n, l, s) = (refl, refl, s)
execute-Remembers (reinstates_at now) fs b a (n, l, s) = (refl, refl, refl)
execute-Remembers (confirms_at now) fs b a h = h
execute-Remembers (disables_at now) fs b a h = h
execute-Remembers (suspends_at now) fs b a (n, l, s) = (n, l, refl)
execute-Remembers (enrols secret now) fs b a h = h
execute-Remembers (is_named name now) fs b a h = elim (Bool-cases (is_empty (trim name))) [
  | inl nameless ↦ rw nameless h
  | inr named ↦ elim (Bool-cases (eq_text (trim name) a.state.display_name)) [
    | inl same ↦ rw (named, same) h
    | inr other ↦ rw (named, other) h
  ]
]
execute-Remembers (gets_roles [] now) fs b a h = h
execute-Remembers (gets_roles (r ∷ rs) now) fs b a h = h

run_all-Remembers :
    (cs : List Command) (fs : List Instant) (b : Bool) (a : User)
    → Remembers fs b a.state
    → Remembers (failures_after fs cs) (out_after b cs) (run_all execute cs a).state
unfolding run_all
run_all-Remembers [] fs b a h = h
run_all-Remembers (c ∷ cs) fs b a h =
    run_all-Remembers cs (after_one c fs) (out_one c b) (execute c a).1
      (execute-Remembers c fs b a h)

register-Remembers :
    (p : RegisterParams) (a : User) → register p ≡ Result.ok a → Remembers [] false a.state
unfolding register
register-Remembers p a h = elim (Bool-cases (is_none_of p.roles)) [
  | inl nothing ↦
      let refused : Result.err no_role ≡ Result.ok a =
        subst (λ b. (if b then Result.err no_role else Result.ok (registered_as p)) ≡ Result.ok a)
          nothing h in
      absurd (cc)
  | inr something ↦
      let made : Result.ok (registered_as p) ≡ Result.ok a =
        subst (λ b. (if b then Result.err no_role else Result.ok (registered_as p)) ≡ Result.ok a)
          something h in
      let same : registered_as p ≡ a = cc in
      subst (λ u. Remembers [] false u.state) same (refl, refl, refl)
]

answered :
    (s : UserState) (fs : List Instant) (b : Bool) (now : Instant)
    → Remembers fs b s
    → can_sign_in_at s now ≡ refused_by b (locked_by fs) now
unfolding can_sign_in_at is_locked_at
answered s fs true now (n, l, out) = rw out refl
answered s fs false now (n, l, out) = elim (Option-cases (locked_by fs)) [
  | inl open_door ↦
      let unlocked : s.locked_until ≡ none = l ∙ open_door in rw (out, unlocked, open_door) refl
  | inr (until, shut) ↦
      let locked : s.locked_until ≡ some until = l ∙ shut in rw (out, locked, shut) refl
]

-- Whatever calls a registered person has been through, the answer to a sign-in is the one that the calls
-- give: refused for good while somebody has suspended the account and nobody reinstated it since;
-- refused from the fifth failure in a row on until a quarter of an hour after the newest, where a
-- success, a new password or a reinstatement ends the row; and let through otherwise.
pub sign_in_follows_history :
    (p : RegisterParams) (a : User) (cs : List Command) (now : Instant)
    → register p ≡ Result.ok a
    → can_sign_in_at (run_all execute cs a).state now
      ≡ refused_by (out_after false cs) (locked_by (failures_after [] cs)) now
sign_in_follows_history p a cs now h =
    answered (run_all execute cs a).state (failures_after [] cs) (out_after false cs) now
      (run_all-Remembers cs [] false a (register-Remembers p a h))
