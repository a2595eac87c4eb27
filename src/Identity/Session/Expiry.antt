-- ===== src/Identity/Session/Expiry.antt =====
-- The expiries and the revocation of a session (session.ts).
use amc_system.Base.{◌≡◌, refl, ap, subst, ◌∙◌, true, false, none, List, is_some, arith, ◌↔◌}
use amc_system.Base.Int.{◌<ℤ◌}
use amc_system.Kernel.Aggregate.{ok, run_all, run_all-keeps}
use amc_system.Kernel.Duration.{Instant}
use amc_system.Identity.Session.{
  Session, SessionState, StartParams, Command, pass_at, touch_at, revoke_at, execute, start,
  absolute_end, pass_two_factor, is_valid_at, idle_expires_at, touch, revoke,
}

-- A session can be marked used exactly while it is valid; then it is last seen at that instant, and
-- otherwise nothing changes.
pub touch-is_valid_at :
    (now : Instant) (a : Session)
    → (((touch now a).0 ≡ ok tt) ↔ (is_valid_at a.state now ≡ true))
      × (is_valid_at a.state now ≡ true
          → (touch now a).1 ≡ record a { state = record a.state { last_seen_at = now } })
      × (is_valid_at a.state now ≡ false → (touch now a).1 ≡ a)
unfolding touch is_valid_at
touch-is_valid_at now a =
    ((λ h. ground arith, λ h. ground arith), λ h. ground arith, λ h. ground arith)

-- What no call changes, and what stays once it is there.
abbrev Keeps : SessionState → SessionState → Type 0
Keeps s s' =
    (s'.absolute_expires_at ≡ s.absolute_expires_at)
    × (is_some s.revoked_at ≡ true → s'.revoked_at ≡ s.revoked_at)

execute-Keeps : (c : Command) (a : Session) → Keeps a.state (execute c a).1.state
unfolding execute pass_two_factor touch revoke
execute-Keeps (pass_at now) a = (ground arith, λ h. ground arith)
execute-Keeps (touch_at now) a = (ground arith, λ h. ground arith)
execute-Keeps (revoke_at now) a = (ground arith, λ h. ground arith)

run_all-absolute :
    (cs : List Command) (a : Session)
    → (run_all execute cs a).state.absolute_expires_at ≡ a.state.absolute_expires_at
run_all-absolute cs a =
    run_all-keeps (λ b. b.state.absolute_expires_at ≡ a.state.absolute_expires_at) execute
      (λ c b e. (execute-Keeps c b).0 ∙ e) cs a refl

valid_before :
    (s : SessionState) (now : Instant)
    → is_valid_at s now ≡ true
    → (now <ℤ s.absolute_expires_at) × (now <ℤ idle_expires_at s) × (s.revoked_at ≡ none)
unfolding is_valid_at
valid_before s now h = (ground arith, ground arith, ground arith)

-- However a session is used after its start, it is valid only before its absolute end, which was
-- fixed at the start, and only until it has idled for its minutes since it was last seen.
pub valid_within_limits :
    (p : StartParams) (cs : List Command) (now : Instant)
    → is_valid_at (run_all execute cs (start p)).state now ≡ true
    → (now <ℤ absolute_end p) × (now <ℤ idle_expires_at (run_all execute cs (start p)).state)
valid_within_limits p cs now h =
    let (before, active, _) = valid_before (run_all execute cs (start p)).state now h in
    (subst (λ z. now <ℤ z) (run_all-absolute cs (start p)) before, active)

invalid_revoked :
    (s : SessionState) (now : Instant) → is_some s.revoked_at ≡ true → is_valid_at s now ≡ false
unfolding is_valid_at
invalid_revoked s now h = ground arith

revoke-some : (now : Instant) (a : Session) → is_some (revoke now a).1.state.revoked_at ≡ true
unfolding revoke
revoke-some now a = ground arith

-- A session that was revoked is valid at no instant, whatever is called on it afterwards.
pub revoked_for_ever :
    (at later : Instant) (cs : List Command) (a : Session)
    → is_valid_at (run_all execute cs (revoke at a).1).state later ≡ false
revoked_for_ever at later cs a = invalid_revoked (run_all execute cs (revoke at a).1).state later (
    run_all-keeps (λ b. is_some b.state.revoked_at ≡ true) execute
      (λ c b e. ap is_some ((execute-Keeps c b).1 e) ∙ e) cs (revoke at a).1 (revoke-some at a))
