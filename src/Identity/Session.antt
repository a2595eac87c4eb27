-- ===== src/Identity/Session.antt =====
-- packages/modules/identity/domain/session.ts: a session, which dies when it idles or when its time is
-- over, whichever comes first. Minutes and hours are whole.
pub mod Expiry
pub mod Tests
use amc_system.Base.{Bool, true, false, Option, none, some, List, [], ◌∷◌, is_some, if◌then◌else◌}
use amc_system.Base.Int.{ℤ, pos, ◌+ℤ◌, ◌*ℤ◌, ltb_ℤ, leb_ℤ}
use amc_system.Base.Text.{Text}
use amc_system.Kernel.Aggregate.{
  Aggregate, Method, ◌>>=◌, ◌>>◌, pure, refuse_if, this_state, assign, emit,
}
use amc_system.Kernel.Duration.{Instant}

pub record SessionLimits : Type 0 where
  pub idle_minutes : ℤ
  pub absolute_hours : ℤ

pub record SessionState : Type 0 where
  pub id : Text
  pub user_id : Text
  pub created_at : Instant
  pub last_seen_at : Instant
  pub absolute_expires_at : Instant
  pub revoked_at : Option Instant
  pub ip_address : Option Text
  pub user_agent : Option Text
  pub idle_minutes : ℤ
  pub two_factor_passed : Bool

-- One constructor for each `new Conflict(…)`.
pub data SessionConflict : Type 0 where
  signed_out maximum_length inactive : SessionConflict

-- The domain events, with the session, the instant and the user.
pub data SessionEvent : Type 0 where
  started two_factor_accepted revoked : Text → Instant → Text → SessionEvent

abbrev pub Session : Type 0
Session = Aggregate SessionState SessionEvent

abbrev pub SessionMethod : Type 0 → Type 0
SessionMethod = Method SessionState SessionEvent SessionConflict

-- The argument of `Session.start`.
pub record StartParams : Type 0 where
  pub id : Text
  pub user_id : Text
  pub now : Instant
  pub limits : SessionLimits
  pub ip_address : Option Text
  pub user_agent : Option Text
  pub two_factor_passed : Bool

-- `params.now.getTime() + params.limits.absoluteHours * 3_600_000`
abbrev pub absolute_end : StartParams → Instant
absolute_end p = p.now +ℤ p.limits.absolute_hours *ℤ pos 3_600_000

-- `Session.start`
abbrev pub start : StartParams → Session
start p = record {
  state = record {
    id = p.id;
    user_id = p.user_id;
    created_at = p.now;
    last_seen_at = p.now;
    absolute_expires_at = absolute_end p;
    revoked_at = none;
    ip_address = p.ip_address;
    user_agent = p.user_agent;
    idle_minutes = p.limits.idle_minutes;
    two_factor_passed = p.two_factor_passed;
  };
  pending = SessionEvent.started p.id p.now p.user_id ∷ [];
}

-- `passTwoFactor`
unfoldable pub pass_two_factor : Instant → SessionMethod (Unit {0})
pass_two_factor now = do
  s ← this_state
  if s.two_factor_passed then pure tt else (do
    assign (record s { two_factor_passed = true; last_seen_at = now })
    emit (SessionEvent.two_factor_accepted s.id now s.user_id))

-- `idleExpiresAt`
abbrev pub idle_expires_at : SessionState → Instant
idle_expires_at s = s.last_seen_at +ℤ s.idle_minutes *ℤ pos 60_000

-- `isValidAt`
unfoldable pub is_valid_at : SessionState → Instant → Bool
is_valid_at s now =
    if is_some s.revoked_at
    then false
    else if leb_ℤ s.absolute_expires_at now
    then false
    else ltb_ℤ now (idle_expires_at s)

-- `touch`
unfoldable pub touch : Instant → SessionMethod (Unit {0})
touch now = do
  s ← this_state
  refuse_if (is_some s.revoked_at) SessionConflict.signed_out
  refuse_if (leb_ℤ s.absolute_expires_at now) SessionConflict.maximum_length
  refuse_if (leb_ℤ (idle_expires_at s) now) SessionConflict.inactive
  assign (record s { last_seen_at = now })

-- `revoke`
unfoldable pub revoke : Instant → SessionMethod (Unit {0})
revoke now = do
  s ← this_state
  if is_some s.revoked_at then pure tt else (do
    assign (record s { revoked_at = some now })
    emit (SessionEvent.revoked s.id now s.user_id))

-- The calls that change a session.
pub data Command : Type 0 where
  pass_at touch_at revoke_at : Instant → Command

unfoldable pub execute : Command → SessionMethod (Unit {0})
execute (pass_at now) = pass_two_factor now
execute (touch_at now) = touch now
execute (revoke_at now) = revoke now
