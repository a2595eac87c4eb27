-- ===== src/Identity/User.antt =====
-- packages/modules/identity/domain/user.ts: a person, their sign-ins and their second factor.
pub mod History
pub mod Tests
use amc_system.Base.{
  ℕ, ◌+◌, Bool, true, false, not, ◌||◌, ◌&&◌, Option, none, some, List, [], ◌∷◌, any, is_some, leb,
  if◌then◌else◌,
}
use amc_system.Base.Int.{ℤ, pos, ◌+ℤ◌, ltb_ℤ}
use amc_system.Base.Text.{Text, trim, is_empty, eq_text}
use amc_system.Kernel.Result as Result
use amc_system.Kernel.Result.{Result}
use amc_system.Kernel.Aggregate.{
  Aggregate, Method, ok, err, threw, ◌>>=◌, ◌>>◌, pure, refuse_if, this_state, assign, emit,
}
use amc_system.Kernel.Duration.{Instant}
use amc_system.Identity.Permission.{
  Permission, Role, manager, accountant, data_entry, client, default_matrix, has, permissions_for,
}

pub data UserStatus : Type 0 where
  active suspended : UserStatus

abbrev pub is_suspended : UserStatus → Bool
is_suspended active = false
is_suspended suspended = true

-- `MAX_FAILED_ATTEMPTS` and `LOCKOUT_MINUTES`, in milliseconds.
abbrev pub max_failed_attempts : ℕ
max_failed_attempts = 5

abbrev pub lockout : ℤ
lockout = pos 900_000

pub record UserState : Type 0 where
  pub id : Text
  pub email : Text
  pub display_name : Text
  pub password_hash : Text
  pub roles : List Role
  pub status : UserStatus
  pub totp_secret : Option Text
  pub totp_confirmed_at : Option Instant
  pub failed_attempts : ℕ
  pub locked_until : Option Instant

pub data UserEvent : Type 0 where
  registered : Text → Instant → Text → List Role → UserEvent
  signin_failed : Text → Instant → ℕ → Bool → UserEvent
  signin_succeeded password_changed enrolment_started : Text → Instant → UserEvent
  twofactor_enabled twofactor_disabled was_suspended was_reinstated : Text → Instant → UserEvent
  renamed : Text → Instant → Text → Text → UserEvent
  roles_changed : Text → Instant → List Role → List Role → UserEvent

pub data UserConflict : Type 0 where
  no_role account_suspended no_name : UserConflict
  too_many_attempts : Option Instant → UserConflict

abbrev pub User : Type 0
User = Aggregate UserState UserEvent

abbrev pub UserMethod : Type 0 → Type 0
UserMethod = Method UserState UserEvent UserConflict

-- The argument of `User.register`.
pub record RegisterParams : Type 0 where
  pub id : Text
  pub email : Text
  pub display_name : Text
  pub password_hash : Text
  pub roles : List Role
  pub now : Instant

abbrev pub is_none_of : List Role → Bool
is_none_of [] = true
is_none_of (_ ∷ _) = false

abbrev pub registered_as : RegisterParams → User
registered_as p = record {
  state = record {
    id = p.id;
    email = p.email;
    display_name = trim p.display_name;
    password_hash = p.password_hash;
    roles = p.roles;
    status = active;
    totp_secret = none;
    totp_confirmed_at = none;
    failed_attempts = 0;
    locked_until = none;
  };
  pending = registered p.id p.now p.email p.roles ∷ [];
}

-- `register`
unfoldable pub register : RegisterParams → Result UserConflict User
register p = if is_none_of p.roles then Result.err no_role else Result.ok (registered_as p)

-- `twoFactorActive`
abbrev pub two_factor_active : UserState → Bool
two_factor_active s = is_some s.totp_secret && is_some s.totp_confirmed_at

-- `can`
abbrev pub can : UserState → Permission → Bool
can s permission = has permission (permissions_for default_matrix s.roles)

-- `ROLES_REQUIRING_TWO_FACTOR`
abbrev is_manager : Role → Bool
is_manager manager = true
is_manager accountant = false
is_manager data_entry = false
is_manager client = false

-- `requiresTwoFactor`
abbrev pub requires_two_factor : UserState → Bool
requires_two_factor s = any is_manager s.roles

-- `isLockedAt`
unfoldable pub is_locked_at : UserState → Instant → Bool
is_locked_at s now = elim s.locked_until [ none ↦ false | some until ↦ ltb_ℤ now until ]

-- `canSignInAt`
unfoldable pub can_sign_in_at : UserState → Instant → Result UserConflict (Unit {0})
can_sign_in_at s now =
    if is_suspended s.status
    then Result.err account_suspended
    else if is_locked_at s now
    then Result.err (too_many_attempts s.locked_until)
    else Result.ok tt

-- `recordFailedAttempt`
unfoldable pub record_failed_attempt : Instant → UserMethod (Unit {0})
record_failed_attempt now = do
  s ← this_state
  assign (record s {
    failed_attempts = s.failed_attempts + 1;
    locked_until =
        if leb max_failed_attempts (s.failed_attempts + 1)
        then some (now +ℤ lockout)
        else s.locked_until;
  })
  emit (
      signin_failed s.id now (s.failed_attempts + 1)
        (leb max_failed_attempts (s.failed_attempts + 1)))

-- `recordSuccessfulSignIn`
unfoldable pub record_successful_sign_in : Instant → UserMethod (Unit {0})
record_successful_sign_in now = do
  s ← this_state
  assign (record s { failed_attempts = 0; locked_until = none })
  emit (signin_succeeded s.id now)

-- `changePassword`
unfoldable pub change_password : Text → Instant → UserMethod (Unit {0})
change_password password_hash now = do
  s ← this_state
  assign (record s { password_hash = password_hash; failed_attempts = 0; locked_until = none })
  emit (password_changed s.id now)

-- `beginTwoFactorEnrolment`
unfoldable pub begin_two_factor_enrolment : Text → Instant → UserMethod (Unit {0})
begin_two_factor_enrolment sealed_secret now = do
  s ← this_state
  assign (record s { totp_secret = some sealed_secret; totp_confirmed_at = none })
  emit (enrolment_started s.id now)

-- `confirmTwoFactor`
unfoldable pub confirm_two_factor : Instant → UserMethod (Unit {0})
confirm_two_factor now = do
  s ← this_state
  assign (record s { totp_confirmed_at = some now })
  emit (twofactor_enabled s.id now)

-- `disableTwoFactor`
unfoldable pub disable_two_factor : Instant → UserMethod (Unit {0})
disable_two_factor now = do
  s ← this_state
  assign (record s { totp_secret = none; totp_confirmed_at = none })
  emit (twofactor_disabled s.id now)

abbrev rename_to : Text → Instant → UserMethod (Unit {0})
rename_to name now = do
  s ← this_state
  assign (record s { display_name = name })
  emit (renamed s.id now s.display_name name)

abbrev pub unless : Bool → UserMethod (Unit {0}) → UserMethod (Unit {0})
unless true m = pure tt
unless false m = m

-- `rename`
unfoldable pub rename : Text → Instant → UserMethod (Unit {0})
rename display_name now = do
  s ← this_state
  refuse_if (is_empty (trim display_name)) no_name
  unless (eq_text (trim display_name) s.display_name) (rename_to (trim display_name) now)

-- `assignRoles`
unfoldable pub assign_roles : List Role → Instant → UserMethod (Unit {0})
assign_roles roles now = do
  s ← this_state
  refuse_if (is_none_of roles) no_role
  assign (record s { roles = roles })
  emit (roles_changed s.id now s.roles roles)

-- `suspend`
unfoldable pub suspend : Instant → UserMethod (Unit {0})
suspend now = do
  s ← this_state
  assign (record s { status = suspended })
  emit (was_suspended s.id now)

-- `reinstate`
unfoldable pub reinstate : Instant → UserMethod (Unit {0})
reinstate now = do
  s ← this_state
  assign (record s { status = active; failed_attempts = 0; locked_until = none })
  emit (was_reinstated s.id now)

-- The calls that change a person.
pub data Command : Type 0 where
  fails_at succeeds_at confirms_at disables_at suspends_at reinstates_at : Instant → Command
  sets_password enrols is_named : Text → Instant → Command
  gets_roles : List Role → Instant → Command

unfoldable pub execute : Command → UserMethod (Unit {0})
execute (fails_at now) = record_failed_attempt now
execute (succeeds_at now) = record_successful_sign_in now
execute (confirms_at now) = confirm_two_factor now
execute (disables_at now) = disable_two_factor now
execute (suspends_at now) = suspend now
execute (reinstates_at now) = reinstate now
execute (sets_password hash now) = change_password hash now
execute (enrols secret now) = begin_two_factor_enrolment secret now
execute (is_named name now) = rename name now
execute (gets_roles roles now) = assign_roles roles now
