-- ===== src/Auth/Login.antt =====
-- Password login (`Login`, `recordFailure` in internal/auth/sessions.go; the row updates of
-- internal/store/users.go). Times are in microseconds. The password hash and the second factor are
-- checked by code that is a parameter: an attempt carries what it answers.
pub mod Locked
pub mod Session
use janus_secrets.Common.{
  ℕ, ◌+◌, ◌-◌, ◌/◌, Bool, true, false, ◌&&◌, Option, none, some, List, [], ◌∷◌, leb, ltb,
  if◌then◌else◌, Bytes, Result, ok, err,
}
use janus_secrets.Auth.Lockout.{LockoutPolicy, window}

-- The columns of a user that a login reads and writes.
pub record User : Type 0 where
  pub disabled : Bool
  pub has_password : Bool
  pub failed_count : ℕ
  pub level : ℕ
  pub locked_until : Option ℕ

-- What an attempt meets: the clock, the answer of `VerifyPassword`, whether TOTP is active, whether
-- a code was given, the answer for the second factor, and whether the row updates work.
pub record Attempt : Type 0 where
  pub now : ℕ
  pub password : Result Bytes Bool
  pub totp_enabled : Result Bytes Bool
  pub blank_code : Bool
  pub second_factor : Result Bytes Bool
  pub writes_work : Bool

pub data Answer : Type 0 where
  invalid_credentials totp_required session : Answer
  account_locked : ℕ → Answer
  failed : Bytes → Answer

-- `RecordFailedLogin`
unfoldable pub record_failed_login : ℕ → ℕ → ℕ → User → User
record_failed_login threshold lock now u =
    if leb threshold (u.failed_count + 1)
    then record u { failed_count = 0; level = u.level + 1; locked_until = some (now + lock / 1000) }
    else record u { failed_count = u.failed_count + 1 }

-- `recordFailure`
unfoldable pub record_failure : LockoutPolicy → Attempt → User → User
record_failure p a u =
    if p.enabled && a.writes_work
    then record_failed_login p.threshold (window p (u.level + 1)) a.now u
    else u

-- `ResetLoginFailures`
unfoldable pub reset_login_failures : User → User
reset_login_failures u = record u { failed_count = 0; level = 0; locked_until = none }

-- How much of a lock is left.
unfoldable pub remaining : Option ℕ → ℕ → ℕ
remaining none now = 0
remaining (some t) now = t - now

abbrev pub is_verified : Result Bytes Bool → Bool
is_verified (ok b) = b
is_verified (err e) = false

abbrev pub succeed : LockoutPolicy → Attempt → User → Answer × User
succeed p a u = (session, if p.enabled && a.writes_work then reset_login_failures u else u)

abbrev pub check_code : LockoutPolicy → Attempt → Result Bytes Bool → User → Answer × User
check_code p a (err e) u = (failed e, u)
check_code p a (ok true) u = succeed p a u
check_code p a (ok false) u = (invalid_credentials, record_failure p a u)

abbrev pub check_second_factor : LockoutPolicy → Attempt → Result Bytes Bool → User → Answer × User
check_second_factor p a (err e) u = (failed e, u)
check_second_factor p a (ok false) u = succeed p a u
check_second_factor p a (ok true) u =
    if a.blank_code then (totp_required, u) else check_code p a a.second_factor u

-- `Login` for a user that the store has found.
unfoldable pub login : LockoutPolicy → Attempt → User → Answer × User
login p a u =
    if u.disabled
    then (invalid_credentials, u)
    else if u.has_password
    then if p.enabled && ltb 0 (remaining u.locked_until a.now)
      then if is_verified a.password
        then (account_locked (remaining u.locked_until a.now), u)
        else (invalid_credentials, u)
      else if is_verified a.password
      then check_second_factor p a a.totp_enabled u
      else (invalid_credentials, record_failure p a u)
    else (invalid_credentials, u)

-- Attempts in their order; the user afterwards.
unfoldable pub login_all : LockoutPolicy → List Attempt → User → User
login_all p [] u = u
login_all p (a ∷ attempts) u = login_all p attempts (login p a u).1
