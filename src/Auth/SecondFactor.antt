-- ===== src/Auth/SecondFactor.antt =====
-- The second factor of a login: TOTP codes with their replay guard, and recovery codes
-- (`verifySecondFactor` of internal/auth/totp.go, `VerifyTOTPStep` of internal/crypto/totp.go, and the
-- row updates of internal/store/totp.go). What unwraps the secret, the HOTP value of a counter and
-- the HMAC of a recovery code are parameters. Times are in seconds since 1970.
pub mod Replays
pub mod Fresh
pub mod Enrolment
pub mod Kept
use janus_secrets.Common.{
  ℕ, zero, suc, ◌+◌, ◌-◌, ◌*◌, ◌/◌, Bool, true, false, ◌&&◌, not, Option, none, some, List, [], ◌∷◌,
  any, length, leb, ltb, ◌==◌, if◌then◌else◌, Bytes, bytes_eq, Result, ok, err,
}

-- A stored recovery code: its HMAC, and whether it is spent.
pub record RecoveryCode : Type 0 where
  pub code_hmac : Bytes
  pub used : Bool

-- The row of `user_totp`, and the recovery codes of the user.
pub record UserTotp : Type 0 where
  pub wrapped_secret : Bytes
  pub activated : Bool
  pub last_step : Option ℕ
  pub codes : List RecoveryCode

pub data Error : Type 0 where
  totp_state sealed : Error

-- What the service is given; `none` is a keyring that is sealed.
pub record Server : Type 0 where
  pub unwrap : Bytes → Option Bytes
  pub hotp : Bytes → ℕ → Bytes
  pub recovery_hmac : Bytes → Option Bytes

-- What a second factor was accepted for.
pub data Acceptance : Type 0 where
  totp_step : ℕ → Acceptance
  recovery : Bytes → Acceptance

abbrev pub skew : ℕ
skew = 1

abbrev pub code_at : Server → Bytes → Bytes → ℕ → Bool
code_at sv secret code c = bytes_eq (sv.hotp secret c) code

-- The loop over the window: the counter is `base - skew`, negative ones are passed over, and the last
-- match stands.
unfoldable pub scan_window : (ℕ → Bool) → ℕ → ℕ → Option ℕ → Option ℕ
scan_window matches zero base found = found
scan_window matches (suc n) base found =
    scan_window matches n (base + 1)
      (if leb skew base && matches (base - skew) then some (base - skew) else found)

-- `VerifyTOTPStep`
unfoldable pub verify_totp_step : Server → Bytes → Bytes → ℕ → Option ℕ
verify_totp_step sv secret code now =
    if length code == 6
    then scan_window (code_at sv secret code) (2 * skew + 1) (now / 30) none
    else none

abbrev pub is_later : Option ℕ → ℕ → Bool
is_later none new_step = true
is_later (some s) new_step = ltb s new_step

-- `ConsumeTOTPStep`
abbrev pub consume_totp_step : ℕ → UserTotp → Option Acceptance × UserTotp
consume_totp_step new_step t =
    if t.activated && is_later t.last_step new_step
    then (some (totp_step new_step), record t { last_step = some new_step })
    else (none, t)

abbrev pub unspent : Bytes → RecoveryCode → Bool
unspent h c = bytes_eq c.code_hmac h && not c.used

-- The first unused code with an HMAC is spent.
unfoldable pub spend : Bytes → List RecoveryCode → List RecoveryCode
spend h [] = []
spend h (c ∷ cs) =
    let rest = spend h cs in if unspent h c then record c { used = true } ∷ cs else c ∷ rest

-- `ConsumeRecoveryCode`
abbrev pub consume_recovery_code : Bytes → UserTotp → Option Acceptance × UserTotp
consume_recovery_code h t =
    if any (unspent h) t.codes
    then (some (recovery h), record t { codes = spend h t.codes })
    else (none, t)

-- `consumeRecovery`
abbrev pub consume_recovery : Option Bytes → UserTotp → Result Error (Option Acceptance) × UserTotp
consume_recovery none t = (err sealed, t)
consume_recovery (some h) t = let after = consume_recovery_code h t in (ok after.0, after.1)

abbrev pub check_step :
    Option ℕ → Option Bytes → UserTotp → Result Error (Option Acceptance) × UserTotp
check_step (some s) h t = let after = consume_totp_step s t in (ok after.0, after.1)
check_step none h t = consume_recovery h t

abbrev pub check_secret :
    Server → ℕ → Bytes → Option Bytes → UserTotp → Result Error (Option Acceptance) × UserTotp
check_secret sv now code none t = (err sealed, t)
check_secret sv now code (some secret) t =
    check_step (verify_totp_step sv secret code now) (sv.recovery_hmac code) t

-- `verifySecondFactor` for a user with a row and a code without white space around it; the answer
-- says what was accepted.
unfoldable pub verify_second_factor :
    Server → ℕ → Bytes → UserTotp → Result Error (Option Acceptance) × UserTotp
verify_second_factor sv now code t =
    if t.activated
    then check_secret sv now code (sv.unwrap t.wrapped_secret) t
    else (err totp_state, t)

-- The acceptances of a row of attempts, the last one first.
abbrev pub add_acceptance : Result Error (Option Acceptance) → List Acceptance → List Acceptance
add_acceptance (err e) log = log
add_acceptance (ok none) log = log
add_acceptance (ok (some a)) log = a ∷ log

-- Attempts with a time and a code.
unfoldable pub attempts :
    Server → List (ℕ × Bytes) → List Acceptance → UserTotp → List Acceptance × UserTotp
attempts sv [] log t = (log, t)
attempts sv (a ∷ more) log t =
    let after = verify_second_factor sv a.0 a.1 t in
    attempts sv more (add_acceptance after.0 log) after.1
