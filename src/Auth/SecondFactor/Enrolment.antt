-- ===== src/Auth/SecondFactor/Enrolment.antt =====
-- The life of a TOTP factor: `EnrollTOTP`, `ConfirmTOTP`, `DisableTOTP` and `RegenerateRecoveryCodes`
-- of internal/auth/totp.go. The recovery codes are deleted with the row, so they stand in it. Each
-- operation runs alone, and the calls of the store work.
use janus_secrets.Common.{
  ℕ, Bool, true, false, Option, none, some, List, [], ◌∷◌, if◌then◌else◌, Bytes, Result, ok, err,
}
use janus_secrets.Auth.SecondFactor.{
  RecoveryCode, UserTotp, Error, Server, Acceptance, verify_totp_step, verify_second_factor,
}

-- An operation with what the program draws for it: a wrapped secret, or the HMACs of new codes.
pub data Operation : Type 0 where
  enroll : Option Bytes → Operation
  confirm : ℕ → Bytes → List Bytes → Operation
  disable : ℕ → Bytes → Operation
  regenerate : ℕ → Bytes → List Bytes → Operation
  log_in : ℕ → Bytes → Operation

-- `ReplaceRecoveryCodes`
abbrev new_codes : List Bytes → List RecoveryCode
new_codes [] = []
new_codes (h ∷ hs) = record { code_hmac = h; used = false } ∷ new_codes hs

-- `Upsert`: the last time-step and the codes of an enrolment that is replaced stay.
abbrev pub upsert : Bytes → Option UserTotp → UserTotp
upsert w none = record { wrapped_secret = w; activated = false; last_step = none; codes = [] }
upsert w (some t) = record t { wrapped_secret = w; activated = false }

abbrev is_activated : Option UserTotp → Bool
is_activated none = false
is_activated (some t) = t.activated

-- `EnrollTOTP`; a keyring that is sealed wraps nothing.
abbrev pub enroll_totp : Option Bytes → Option UserTotp → Option UserTotp
enroll_totp none u = u
enroll_totp (some w) u = if is_activated u then u else some (upsert w u)

-- `Activate`, and the recovery codes that `ConfirmTOTP` then stores.
abbrev pub confirm_step : List Bytes → Option ℕ → UserTotp → UserTotp
confirm_step hs none t = t
confirm_step hs (some s) t =
    if t.activated then t else record t { activated = true; codes = new_codes hs }

abbrev pub confirm_secret : Server → ℕ → Bytes → List Bytes → Option Bytes → UserTotp → UserTotp
confirm_secret sv now code hs none t = t
confirm_secret sv now code hs (some secret) t =
    confirm_step hs (verify_totp_step sv secret code now) t

-- `DisableTOTP` after the second factor was checked.
abbrev pub disabled : Result Error (Option Acceptance) × UserTotp → Option UserTotp
disabled (ok (some a), t) = none
disabled (ok none, t) = some t
disabled (err e, t) = some t

-- `RegenerateRecoveryCodes` after the second factor was checked.
abbrev pub regenerated : List Bytes → Result Error (Option Acceptance) × UserTotp → UserTotp
regenerated hs (ok (some a), t) = record t { codes = new_codes hs }
regenerated hs (ok none, t) = t
regenerated hs (err e, t) = t

unfoldable pub run_operation : Server → Operation → Option UserTotp → Option UserTotp
run_operation sv (enroll w) u = enroll_totp w u
run_operation sv (confirm now code hs) none = none
run_operation sv (confirm now code hs) (some t) =
    some (confirm_secret sv now code hs (sv.unwrap t.wrapped_secret) t)
run_operation sv (disable now code) none = none
run_operation sv (disable now code) (some t) = disabled (verify_second_factor sv now code t)
run_operation sv (regenerate now code hs) none = none
run_operation sv (regenerate now code hs) (some t) =
    some (regenerated hs (verify_second_factor sv now code t))
run_operation sv (log_in now code) none = none
run_operation sv (log_in now code) (some t) = some (verify_second_factor sv now code t).1

unfoldable pub run_operations : Server → List Operation → Option UserTotp → Option UserTotp
run_operations sv [] u = u
run_operations sv (o ∷ os) u = run_operations sv os (run_operation sv o u)
