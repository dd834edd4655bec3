-- ===== src/Auth/SecondFactor/Kept.antt =====
-- An active factor stays until a second factor is given to remove it.
use janus_secrets.Common.{◌≡◌, ◌⊎◌, true, Option, none, some, List, [], ◌∷◌, Bytes, Result, ok, err}
use janus_secrets.Auth.SecondFactor.{UserTotp, Error, Server, Acceptance, verify_second_factor}
use janus_secrets.Auth.SecondFactor.Enrolment.{
  Operation, enroll, confirm, disable, regenerate, log_in, run_operation,
}

-- The user has an active factor with a given secret.
abbrev pub HasFactor : Bytes → Option UserTotp → Type 0
HasFactor w none = ⊥
HasFactor w (some t) = (t.activated ≡ true) × (t.wrapped_secret ≡ w)

-- The check of a second factor accepted a TOTP code or a recovery code.
abbrev pub IsAccepted : Result Error (Option Acceptance) → Type 0
IsAccepted (ok (some a)) = Unit
IsAccepted (ok none) = ⊥
IsAccepted (err e) = ⊥

-- An operation is a removal whose second factor is accepted.
abbrev pub IsRemoval : Server → Operation → Option UserTotp → Type 0
IsRemoval sv (disable now code) none = ⊥
IsRemoval sv (disable now code) (some t) = IsAccepted (verify_second_factor sv now code t).0
IsRemoval sv (enroll w) u = ⊥
IsRemoval sv (confirm now code hs) u = ⊥
IsRemoval sv (regenerate now code hs) u = ⊥
IsRemoval sv (log_in now code) u = ⊥

-- One of the operations is such a removal, when its turn comes.
abbrev pub AnyRemoval : Server → List Operation → Option UserTotp → Type 0
AnyRemoval sv [] u = ⊥
AnyRemoval sv (o ∷ os) u = IsRemoval sv o u ⊎ AnyRemoval sv os (run_operation sv o u)
