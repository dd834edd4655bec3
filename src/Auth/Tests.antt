-- ===== src/Auth/Tests.antt =====
-- The default policy, an account under attack, and uses of the theorems.
use janus_secrets.Common.{
  ℕ, ◌+◌, ◌%◌, List, [], ◌∷◌, Bytes, bytes_eq, ◌-◌, ◌≡◌, refl, ◌⊎◌, true, false, ◌&&◌, none, some,
  ltb, arith, ok,
}
use janus_secrets.Auth.Lockout.{LockoutPolicy, escalate, window}
use janus_secrets.Auth.Lockout.Window.{geometric, minimum, window-minimum}
use janus_secrets.Auth.Login.{
  User, Attempt, session, remaining, is_verified, login, reset_login_failures,
}
use janus_secrets.Auth.Login.Session.{login-session}
use janus_secrets.Auth.SecondFactor.{
  UserTotp, Server, totp_step, verify_second_factor, verify_totp_step, scan_window, spend, recovery,
  attempts,
}
use janus_secrets.Auth.SecondFactor.Replays.{
  next_step, left, recoveries, Decreasing, attempts-single_use,
}
use janus_secrets.Auth.SecondFactor.Enrolment.{Operation, enroll, confirm, disable, log_in}

-- `DefaultLockoutPolicy`: 5 failures, a minute, at most an hour.
abbrev default_policy : LockoutPolicy
default_policy = record { enabled = true; threshold = 5; base = 60000000000; max = 3600000000000 }

abbrev two_strikes : LockoutPolicy
two_strikes = record default_policy { threshold = 2 }

abbrev fresh : User
fresh = record {
  disabled = false;
  has_password = true;
  failed_count = 0;
  level = 0;
  locked_until = none;
}

abbrev guess : Attempt
guess = record {
  now = 10;
  password = ok false;
  totp_enabled = ok false;
  blank_code = true;
  second_factor = ok false;
  writes_work = true;
}

abbrev good : Attempt
good = record guess { password = ok true }

abbrev locked : User
locked = record fresh { level = 1; locked_until = some 60000010 }

third_window : window default_policy 3 ≡ 1500000000000
unfolding window escalate
third_window = refl

fourth_window : window default_policy 4 ≡ 3600000000000
unfolding window escalate
fourth_window = refl

good_attempt_gets_a_session : login default_policy good fresh ≡ (session, fresh)
unfolding login remaining reset_login_failures
good_attempt_gets_a_session = refl

window-minimum_example :
    window default_policy 3 ≡ minimum (geometric (3 - 1) 60000000000) 3600000000000
window-minimum_example = window-minimum default_policy 3 (omega arith) (omega arith) (omega arith)

login-session_example :
    (fresh.disabled ≡ false)
    × (is_verified good.password ≡ true)
    × ((default_policy.enabled && ltb 0 (remaining fresh.locked_until good.now)) ≡ false)
    × ((good.totp_enabled ≡ ok false)
        ⊎ ((good.totp_enabled ≡ ok true) × (good.second_factor ≡ ok true)))
unfolding login remaining
login-session_example = login-session default_policy good fresh refl

-- Codes of six digits that all end the way their time-step does.
abbrev factor_server : Server
factor_server = record {
  unwrap = λ wrapped. some wrapped;
  hotp = λ secret step. 48 ∷ 48 ∷ 48 ∷ 48 ∷ 48 ∷ (48 + step % 10) ∷ [];
  recovery_hmac = λ code. some (1 ∷ code);
}

abbrev enrolled : UserTotp
enrolled = record {
  wrapped_secret = [];
  activated = true;
  last_step = some 2;
  codes = record { code_hmac = 1 ∷ 65 ∷ []; used = false } ∷ [];
}

abbrev code_of_step_4 : Bytes
code_of_step_4 = 48 ∷ 48 ∷ 48 ∷ 48 ∷ 48 ∷ 52 ∷ []

-- The code of a step twice, and a recovery code twice.
abbrev replays : List (ℕ × Bytes)
replays = (100, code_of_step_4) ∷ (125, code_of_step_4) ∷ (130, 65 ∷ []) ∷ (140, 65 ∷ []) ∷ []

attempts-single_use_example :
    let after = attempts factor_server replays [] enrolled in
    Decreasing (next_step after.1.last_step) after.0
    × (recoveries (1 ∷ 65 ∷ []) after.0 + left (1 ∷ 65 ∷ []) after.1.codes
        ≡ left (1 ∷ 65 ∷ []) enrolled.codes)
attempts-single_use_example = attempts-single_use factor_server replays enrolled (1 ∷ 65 ∷ [])

replays_are_refused :
    (attempts factor_server replays [] enrolled).0 ≡ recovery (1 ∷ 65 ∷ []) ∷ totp_step 4 ∷ []
unfolding attempts verify_second_factor verify_totp_step scan_window bytes_eq spend
replays_are_refused = refl

-- A second enrolment, a confirmation and a removal without a right code.
abbrev attacks : List Operation
attacks =
    enroll (some (7 ∷ []))
    ∷ confirm 100 code_of_step_4 []
    ∷ disable 100 (66 ∷ [])
    ∷ log_in 100 code_of_step_4
    ∷ disable 101 code_of_step_4
    ∷ []
