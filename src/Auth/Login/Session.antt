-- ===== src/Auth/Login/Session.antt =====
-- What a session and a locked account mean.
use janus_secrets.Common.{
  ◌≡◌, refl, ◌⊎◌, inl, Bool, true, false, ◌&&◌, ltb, arith, Bytes, Result, ok, err,
}
use janus_secrets.Auth.Lockout.{LockoutPolicy}
use janus_secrets.Auth.Login.{
  User, Attempt, session, remaining, is_verified, check_code, check_second_factor, login,
}

check_code-session :
    (p : LockoutPolicy) (a : Attempt) (r : Result Bytes Bool) (u : User)
    → (check_code p a r u).0 ≡ session
    → r ≡ ok true
check_code-session p a (err e) u h = cc
check_code-session p a (ok true) u h = refl
check_code-session p a (ok false) u h = cc

check_second_factor-session :
    (p : LockoutPolicy) (a : Attempt) (r : Result Bytes Bool) (u : User)
    → (check_second_factor p a r u).0 ≡ session
    → (r ≡ ok false) ⊎ ((r ≡ ok true) × (a.second_factor ≡ ok true))
check_second_factor-session p a (err e) u h = cc
check_second_factor-session p a (ok false) u h = inl refl
check_second_factor-session p a (ok true) u h =
    ground (arith, check_code-session p a a.second_factor u)

-- A login gives a session only if the account is not disabled, the password verifies, no lock is
-- running where lockout is enabled, and the second factor is inactive or its code verifies.
pub login-session :
    (p : LockoutPolicy) (a : Attempt) (u : User)
    → (login p a u).0 ≡ session
    → (u.disabled ≡ false)
      × (is_verified a.password ≡ true)
      × ((p.enabled && ltb 0 (remaining u.locked_until a.now)) ≡ false)
      × ((a.totp_enabled ≡ ok false) ⊎ ((a.totp_enabled ≡ ok true) × (a.second_factor ≡ ok true)))
unfolding login
login-session p a u h = ground (arith, check_second_factor-session p a a.totp_enabled u)
