-- ===== src/Auth/Login/Locked.antt =====
-- How failures lock an account, and that a running lock is left alone.
use janus_secrets.Common.{
  ℕ, ◌+◌, ◌-◌, ◌/◌, ◌<◌, ◌≡◌, refl, ap, ◌∙◌, true, false, none, some, List, [], ◌∷◌, ◌++◌, length,
  arith, if◌then◌else◌,
}
use janus_secrets.Auth.Lockout.{LockoutPolicy, window}
use janus_secrets.Auth.Login.{
  User, Attempt, invalid_credentials, account_locked, record_failed_login, record_failure,
  remaining, is_verified, login, login_all,
}

-- While a lock is running, no attempt changes the account, and the answer says that the account is
-- locked exactly if the account is enabled and the password verifies; it is the answer for wrong
-- credentials otherwise.
pub login-locked :
    (p : LockoutPolicy) (a : Attempt) (u : User) (t : ℕ)
    → p.enabled ≡ true
    → u.has_password ≡ true
    → u.locked_until ≡ some t
    → a.now < t
    → login p a u ≡ (
      if u.disabled
          then invalid_credentials
          else (if is_verified a.password then account_locked (t - a.now) else invalid_credentials),
      u,
    )
unfolding login remaining
login-locked p a u t e w l lt = ground arith

-- An attempt with a wrong password whose failure is recorded.
abbrev pub IsWrong : Attempt → Type 0
IsWrong a = (is_verified a.password ≡ false) × (a.writes_work ≡ true)

abbrev pub AllWrong : List Attempt → Type 0
AllWrong [] = Unit
AllWrong (a ∷ attempts) = IsWrong a × AllWrong attempts

wrong_login :
    (p : LockoutPolicy) (a : Attempt) (u : User)
    → p.enabled ≡ true
    → u.disabled ≡ false
    → u.has_password ≡ true
    → u.locked_until ≡ none
    → IsWrong a
    → (login p a u).1 ≡ record_failed_login p.threshold (window p (u.level + 1)) a.now u
unfolding login remaining record_failure
wrong_login p a u e d w n i = rw (d, w, n, e, i.0, i.1) refl

-- The account after a failure that reaches the threshold, and after one that does not.
record_failed_login-lock :
    (threshold lock now : ℕ) (u : User)
    → u.failed_count + 1 ≡ threshold
    → record_failed_login threshold lock now u
      ≡ record u { failed_count = 0; level = u.level + 1; locked_until = some (now + lock / 1000) }
unfolding record_failed_login
record_failed_login-lock threshold lock now u h = ground arith

record_failed_login-count :
    (threshold lock now : ℕ) (u : User)
    → u.failed_count + 1 < threshold
    → record_failed_login threshold lock now u ≡ record u { failed_count = u.failed_count + 1 }
unfolding record_failed_login
record_failed_login-count threshold lock now u h = ground arith

-- On an account that is not locked, wrong passwords count up to the threshold, and the one that
-- reaches it locks the account from then on for the window of the next level, with a new count.
pub login_all-locks :
    (p : LockoutPolicy) (attempts : List Attempt) (last : Attempt) (u : User)
    → p.enabled ≡ true
    → u.disabled ≡ false
    → u.has_password ≡ true
    → u.locked_until ≡ none
    → AllWrong attempts
    → IsWrong last
    → length attempts + u.failed_count + 1 ≡ p.threshold
    → login_all p (attempts ++ last ∷ []) u ≡ record u {
      failed_count = 0;
      level = u.level + 1;
      locked_until = some (last.now + window p (u.level + 1) / 1000);
    }
unfolding login_all
login_all-locks p [] last u e d w n all i t =
    rw (wrong_login p last u e d w n i)
      (record_failed_login-lock p.threshold (window p (u.level + 1)) last.now u (omega arith))
login_all-locks p (a ∷ attempts) last u e d w n all i t =
    ap (login_all p (attempts ++ last ∷ [])) (
      wrong_login p a u e d w n all.0
      ∙ record_failed_login-count p.threshold (window p (u.level + 1)) a.now u (omega arith))
    ∙ login_all-locks p attempts last (record u { failed_count = u.failed_count + 1 }) e d w n all.1
        i (omega arith)
