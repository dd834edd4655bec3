-- ===== src/Auth/SecondFactor/Replays.antt =====
-- No second factor is accepted twice.
use janus_secrets.Common.{
  ℕ, ◌+◌, ◌≤◌, ◌<◌, ◌≡◌, refl, inl, inr, Bool, true, false, ◌&&◌, Option, none, some, List, [], ◌∷◌,
  any, arith, if◌then◌else◌, Bytes, bytes_eq, bytes_eq-eq, Bool-cases, ok, err,
}
use janus_secrets.Auth.SecondFactor.{
  RecoveryCode, UserTotp, totp_state, Server, Acceptance, totp_step, recovery, verify_totp_step,
  is_later, consume_totp_step, unspent, spend, consume_recovery_code, consume_recovery, check_step,
  check_secret, verify_second_factor, add_acceptance, attempts,
}

-- The recovery codes with an HMAC that are left, and the acceptances of one.
abbrev pub one_left : Bytes → RecoveryCode → ℕ
one_left h c = if unspent h c then 1 else 0

abbrev pub left : Bytes → List RecoveryCode → ℕ
left h [] = 0
left h (c ∷ cs) = one_left h c + left h cs

abbrev pub one_recovery : Bytes → Acceptance → ℕ
one_recovery h (totp_step s) = 0
one_recovery h (recovery g) = if bytes_eq g h then 1 else 0

abbrev pub recoveries : Bytes → List Acceptance → ℕ
recoveries h [] = 0
recoveries h (a ∷ log) = one_recovery h a + recoveries h log

-- The accepted time-steps, the last one first, are below a bound and decrease.
abbrev pub Decreasing : ℕ → List Acceptance → Type 0
Decreasing bound [] = Unit
Decreasing bound (recovery h ∷ log) = Decreasing bound log
Decreasing bound (totp_step s ∷ log) = (s < bound) × Decreasing s log

-- The first time-step that is not used up.
abbrev pub next_step : Option ℕ → ℕ
next_step none = 0
next_step (some s) = s + 1

Decreasing-mono : (a b : ℕ) (log : List Acceptance) → a ≤ b → Decreasing a log → Decreasing b log
Decreasing-mono a b [] le d = tt
Decreasing-mono a b (recovery h ∷ log) le d = Decreasing-mono a b log le d
Decreasing-mono a b (totp_step s ∷ log) le d = (omega (arith, le, d.0), d.1)

later-next_step : (l : Option ℕ) (s : ℕ) → is_later l s ≡ true → next_step l ≤ s
later-next_step none s h = omega arith
later-next_step (some x) s h = ground (arith, h)

unspent-hmac : (g : Bytes) (c : RecoveryCode) → unspent g c ≡ true → bytes_eq c.code_hmac g ≡ true
unspent-hmac g c u = ground (arith, u)

unspent-unused : (g : Bytes) (c : RecoveryCode) → unspent g c ≡ true → c.used ≡ false
unspent-unused g c u = ground (arith, u)

same_hmac :
    (g h : Bytes) (c : RecoveryCode) → unspent g c ≡ true → bytes_eq c.code_hmac h ≡ bytes_eq g h
same_hmac g h c u = rw (bytes_eq-eq c.code_hmac g (unspent-hmac g c u)) refl

one_left-spent :
    (g h : Bytes) (c : RecoveryCode)
    → unspent g c ≡ true
    → one_left h (record c { used = true }) + one_recovery h (recovery g) ≡ one_left h c
one_left-spent g h c u = ground (arith, same_hmac g h c u, unspent-unused g c u)

spend-left :
    (g h : Bytes) (cs : List RecoveryCode)
    → any (unspent g) cs ≡ true
    → left h (spend g cs) + one_recovery h (recovery g) ≡ left h cs
unfolding spend
spend-left g h [] a = cc
spend-left g h (c ∷ cs) a = elim (Bool-cases (unspent g c)) [
  | inl u ↦ rw u (omega (arith, one_left-spent g h c u))
  | inr u ↦ rw u (omega (arith, spend-left g h cs (rw u at a)))
]

-- What every attempt keeps: the steps decrease, and the codes of an HMAC that are left.
record Keeps (h : Bytes) (total : ℕ) (log : List Acceptance) (t : UserTotp) : Type 0 where
  pub steps : Decreasing (next_step t.last_step) log
  pub recovered : recoveries h log + left h t.codes ≡ total

consume_totp_step-Keeps :
    (h : Bytes) (total s : ℕ) (log : List Acceptance) (t : UserTotp)
    → Keeps h total log t
    → Keeps h total (add_acceptance (ok (consume_totp_step s t).0) log) (consume_totp_step s t).1
consume_totp_step-Keeps h total s log t k =
    elim (Bool-cases (t.activated && is_later t.last_step s)) [
      | inl u ↦ rw u (record {
        steps = (
          omega arith,
          Decreasing-mono (next_step t.last_step) s log
              (later-next_step t.last_step s (ground (arith, u))) k.steps,
        );
        recovered = omega (arith, k.recovered);
      })
      | inr u ↦ rw u k
    ]

consume_recovery_code-Keeps :
    (h g : Bytes) (total : ℕ) (log : List Acceptance) (t : UserTotp)
    → Keeps h total log t
    → Keeps h total
        (add_acceptance (ok (consume_recovery_code g t).0) log)
        (consume_recovery_code g t).1
consume_recovery_code-Keeps h g total log t k = elim (Bool-cases (any (unspent g) t.codes)) [
  | inl u ↦
      rw u (record {
        steps = k.steps;
        recovered = omega (arith, spend-left g h t.codes u, k.recovered);
      })
  | inr u ↦ rw u k
]

consume_recovery-Keeps :
    (h : Bytes) (g : Option Bytes) (total : ℕ) (log : List Acceptance) (t : UserTotp)
    → Keeps h total log t
    → Keeps h total (add_acceptance (consume_recovery g t).0 log) (consume_recovery g t).1
consume_recovery-Keeps h none total log t k = k
consume_recovery-Keeps h (some g) total log t k = consume_recovery_code-Keeps h g total log t k

check_step-Keeps :
    (h : Bytes) (s : Option ℕ) (g : Option Bytes) (total : ℕ) (log : List Acceptance) (t : UserTotp)
    → Keeps h total log t
    → Keeps h total (add_acceptance (check_step s g t).0 log) (check_step s g t).1
check_step-Keeps h (some s) g total log t k = consume_totp_step-Keeps h total s log t k
check_step-Keeps h none g total log t k = consume_recovery-Keeps h g total log t k

check_secret-Keeps :
    (h : Bytes) (sv : Server) (now : ℕ) (code : Bytes) (secret : Option Bytes) (total : ℕ)
    (log : List Acceptance) (t : UserTotp)
    → Keeps h total log t
    → Keeps h total
        (add_acceptance (check_secret sv now code secret t).0 log)
        (check_secret sv now code secret t).1
check_secret-Keeps h sv now code none total log t k = k
check_secret-Keeps h sv now code (some secret) total log t k =
    check_step-Keeps h (verify_totp_step sv secret code now) (sv.recovery_hmac code) total log t k

active-Keeps :
    (h : Bytes) (sv : Server) (now : ℕ) (code : Bytes) (total : ℕ) (log : List Acceptance)
    (t : UserTotp) (active : Bool)
    → Keeps h total log t
    → let after =
        if active
        then check_secret sv now code (sv.unwrap t.wrapped_secret) t
        else (err totp_state, t) in
      Keeps h total (add_acceptance after.0 log) after.1
active-Keeps h sv now code total log t true k =
    check_secret-Keeps h sv now code (sv.unwrap t.wrapped_secret) total log t k
active-Keeps h sv now code total log t false k = k

verify_second_factor-Keeps :
    (h : Bytes) (sv : Server) (now : ℕ) (code : Bytes) (total : ℕ) (log : List Acceptance)
    (t : UserTotp)
    → Keeps h total log t
    → Keeps h total
        (add_acceptance (verify_second_factor sv now code t).0 log)
        (verify_second_factor sv now code t).1
unfolding verify_second_factor
verify_second_factor-Keeps h sv now code total log t k =
    active-Keeps h sv now code total log t t.activated k

attempts-Keeps :
    (h : Bytes) (sv : Server) (more : List (ℕ × Bytes)) (total : ℕ) (log : List Acceptance)
    (t : UserTotp)
    → Keeps h total log t
    → Keeps h total (attempts sv more log t).0 (attempts sv more log t).1
unfolding attempts
attempts-Keeps h sv [] total log t k = k
attempts-Keeps h sv (a ∷ more) total log t k =
    let after = verify_second_factor sv a.0 a.1 t in
    attempts-Keeps h sv more total (add_acceptance after.0 log) after.1
      (verify_second_factor-Keeps h sv a.0 a.1 total log t k)

-- A second factor is good for one use: whatever codes are tried at whatever times, the time-steps
-- for which TOTP codes are accepted increase strictly, and every accepted recovery code uses up one
-- of the stored codes with its HMAC.
pub attempts-single_use :
    (sv : Server) (tries : List (ℕ × Bytes)) (t : UserTotp) (h : Bytes)
    → let after = attempts sv tries [] t in
      Decreasing (next_step after.1.last_step) after.0
      × (recoveries h after.0 + left h after.1.codes ≡ left h t.codes)
attempts-single_use sv tries t h =
    let k =
      attempts-Keeps h sv tries (left h t.codes) [] t
        (record { steps = tt; recovered = omega arith }) in
    (k.steps, k.recovered)
