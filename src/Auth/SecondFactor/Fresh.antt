-- ===== src/Auth/SecondFactor/Fresh.antt =====
-- A TOTP code of the window that is not used up is accepted.
use janus_secrets.Common.{
  ℕ, zero, suc, ◌+◌, ◌-◌, ◌/◌, ◌≤◌, ◌<◌, ◌≡◌, refl, inl, inr, Bool, true, ◌&&◌, Option, none, some,
  leb, length, arith, if◌then◌else◌, Bytes, bytes_eq, ok, Bool-cases, ◌==◌,
}
use janus_secrets.Auth.SecondFactor.{
  UserTotp, Server, totp_step, code_at, skew, scan_window, verify_totp_step, is_later, check_step,
  verify_second_factor,
}
use janus_secrets.Auth.SecondFactor.Replays.{next_step}

abbrev AtLeast : ℕ → Option ℕ → Type 0
AtLeast c none = ⊥
AtLeast c (some d) = c ≤ d

scan_window-AtLeast_found :
    (matches : ℕ → Bool) (n base c : ℕ) (found : Option ℕ)
    → c + 1 ≤ base
    → AtLeast c found
    → AtLeast c (scan_window matches n base found)
unfolding scan_window
scan_window-AtLeast_found matches zero base c found le h = h
scan_window-AtLeast_found matches (suc n) base c found le h =
    scan_window-AtLeast_found matches n (base + 1) c
      (if leb skew base && matches (base - skew) then some (base - skew) else found)
      (omega (arith, le))
      (elim (Bool-cases (leb skew base && matches (base - skew))) [
        | inl u ↦ rw u (omega (arith, le))
        | inr u ↦ rw u h
      ])

minus_skew : (c : ℕ) → (c + 1) - skew ≡ c
minus_skew c = omega arith

leb-skew : (c : ℕ) → leb skew (c + 1) ≡ true
leb-skew c = ground arith

match-AtLeast :
    (matches : ℕ → Bool) (base c : ℕ) (found : Option ℕ)
    → matches c ≡ true
    → base ≡ c + 1
    → AtLeast c (if leb skew base && matches (base - skew) then some (base - skew) else found)
match-AtLeast matches base c found m e = rw (e, minus_skew c, leb-skew c, m) (omega arith)

same_base : (base c : ℕ) → base == c + 1 ≡ true → base ≡ c + 1
same_base base c u = ground (arith, u)

scan_window-AtLeast :
    (matches : ℕ → Bool) (n base c : ℕ) (found : Option ℕ)
    → matches c ≡ true
    → base ≤ c + 1
    → c + 1 < base + n
    → AtLeast c (scan_window matches n base found)
unfolding scan_window
scan_window-AtLeast matches zero base c found m le lt = absurd (omega (arith, le, lt))
scan_window-AtLeast matches (suc n) base c found m le lt = elim (Bool-cases (base == c + 1)) [
  | inl u ↦
      scan_window-AtLeast_found matches n (base + 1) c
        (if leb skew base && matches (base - skew) then some (base - skew) else found)
        (omega (arith, same_base base c u))
        (match-AtLeast matches base c found m (same_base base c u))
  | inr u ↦
      scan_window-AtLeast matches n (base + 1) c
        (if leb skew base && matches (base - skew) then some (base - skew) else found) m
        (ground (arith, le, u)) (omega (arith, lt))
]

is_later-next_step : (l : Option ℕ) (s : ℕ) → next_step l ≤ s → is_later l s ≡ true
is_later-next_step none s h = refl
is_later-next_step (some x) s h = ground (arith, h)

check_step-accepts :
    (found : Option ℕ) (h : Option Bytes) (t : UserTotp) (s : ℕ)
    → AtLeast s found
    → t.activated ≡ true
    → next_step t.last_step ≤ s
    → (used : ℕ) × ((check_step found h t).0 ≡ ok (some (totp_step used))) × (s ≤ used)
check_step-accepts none h t s a on new = absurd a
check_step-accepts (some used) h t s a on new =
    (used, rw (on, is_later-next_step t.last_step used (omega (arith, new, a))) refl, a)

verify_totp_step-AtLeast :
    (sv : Server) (secret code : Bytes) (now s : ℕ)
    → length code ≡ 6
    → bytes_eq (sv.hotp secret s) code ≡ true
    → now / 30 ≤ s + 1
    → s ≤ now / 30 + 1
    → AtLeast s (verify_totp_step sv secret code now)
unfolding verify_totp_step
verify_totp_step-AtLeast sv secret code now s six right old young = rw six (
    scan_window-AtLeast (code_at sv secret code) 3 (now / 30) s none right old
      (omega (arith, young)))

verify_active :
    (sv : Server) (now : ℕ) (code secret : Bytes) (t : UserTotp)
    → t.activated ≡ true
    → sv.unwrap t.wrapped_secret ≡ some secret
    → verify_second_factor sv now code t
      ≡ check_step (verify_totp_step sv secret code now) (sv.recovery_hmac code) t
unfolding verify_second_factor
verify_active sv now code secret t on opens = simp (on, opens)

-- A user with a right and fresh code gets in: for an active factor whose secret can be unwrapped,
-- the code of a time-step from one before to one after the present, which is later than the last
-- one used, is accepted, for that time-step or a later one.
pub verify-accepts :
    (sv : Server) (now : ℕ) (code secret : Bytes) (t : UserTotp) (s : ℕ)
    → t.activated ≡ true
    → sv.unwrap t.wrapped_secret ≡ some secret
    → length code ≡ 6
    → bytes_eq (sv.hotp secret s) code ≡ true
    → now / 30 ≤ s + 1
    → s ≤ now / 30 + 1
    → next_step t.last_step ≤ s
    → (used : ℕ) × ((verify_second_factor sv now code t).0 ≡ ok (some (totp_step used)))
      × (s ≤ used)
verify-accepts sv now code secret t s on opens six right old young new =
    rw (verify_active sv now code secret t on opens) (
      check_step-accepts (verify_totp_step sv secret code now) (sv.recovery_hmac code) t s
        (verify_totp_step-AtLeast sv secret code now s six right old young) on new)
