-- ===== src/Auth/Lockout/Window.antt =====
-- The window is the capped geometric sequence that the policy describes. A product that a
-- `time.Duration` takes for negative is at least 2^63 nanoseconds, and gives the cap.
use janus_secrets.Common.{
  ℕ, zero, suc, ◌-◌, ◌*◌, ◌%◌, ◌^◌, ◌≤◌, ◌<◌, ◌≡◌, inl, inr, Bool-cases, ◌||◌, leb, arith,
  if◌then◌else◌,
}
use janus_secrets.Auth.Lockout.{LockoutPolicy, is_not_positive, at_least, escalate, window}

-- `w` times 5, so often.
unfoldable pub geometric : ℕ → ℕ → ℕ
geometric zero w = w
geometric (suc n) w = geometric n (w * 5)

abbrev pub minimum : ℕ → ℕ → ℕ
minimum a b = if leb a b then a else b

geometric-grows : (n w : ℕ) → w ≤ geometric n w
unfolding geometric
geometric-grows zero w = omega arith
geometric-grows (suc n) w = omega (arith, geometric-grows n (w * 5))

mod_small : (w : ℕ) → w < 2 ^ 64 → w % 2 ^ 64 ≡ w
mod_small w h = omega arith

escalate-minimum :
    (n w max : ℕ)
    → 0 < w
    → w * 5 < 2 ^ 64
    → max * 5 < 2 ^ 64
    → escalate n w max ≡ minimum (geometric n w) max
unfolding escalate geometric
escalate-minimum zero w max p l m = ground arith
escalate-minimum (suc n) w max p l m =
    rw (mod_small (w * 5) l) (elim (Bool-cases (at_least (w * 5) max || is_not_positive (w * 5))) [
      | inl t ↦ rw t (ground (arith, geometric-grows n (w * 5)))
      | inr f ↦ rw f (escalate-minimum n (w * 5) max (omega arith) (ground arith) m)
    ])

-- For a base that is positive and a base and a cap below a fifth of 2^64 nanoseconds, which is more
-- than a hundred years, the window of a level is the base times 5 for each level above the first, or
-- the cap if that is less.
pub window-minimum :
    (p : LockoutPolicy) (level : ℕ)
    → 0 < p.base
    → p.base * 5 < 2 ^ 64
    → p.max * 5 < 2 ^ 64
    → window p level ≡ minimum (geometric (level - 1) p.base) p.max
unfolding window
window-minimum p level b l m = escalate-minimum (level - 1) p.base p.max b l m
