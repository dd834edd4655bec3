-- ===== src/Auth/Lockout.antt =====
-- The lock's duration (internal/auth/lockout.go). A `time.Duration` is its 64-bit pattern.
pub mod Window
use janus_secrets.Common.{
  ℕ, zero, suc, ◌-◌, ◌*◌, ◌%◌, ◌^◌, Bool, ◌&&◌, ◌||◌, not, ltb, leb, ◌==◌, if◌then◌else◌,
}

pub record LockoutPolicy : Type 0 where
  pub enabled : Bool
  pub threshold : ℕ
  pub base : ℕ
  pub max : ℕ

-- `w <= 0` for a pattern of 64 bits.
abbrev pub is_not_positive : ℕ → Bool
is_not_positive w = w == 0 || leb (2 ^ 63) w

-- `w >= max` for a `max` that is not negative.
abbrev pub at_least : ℕ → ℕ → Bool
at_least w max = ltb w (2 ^ 63) && leb max w

-- The loop, which multiplies at most so many times.
unfoldable pub escalate : ℕ → ℕ → ℕ → ℕ
escalate zero w max = if at_least w max && not (w == max) then max else w
escalate (suc n) w max =
    let v : ℕ = (w * 5) % 2 ^ 64 in
    let rest = escalate n v max in if at_least v max || is_not_positive v then max else rest

-- `window`; a level below 1 is taken as 1, as the subtraction does.
unfoldable pub window : LockoutPolicy → ℕ → ℕ
window p level = escalate (level - 1) p.base p.max
