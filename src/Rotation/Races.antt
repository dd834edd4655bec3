-- ===== src/Rotation/Races.antt =====
-- Two attempts at once, which the single scheduler of a server and a `RotateNow` can make; and the
-- delays between the attempts.
use native.Mathlib.Nat.{pow-succ'}
use janus_secrets.Common.{
  ℕ, zero, suc, ◌*◌, ◌^◌, ◌≤◌, ◌≡◌, sym, ap, ◌∙◌, Bool, true, false, Bool-cases, inl, inr, none,
  List, [], ◌∷◌, arith, leb, if◌then◌else◌, Bytes,
}
use janus_secrets.Rotation.{
  World, Thread, returned, Call, sealed, Move, rotate_now, call, double_capped, backoff, act,
  run_move, run_both, backoff_base, backoff_cap,
}

abbrev pub min : ℕ → ℕ → ℕ
min a b = if leb a b then a else b

le-mul : (a p : ℕ) → 1 ≤ p → a ≤ a * p
le-mul a p h = grind arith

pow_pos : (n : ℕ) → 1 ≤ 2 ^ n
pow_pos zero = omega arith
pow_pos (suc n) = omega (arith, pow_pos n, pow-succ' 2 n)

mul_shift : (d p : ℕ) → d * 2 * p ≡ d * (2 * p)
mul_shift d p = grind arith

double_capped-min : (n d : ℕ) → d ≤ backoff_cap → double_capped n d ≡ min (d * 2 ^ n) backoff_cap
unfolding double_capped
double_capped-min zero d h = ground arith
double_capped-min (suc n) d h =
    let shift : d * 2 * 2 ^ n ≡ d * 2 ^ suc n =
      mul_shift d (2 ^ n) ∙ ap (λ (t : ℕ). d * t) (sym (pow-succ' 2 n)) in
    elim (Bool-cases (leb backoff_cap (d * 2))) [
      | inl reached ↦ rw reached (ground (arith, le-mul (d * 2) (2 ^ n) (pow_pos n)))
      | inr below ↦ rw (below, ← shift) (double_capped-min n (d * 2) (ground arith))
    ]

-- After n + 1 failures in a row the delay is the base times 2 ^ n, or the cap if that is less.
pub backoff-min : (n : ℕ) → backoff (suc n) ≡ min (backoff_base * 2 ^ n) backoff_cap
unfolding backoff
backoff-min n = double_capped-min n backoff_base (omega arith)

abbrev pub answers : Bytes → Call
answers v = record { works = true; in_effect = true; error = sealed; value = v; now = 0 }

abbrev first : Bytes → Bool × Move
first v = (true, call (answers v))

abbrev second : Bytes → Bool × Move
second v = (false, call (answers v))

abbrev pub idle : Thread
idle = record { stage = returned true; seen_failures = 0 }

-- Two calls of `RotateNow`: the first applies its value x before the second saves, applies and
-- commits its value y; then the first commits x.
abbrev pub overlap : Bytes → Bytes → List (Bool × Move)
overlap x y =
    (true, rotate_now 0)
    ∷ (false, rotate_now 0)
    ∷ first x
    ∷ second y
    ∷ first x
    ∷ first x
    ∷ second y
    ∷ second y
    ∷ second y
    ∷ second y
    ∷ first x
    ∷ first x
    ∷ []

-- Two overlapping rotations can lose the live credential though every call works: with nothing in
-- flight at first, the first attempt generates x and the second y. In the schedule `overlap` both
-- succeed, the rotated system accepts y, the secret's value is x, and nothing is in flight.
pub overlap-loses :
    (w : World) (x y : Bytes)
    → w.policy.generates ≡ false
    → w.policy.pending ≡ none
    → let after = run_both (overlap x y) w idle idle in
      (after.0.target ≡ y)
      × (after.0.stored ≡ x)
      × (after.0.policy.pending ≡ none)
      × (after.1.stage ≡ returned true)
      × (after.2.stage ≡ returned true)
unfolding run_both run_move act
overlap-loses w x y g p = ground arith
