-- ===== src/Rotation.antt =====
-- The rotation of one secret (internal/rotation/execute.go, with RotateNow of
-- internal/rotation/rotation.go and the row updates of internal/store/rotation.go). A thread makes
-- one call at a time to the store, the secrets service or the rotated system. Such a call works, or
-- answers with an error, and then it may have taken effect all the same; a crash ends a thread
-- between two calls. Values are in the clear: their encryption is not modelled.
pub mod Crashes
pub mod Races
mod Tests
use janus_secrets.Common.{
  ℕ, zero, suc, ◌+◌, ◌*◌, Bool, true, false, ◌&&◌, ◌||◌, Option, none, some, List, [], ◌∷◌, ltb,
  leb, if◌then◌else◌, Bytes, String,
}

pub data Status : Type 0 where
  active paused failed : Status

pub data Error : Type 0 where
  sealed apply_failed invalid_config other : Error

-- The columns of `RotationPolicy` that a rotation reads or writes; whether the type is a generating
-- one (`rotatorGenerator`) follows from its type.
pub record Policy : Type 0 where
  pub generates : Bool
  pub interval_seconds : ℕ
  pub status : Status
  pub failure_count : ℕ
  pub next_rotation_at : ℕ
  pub last_error : Option String
  pub last_config_version : Option ℕ
  pub pending : Option Bytes

-- The policy's row, the secret's value and the config's version, and the credential that the rotated
-- system accepts.
pub record World : Type 0 where
  pub policy : Policy
  pub stored : Bytes
  pub version : ℕ
  pub target : Bytes

-- Where an attempt is: in front of the call that the name says.
pub data Stage : Type 0 where
  opening : Option Bytes → Stage
  minting : Stage
  saving applying committing : Bytes → Stage
  marking : ℕ → Stage
  failing : Error → Stage
  returned : Bool → Stage

-- The policy's failure count is the one that the attempt has read at its start.
pub record Thread : Type 0 where
  pub stage : Stage
  pub seen_failures : ℕ

-- What a call answers: `value` is a password that was generated, or a credential that was minted.
pub record Call : Type 0 where
  pub works : Bool
  pub in_effect : Bool
  pub error : Error
  pub value : Bytes
  pub now : ℕ

abbrev pub failure_threshold : ℕ
failure_threshold = 5

abbrev pub backoff_base : ℕ
backoff_base = 60

abbrev pub backoff_cap : ℕ
backoff_cap = 3600

-- The loop of `backoff`, by the rounds that are left; durations are in seconds.
unfoldable pub double_capped : ℕ → ℕ → ℕ
double_capped zero d = if ltb backoff_cap d then backoff_cap else d
double_capped (suc n) d =
    let rest = double_capped n (d * 2) in if leb backoff_cap (d * 2) then backoff_cap else rest

unfoldable pub backoff : ℕ → ℕ
backoff zero = double_capped 0 backoff_base
backoff (suc n) = double_capped n backoff_base

-- `sanitize`
abbrev pub sanitize : Error → String
sanitize sealed = "sealed"
sanitize apply_failed = "apply failed"
sanitize invalid_config = "invalid config"
sanitize other = "rotation error"

-- `SetPending`
abbrev pub set_pending : Bytes → World → World
set_pending v w = record w { policy = record w.policy { pending = some v } }

-- `MarkRotated`
abbrev pub mark_rotated : ℕ → ℕ → World → World
mark_rotated config_version now w = record w {
  policy = record w.policy {
    pending = none;
    failure_count = 0;
    status = active;
    last_error = none;
    last_config_version = some config_version;
    next_rotation_at = now + w.policy.interval_seconds;
  };
}

-- `MarkFailure`
abbrev pub mark_failure : String → ℕ → World → World
mark_failure sanitized next w = record w {
  policy = record w.policy {
    failure_count = w.policy.failure_count + 1;
    last_error = some sanitized;
    next_rotation_at = next;
    status =
        (if leb failure_threshold (w.policy.failure_count + 1) then failed else w.policy.status);
  };
}

-- `SetSecrets` of the one key.
abbrev pub set_secret : Bytes → World → World
set_secret v w = record w { stored = v; version = w.version + 1 }

abbrev pub set_target : Bytes → World → World
set_target v w = record w { target = v }

-- A call with an effect on the world: the stage that follows if it works, and `failing` otherwise.
abbrev pub perform : Call → World → Thread → (World → World) → Stage → World × Thread
perform c w t f next = (
  (if c.works || c.in_effect then f w else w),
  record t { stage = if c.works then next else failing c.error },
)

-- What follows on the config being opened: the external system mints the value, or a value that is
-- in flight is used again, or a new one is generated.
abbrev pub choose : Bool → Option Bytes → Bytes → Stage
choose true pending fresh = minting
choose false (some v) fresh = applying v
choose false none fresh = saving fresh

-- The next call of `attempt`, with the `rotate` that it makes.
unfoldable pub act : Stage → Call → World → Thread → World × Thread
act (opening pending) c w t = perform c w t (λ w. w) (choose w.policy.generates pending c.value)
act minting c w t = perform c w t (set_target c.value) (committing c.value)
act (saving v) c w t = perform c w t (set_pending v) (applying v)
act (applying v) c w t = perform c w t (set_target v) (committing v)
act (committing v) c w t = perform c w t (set_secret v) (marking (w.version + 1))
act (marking version) c w t = perform c w t (mark_rotated version c.now) (returned true)
act (failing sealed) c w t = (w, record t { stage = returned false })
act (failing e) c w t = (
  (if c.works || c.in_effect
      then mark_failure (sanitize e) (c.now + backoff (t.seen_failures + 1)) w
      else w),
  record t { stage = returned false },
)
act (returned o) c w t = (w, record t { stage = returned o })

-- An attempt starts with the policy as it reads it.
abbrev pub begin : Policy → Thread
begin p = record { stage = opening p.pending; seen_failures = p.failure_count }

abbrev is_active : Status → Bool
is_active active = true
is_active paused = false
is_active failed = false

-- The condition of `ClaimDue`.
abbrev pub due : Policy → ℕ → Bool
due p now = is_active p.status && leb p.next_rotation_at now

-- `PrepareRotateNow`
abbrev pub revive : Policy → Status → Policy
revive p failed = record p { status = active; failure_count = 0; last_error = none }
revive p active = p
revive p paused = p

abbrev pub prepare_rotate_now : ℕ → World → World
prepare_rotate_now now w = record w {
  policy = record (revive w.policy w.policy.status) { next_rotation_at = now };
}

-- What may happen: the scheduler looks at the policy, someone calls `RotateNow` on an unsealed
-- server, the attempt makes its next call, or the process crashes.
pub data Move : Type 0 where
  tick rotate_now : ℕ → Move
  call : Call → Move
  crash : Move

abbrev is_returned : Stage → Bool
is_returned (returned o) = true
is_returned (opening p) = false
is_returned minting = false
is_returned (saving v) = false
is_returned (applying v) = false
is_returned (committing v) = false
is_returned (marking n) = false
is_returned (failing e) = false

abbrev when_returned : Thread → World × Thread → World × Thread → World × Thread
when_returned t started busy = if is_returned t.stage then started else busy

unfoldable pub run_move : Move → World → Thread → World × Thread
run_move (tick now) w t =
    when_returned t (if due w.policy now then (w, begin w.policy) else (w, t)) (w, t)
run_move (rotate_now now) w t =
    let w' = prepare_rotate_now now w in when_returned t (w', begin w'.policy) (w, t)
run_move (call c) w t = act t.stage c w t
run_move crash w t = (w, record t { stage = returned false })

-- One attempt at a time.
unfoldable pub run : List Move → World → Thread → World × Thread
run [] w t = (w, t)
run (m ∷ ms) w t = let after = run_move m w t in run ms after.0 after.1

-- Two attempts at once: each move is of the first or of the second.
unfoldable pub run_both : List (Bool × Move) → World → Thread → Thread → World × Thread × Thread
run_both [] w a b = (w, a, b)
run_both ((true, m) ∷ ms) w a b = let after = run_move m w a in run_both ms after.0 after.1 b
run_both ((false, m) ∷ ms) w a b = let after = run_move m w b in run_both ms after.0 a after.1
