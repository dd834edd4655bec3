-- ===== src/SecretSync/Reconcile.antt =====
-- One sync target: `reconcile` and `attempt` of internal/secretsync/reconcile.go, SyncNow of
-- internal/secretsync/crud.go, and the row updates of internal/store/sync.go. Attempts on a target
-- run one after the other. What the config resolves to is part of an attempt, and so is whether the
-- calls to the store work. Times are in seconds.
pub mod Strays
pub mod Heals
pub mod Skips
pub mod Again
use janus_secrets.Common.{
  ℕ, ◌+◌, Bool, true, false, ◌&&◌, not, Option, none, some, List, [], ◌∷◌, leb, if◌then◌else◌,
  Bytes, bytes_eq, Values, Result, ok, err,
}
use janus_secrets.Rotation.{backoff}
use janus_secrets.SecretSync.Provider.{Network, Progress, apply_github}
use janus_secrets.SecretSync.Fingerprint.{fingerprint_bytes}

pub data Status : Type 0 where
  active failed paused : Status

pub data Error : Type 0 where
  sealed apply_failed forbidden_reference sync_error : Error

-- The columns of `SyncTarget` that a sync reads or writes.
pub record Target : Type 0 where
  pub interval_seconds : ℕ
  pub prune : Bool
  pub status : Status
  pub failure_count : ℕ
  pub next_sync_at : ℕ
  pub last_error : Option Error
  pub managed_keys : List Bytes
  pub synced_fingerprint : Option Bytes
  pub synced_config_version : Option ℕ

-- The row, and what the place that it is addressed to holds.
pub record World : Type 0 where
  pub target : Target
  pub destination : Values

-- What an attempt meets: the keyring, what the config resolves to, the network, the latest version
-- of the config, whether the row can be written, and the clock.
pub record Attempt : Type 0 where
  pub is_sealed : Bool
  pub desired : Result Error Values
  pub network : Network
  pub latest_version : Option ℕ
  pub writes_work : Bool
  pub now : ℕ

abbrev pub failure_threshold : ℕ
failure_threshold = 5

-- `MarkSynced`
abbrev pub mark_synced : List Bytes → Bytes → ℕ → ℕ → Target → Target
mark_synced applied fingerprint version next t = record t {
  status = active;
  failure_count = 0;
  next_sync_at = next;
  last_error = none;
  managed_keys = applied;
  synced_fingerprint = some fingerprint;
  synced_config_version = some version;
}

-- `MarkFailure`
abbrev pub mark_failure : Error → ℕ → Target → Target
mark_failure e next t = record t {
  failure_count = t.failure_count + 1;
  last_error = some e;
  next_sync_at = next;
  status = if leb failure_threshold (t.failure_count + 1) then failed else t.status;
}

abbrev pub same_fingerprint : Bytes → Option Bytes → Bool
same_fingerprint fingerprint none = false
same_fingerprint fingerprint (some synced) = bytes_eq fingerprint synced

-- What follows a successful `Apply`.
abbrev pub record_sync : Attempt → Bytes → Progress → Option ℕ → World → Option Error × World
record_sync a fingerprint p none w = (some sync_error, record w { destination = p.destination })
record_sync a fingerprint p (some version) w =
    if a.writes_work
    then (
      none,
      record {
        target =
            mark_synced p.applied fingerprint version (a.now + w.target.interval_seconds) w.target;
        destination = p.destination;
      },
    )
    else (some sync_error, record w { destination = p.destination })

abbrev pub push : Attempt → Bytes → Progress → World → Option Error × World
push a fingerprint p w =
    if p.going
    then record_sync a fingerprint p a.latest_version w
    else (some apply_failed, record w { destination = p.destination })

-- `SyncFingerprint` is keyed by the master key: a parameter.
module _ (sync_fingerprint : Bytes → Bytes) where
  abbrev pub reconcile_desired : Attempt → Bool → Result Error Values → World → Option Error × World
  reconcile_desired a force (err e) w = (some e, w)
  reconcile_desired a force (ok desired) w =
      let fingerprint = sync_fingerprint (fingerprint_bytes desired) in
      if not force && same_fingerprint fingerprint w.target.synced_fingerprint
      then (none, w)
      else push a fingerprint
          (apply_github a.network desired w.target.managed_keys w.target.prune w.destination) w

  -- `reconcile`: its error, and what it has changed.
  unfoldable pub reconcile : Attempt → Bool → World → Option Error × World
  reconcile a force w =
      if a.is_sealed then (some sealed, w) else reconcile_desired a force a.desired w

  abbrev pub record_failure : Attempt → Option Error × World → Option Error × World
  record_failure a (none, w) = (none, w)
  record_failure a (some sealed, w) = (some sealed, w)
  record_failure a (some e, w) = (
    some e,
    if a.writes_work
        then record w {
          target = mark_failure e (a.now + backoff (w.target.failure_count + 1)) w.target;
        }
        else w,
  )

  -- `attempt`
  unfoldable pub attempt : Attempt → Bool → World → Option Error × World
  attempt a force w = record_failure a (reconcile a force w)

-- `PrepareSyncNow`
abbrev pub prepare_sync_now : ℕ → Target → Target
prepare_sync_now now t = elim t.status [
  | failed ↦ record t { next_sync_at = now; status = active; failure_count = 0; last_error = none }
  | active ↦ record t { next_sync_at = now }
  | paused ↦ record t { next_sync_at = now }
]

-- `SyncNow`
abbrev pub sync_now : (Bytes → Bytes) → Attempt → World → Option Error × World
sync_now sync_fingerprint a w =
    if a.is_sealed
    then (some sealed, w)
    else if a.writes_work
    then attempt sync_fingerprint a true (record w { target = prepare_sync_now a.now w.target })
    else (some sync_error, w)

-- The condition of `ClaimDue`.
abbrev pub due : ℕ → Target → Bool
due now t = elim t.status [ active ↦ leb t.next_sync_at now | failed ↦ false | paused ↦ false ]

-- `RunDue` for one target.
abbrev pub run_due : (Bytes → Bytes) → Attempt → World → Option Error × World
run_due sync_fingerprint a w =
    if not a.is_sealed && due a.now w.target then attempt sync_fingerprint a false w else (none, w)

-- Syncs, by the scheduler or by hand, one after the other.
unfoldable pub run_syncs : (Bytes → Bytes) → List (Bool × Attempt) → World → World
run_syncs sync_fingerprint [] w = w
run_syncs sync_fingerprint ((by_hand, a) ∷ more) w =
    run_syncs sync_fingerprint more
      (if by_hand then (sync_now sync_fingerprint a w).1 else (run_due sync_fingerprint a w).1)
