-- ===== src/SecretSync/Reconcile/Skips.antt =====
-- A push that fails halfway.
use janus_secrets.Common.{◌≡◌, Bool, false, ◌&&◌, not, some, List, Bytes, Values, lookup, ok}
use janus_secrets.SecretSync.Provider.{apply_github}
use janus_secrets.SecretSync.Provider.Untouched.{member_name}
use janus_secrets.SecretSync.Fingerprint.{fingerprint_bytes}
use janus_secrets.SecretSync.Reconcile.{
  apply_failed, World, Attempt, reconcile, record_failure, attempt, run_syncs, same_fingerprint,
}
use janus_secrets.SecretSync.Reconcile.Strays.{
  NobodyWants, Holds, record_failure-Holds, run_syncs-Holds,
}

module _ (sync_fingerprint : Bytes → Bytes) where
  reconcile_stopped :
      (a : Attempt) (force : Bool) (desired : Values) (w : World)
      → a.is_sealed ≡ false
      → a.desired ≡ ok desired
      → not force
          && same_fingerprint
              (sync_fingerprint (fingerprint_bytes desired))
              w.target.synced_fingerprint
        ≡ false
      → (apply_github a.network desired w.target.managed_keys w.target.prune w.destination).going
        ≡ false
      → reconcile sync_fingerprint a force w ≡ (
        some apply_failed,
        record w {
          destination =
              (apply_github a.network desired w.target.managed_keys w.target.prune
                w.destination).destination;
        },
      )
  unfolding reconcile
  reconcile_stopped a force desired w unsealed d new g = simp (unsealed, d, new, g)

  -- A secret that was pushed by a sync that failed later is never cleaned up: if the network fails
  -- in an `Apply` after a name got a value that, up to case, is that of no key that the target
  -- manages yet, and no later sync wants a key of this name, the name keeps its value at the
  -- destination through all later syncs, also where the target prunes.
  pub failed_push-stays :
      (a : Attempt) (force : Bool) (desired : Values) (w : World) (later : List (Bool × Attempt))
      (k v : Bytes)
      → a.is_sealed ≡ false
      → a.desired ≡ ok desired
      → not force
          && same_fingerprint
              (sync_fingerprint (fingerprint_bytes desired))
              w.target.synced_fingerprint
        ≡ false
      → (apply_github a.network desired w.target.managed_keys w.target.prune w.destination).going
        ≡ false
      → lookup k
          (apply_github a.network desired w.target.managed_keys w.target.prune
            w.destination).destination
        ≡ some v
      → member_name k w.target.managed_keys ≡ false
      → NobodyWants k later
      → lookup k
          (run_syncs sync_fingerprint later (attempt sync_fingerprint a force w).1).destination
        ≡ some v
  unfolding attempt
  failed_push-stays a force desired w later k v unsealed d new g put unmanaged u =
      let stopped = reconcile_stopped a force desired w unsealed d new g in
      let after : Holds k (some v)
          (record_failure sync_fingerprint a (reconcile sync_fingerprint a force w)).1 =
        rw stopped (
          record_failure-Holds sync_fingerprint a
            (
              some apply_failed,
              record w {
                destination =
                    (apply_github a.network desired w.target.managed_keys w.target.prune
                      w.destination).destination;
              },
            )
            k (some v) (unmanaged, put)) in
      (run_syncs-Holds sync_fingerprint later (attempt sync_fingerprint a force w).1 k (some v) u
        after).1
