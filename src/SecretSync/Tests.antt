-- ===== src/SecretSync/Tests.antt =====
-- Syncs of a small config to GitHub, for the theorems of the other modules.
use janus_secrets.Common.{
  List, map, put, delete, ◌≡◌, refl, true, false, ◌&&◌, none, some, [], ◌∷◌, Bytes, bytes_eq, codes,
  Values, lookup, ok, arith, if◌then◌else◌,
}
use janus_secrets.SecretSync.Provider.{
  answered, refused, member, valid_name, has_prefix_fold, apply_github, put_all, put_key,
  delete_all, prune_key,
}
use janus_secrets.SecretSync.Provider.Untouched.{wanted}
use janus_secrets.SecretSync.Provider.Mirrors.{should_hold, apply_github-mirrors}
use janus_secrets.SecretSync.Fingerprint.{
  fingerprint_bytes, write_entries, sync_field, sort_entries, insert_entry, bytes_le,
}
use janus_secrets.SecretSync.Fingerprint.Exact.{fingerprint_bytes-exact}
use janus_secrets.SecretSync.Reconcile.{
  failed, sync_error, Target, World, Attempt, attempt, run_syncs, sync_now,
}
use janus_secrets.SecretSync.Reconcile.Strays.{Holds, run_syncs-Holds}
use janus_secrets.SecretSync.Reconcile.Skips.{failed_push-stays}
use janus_secrets.SecretSync.Reconcile.Again.{AllDue, tick, sync_now-due_again}
use janus_secrets.SecretSync.Reconcile.Heals.{working}

-- A stand-in for the keyed hash.
abbrev plain : Bytes → Bytes
plain b = b

abbrev desired : Values
desired = (codes "A", codes "1") ∷ (codes "B", codes "2") ∷ []

-- `C` is managed, `X` is somebody else's.
abbrev mirror : Values
mirror = (codes "C", codes "9") ∷ (codes "X", codes "7") ∷ []

abbrev target : Target
target = record {
  interval_seconds = 3600;
  prune = true;
  status = failed;
  failure_count = 5;
  next_sync_at = 100;
  last_error = some sync_error;
  managed_keys = codes "C" ∷ [];
  synced_fingerprint = none;
  synced_config_version = none;
}

abbrev world : World
world = record { target = target; destination = mirror }

abbrev good : Attempt
good = record {
  is_sealed = false;
  desired = ok desired;
  network = working;
  latest_version = some 4;
  writes_work = true;
  now = 1000;
}

-- The put of `B` is refused after that of `A`.
abbrev halfway : Attempt
halfway = record good {
  network = record working {
    put_secret = λ k. if bytes_eq k (codes "B") then refused else answered;
  };
}

-- `A` is no longer in the config.
abbrev without_a : Attempt
without_a = record good { desired = ok ((codes "B", codes "2") ∷ []); now = 2000 }

apply_github-mirrors_example :
    let after = apply_github working desired (codes "C" ∷ []) true mirror in
    (lookup (codes "C") after.destination
      ≡ should_hold desired (codes "C" ∷ []) true mirror (codes "C"))
    × (member (codes "C") after.applied ≡ (wanted (codes "C") desired && valid_name (codes "C")))
unfolding apply_github put_all put_key delete_all prune_key valid_name has_prefix_fold bytes_eq
apply_github-mirrors_example =
    apply_github-mirrors working desired (codes "C" ∷ []) true mirror (codes "C") (refl, (refl, tt))
      refl

pruned :
    (apply_github working desired (codes "C" ∷ []) true mirror).destination
    ≡ (codes "B", codes "2") ∷ (codes "A", codes "1") ∷ (codes "X", codes "7") ∷ []
unfolding apply_github put_all put_key delete_all prune_key valid_name has_prefix_fold bytes_eq
    delete put
pruned = refl

-- After a key was renamed from `a` to `A`, the prune of `a` deletes the secret that was just put.
renamed_lost :
    apply_github working
      ((codes "A", codes "1") ∷ [])
      (codes "a" ∷ [])
      true
      ((codes "A", codes "1") ∷ [])
    ≡ record { going = true; applied = codes "A" ∷ []; destination = [] }
unfolding apply_github put_all put_key delete_all prune_key valid_name has_prefix_fold bytes_eq
    delete put
renamed_lost = refl

fingerprint_bytes-exact_example :
    lookup (codes "A") desired
    ≡ lookup (codes "A") ((codes "B", codes "2") ∷ (codes "A", codes "1") ∷ [])
unfolding bytes_eq fingerprint_bytes write_entries sync_field sort_entries insert_entry bytes_le
fingerprint_bytes-exact_example =
    fingerprint_bytes-exact desired ((codes "B", codes "2") ∷ (codes "A", codes "1") ∷ [])
      (codes "A") (refl, (refl, tt)) (refl, (refl, tt))
      (omega arith, omega arith, (omega arith, omega arith, tt))
      (omega arith, omega arith, (omega arith, omega arith, tt)) refl

run_syncs-Holds_example :
    Holds
      (codes "X")
      (some (codes "7"))
      (run_syncs plain ((true, halfway) ∷ (false, good) ∷ (true, without_a) ∷ []) world)
unfolding bytes_eq lookup
run_syncs-Holds_example =
    run_syncs-Holds plain ((true, halfway) ∷ (false, good) ∷ (true, without_a) ∷ []) world
      (codes "X") (some (codes "7")) (refl, (refl, (refl, tt))) (refl, refl)

failed_push-stays_example :
    lookup
      (codes "A")
      (run_syncs plain ((true, without_a) ∷ []) (attempt plain halfway true world).1).destination
    ≡ some (codes "1")
unfolding apply_github put_all put_key delete_all prune_key valid_name has_prefix_fold bytes_eq
    lookup put
failed_push-stays_example =
    failed_push-stays plain halfway true desired world ((true, without_a) ∷ []) (codes "A")
      (codes "1") refl refl refl refl refl refl (refl, tt)

-- Two ticks after the end of the interval, which find the config as it was synced.
abbrev ticks : List Attempt
ticks = record good { now = 5000 } ∷ record good { now = 5001 } ∷ []

sync_now-due_again_example :
    let after = (sync_now plain good world).1 in
    AllDue after.target ticks × (run_syncs plain (map tick ticks) after ≡ after)
sync_now-due_again_example =
    sync_now-due_again plain good desired 4 world ticks refl refl refl refl refl
      (refl, refl, omega arith, (refl, refl, omega arith, tt))
