-- ===== src/SecretSync/Reconcile/Heals.antt =====
-- A sync by hand whose calls work makes good whatever was before.
use janus_secrets.Common.{
  ℕ, ◌+◌, ◌≡◌, refl, ◌∙◌, Bool, true, false, ◌&&◌, none, some, List, [], ◌∷◌, Bytes, Values, lookup,
  ok, arith,
}
use janus_secrets.SecretSync.Provider.{
  answered, Network, Progress, member, valid_name, put_key, put_all, prune_key, delete_all,
  apply_github,
}
use janus_secrets.SecretSync.Provider.Untouched.{wanted}
use janus_secrets.SecretSync.Provider.Puts.{DistinctNames}
use janus_secrets.SecretSync.Provider.Mirrors.{should_hold, apply_github-mirrors}
use janus_secrets.SecretSync.Fingerprint.{fingerprint_bytes}
use janus_secrets.SecretSync.Reconcile.{
  active, Target, World, Attempt, mark_synced, reconcile, attempt, prepare_sync_now, sync_now,
}

-- Every call over the network is answered.
abbrev pub working : Network
working = record { public_key = true; put_secret = λ k. answered; delete_secret = λ k. answered }

put_key-works :
    (e : Bytes × Bytes) (p : Progress) → p.going ≡ true → (put_key working e p).going ≡ true
unfolding put_key
put_key-works e p g = ground (arith, g)

put_all-works :
    (desired : Values) (p : Progress) → p.going ≡ true → (put_all working desired p).going ≡ true
unfolding put_all
put_all-works [] p g = g
put_all-works (e ∷ desired) p g = put_all-works desired (put_key working e p) (put_key-works e p g)

prune_key-works : (k : Bytes) (p : Progress) → p.going ≡ true → (prune_key working k p).going ≡ true
unfolding prune_key
prune_key-works k p g = ground (arith, g)

delete_all-works :
    (managed : List Bytes) (p : Progress)
    → p.going ≡ true
    → (delete_all working managed p).going ≡ true
unfolding delete_all
delete_all-works [] p g = g
delete_all-works (k ∷ managed) p g =
    delete_all-works managed (prune_key working k p) (prune_key-works k p g)

apply_github-works :
    (desired : Values) (managed : List Bytes) (prune : Bool) (destination : Values)
    → (apply_github working desired managed prune destination).going ≡ true
unfolding apply_github
apply_github-works desired managed true destination =
    delete_all-works managed _ (put_all-works desired _ refl)
apply_github-works desired managed false destination = put_all-works desired _ refl

abbrev pub synced : Bytes → ℕ → ℕ → Target → Progress → World
synced fingerprint version next t p = record {
  target = mark_synced p.applied fingerprint version next t;
  destination = p.destination;
}

prepare-managed : (now : ℕ) (t : Target) → (prepare_sync_now now t).managed_keys ≡ t.managed_keys
prepare-managed now t = ground arith

prepare-prune : (now : ℕ) (t : Target) → (prepare_sync_now now t).prune ≡ t.prune
prepare-prune now t = ground arith

module _ (sync_fingerprint : Bytes → Bytes) where
  attempt-works :
      (a : Attempt) (desired : Values) (version : ℕ) (w : World)
      → a.is_sealed ≡ false
      → a.desired ≡ ok desired
      → a.network ≡ working
      → a.latest_version ≡ some version
      → a.writes_work ≡ true
      → attempt sync_fingerprint a true w ≡ (
        none,
        synced
            (sync_fingerprint (fingerprint_bytes desired))
            version
            (a.now + w.target.interval_seconds)
            w.target
            (apply_github working desired w.target.managed_keys w.target.prune w.destination),
      )
  unfolding attempt reconcile
  attempt-works a desired version w s d n v k =
      simp (
        s,
        d,
        n,
        v,
        k,
        apply_github-works desired w.target.managed_keys w.target.prune w.destination,
      )

  -- What a sync by hand is whose calls all work.
  pub sync_now-works :
      (a : Attempt) (desired : Values) (version : ℕ) (w : World)
      → a.is_sealed ≡ false
      → a.desired ≡ ok desired
      → a.network ≡ working
      → a.latest_version ≡ some version
      → a.writes_work ≡ true
      → let ready = prepare_sync_now a.now w.target in
        sync_now sync_fingerprint a w ≡ (
          none,
          synced
              (sync_fingerprint (fingerprint_bytes desired))
              version
              (a.now + ready.interval_seconds)
              ready
              (apply_github working desired ready.managed_keys ready.prune w.destination),
        )
  sync_now-works a desired version w s d n v writes =
      let done =
        attempt-works a desired version (record w { target = prepare_sync_now a.now w.target }) s d
          n v writes in
      simp (s, writes, done)

  -- A sync by hand makes good whatever was before: if all its calls work, then, however often and
  -- in whatever way earlier syncs of the target have failed, it succeeds, the target is active with
  -- no failures counted, every name at the destination holds what it should, and the keys that the
  -- target manages are the desired ones with a valid name.
  pub sync_now-heals :
      (a : Attempt) (desired : Values) (version : ℕ) (w : World) (k : Bytes)
      → a.is_sealed ≡ false
      → a.desired ≡ ok desired
      → DistinctNames desired
      → a.network ≡ working
      → a.latest_version ≡ some version
      → a.writes_work ≡ true
      → let after = sync_now sync_fingerprint a w in
        (after.0 ≡ none)
        × (after.1.target.status ≡ active)
        × (after.1.target.failure_count ≡ 0)
        × (lookup k after.1.destination
            ≡ should_hold desired w.target.managed_keys w.target.prune w.destination k)
        × (member k after.1.target.managed_keys ≡ (wanted k desired && valid_name k))
  sync_now-heals a desired version w k s d distinct n v writes =
      let ready = prepare_sync_now a.now w.target in
      let went = apply_github-works desired ready.managed_keys ready.prune w.destination in
      let mirrors =
        apply_github-mirrors working desired ready.managed_keys ready.prune w.destination k distinct
          went in
      let same : should_hold desired ready.managed_keys ready.prune w.destination k
          ≡ should_hold desired w.target.managed_keys w.target.prune w.destination k =
        rw (prepare-managed a.now w.target, prepare-prune a.now w.target) refl in
      rw (sync_now-works a desired version w s d n v writes)
        (refl, refl, refl, mirrors.0 ∙ same, mirrors.1)
