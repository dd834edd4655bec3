-- ===== src/SecretSync/Reconcile/Strays.antt =====
-- What stays at a destination that no sync manages.
use janus_secrets.Common.{
  ℕ, ◌≡◌, ◌∙◌, inl, inr, Bool, true, false, ◌&&◌, not, Option, none, some, List, [], ◌∷◌, Bytes,
  Values, lookup, Result, ok, err, arith, Bool-cases,
}
use janus_secrets.SecretSync.Provider.{Progress, apply_github}
use janus_secrets.SecretSync.Provider.Untouched.{wanted_name, member_name, apply_github-other}
use janus_secrets.SecretSync.Provider.Mirrors.{apply_github-unapplied}
use janus_secrets.SecretSync.Fingerprint.{fingerprint_bytes}
use janus_secrets.SecretSync.Reconcile.{
  Error, sealed, apply_failed, forbidden_reference, sync_error, World, Attempt, record_sync, push,
  reconcile_desired, reconcile, record_failure, attempt, prepare_sync_now, sync_now, run_due,
  run_syncs, same_fingerprint,
}

-- Whether an attempt would sync a key of a name at the destination.
abbrev pub wants : Bytes → Result Error Values → Bool
wants k (ok desired) = wanted_name k desired
wants k (err e) = false

abbrev pub NobodyWants : Bytes → List (Bool × Attempt) → Type 0
NobodyWants k [] = Unit
NobodyWants k (s ∷ more) = (wants k s.1.desired ≡ false) × NobodyWants k more

-- A name of no key that the target manages has some value, or none, at the destination.
abbrev pub Holds : Bytes → Option Bytes → World → Type 0
Holds k v w = (member_name k w.target.managed_keys ≡ false) × (lookup k w.destination ≡ v)

record_sync-Holds :
    (a : Attempt) (f : Bytes) (p : Progress) (version : Option ℕ) (w : World) (k : Bytes)
    (v : Option Bytes)
    → member_name k p.applied ≡ false
    → lookup k p.destination ≡ v
    → Holds k v w
    → Holds k v (record_sync a f p version w).1
record_sync-Holds a f p none w k v m d h = (h.0, d)
record_sync-Holds a f p (some version) w k v m d h = ground (arith, m, d, h)

push-Holds :
    (a : Attempt) (f : Bytes) (p : Progress) (w : World) (k : Bytes) (v : Option Bytes)
    → member_name k p.applied ≡ false
    → lookup k p.destination ≡ v
    → Holds k v w
    → Holds k v (push a f p w).1
push-Holds a f p w k v m d h =
    ground (arith, m, d, h, record_sync-Holds a f p a.latest_version w k v)

module _ (sync_fingerprint : Bytes → Bytes) where
  reconcile_desired-Holds :
      (a : Attempt) (force : Bool) (d : Result Error Values) (w : World) (k : Bytes)
      (v : Option Bytes)
      → wants k d ≡ false
      → Holds k v w
      → Holds k v (reconcile_desired sync_fingerprint a force d w).1
  reconcile_desired-Holds a force (err e) w k v u h = h
  reconcile_desired-Holds a force (ok desired) w k v u h =
      let f = sync_fingerprint (fingerprint_bytes desired) in
      let p = apply_github a.network desired w.target.managed_keys w.target.prune w.destination in
      let applied : member_name k p.applied ≡ false =
        apply_github-unapplied a.network desired w.target.managed_keys w.target.prune w.destination
          k u in
      let pushed =
        push-Holds a f p w k v applied
          (apply_github-other a.network desired w.target.managed_keys w.target.prune w.destination k
              u h.0
            ∙ h.1)
          h in
      elim (Bool-cases (not force && same_fingerprint f w.target.synced_fingerprint)) [
        | inl same ↦ rw same h
        | inr other ↦ rw other pushed
      ]

  reconcile-Holds :
      (a : Attempt) (force : Bool) (w : World) (k : Bytes) (v : Option Bytes)
      → wants k a.desired ≡ false
      → Holds k v w
      → Holds k v (reconcile sync_fingerprint a force w).1
  unfolding reconcile
  reconcile-Holds a force w k v u h =
      ground (arith, h, reconcile_desired-Holds a force a.desired w k v u h)

  pub record_failure-Holds :
      (a : Attempt) (r : Option Error × World) (k : Bytes) (v : Option Bytes)
      → Holds k v r.1
      → Holds k v (record_failure sync_fingerprint a r).1
  record_failure-Holds a (none, w) k v h = h
  record_failure-Holds a (some sealed, w) k v h = h
  record_failure-Holds a (some apply_failed, w) k v h = ground (arith, h)
  record_failure-Holds a (some forbidden_reference, w) k v h = ground (arith, h)
  record_failure-Holds a (some sync_error, w) k v h = ground (arith, h)

  attempt-Holds :
      (a : Attempt) (force : Bool) (w : World) (k : Bytes) (v : Option Bytes)
      → wants k a.desired ≡ false
      → Holds k v w
      → Holds k v (attempt sync_fingerprint a force w).1
  unfolding attempt
  attempt-Holds a force w k v u h =
      record_failure-Holds a (reconcile sync_fingerprint a force w) k v
        (reconcile-Holds a force w k v u h)

  prepared-Holds :
      (now : ℕ) (w : World) (k : Bytes) (v : Option Bytes)
      → Holds k v w
      → Holds k v (record w { target = prepare_sync_now now w.target })
  prepared-Holds now w k v h = ground (arith, h)

  sync_now-Holds :
      (a : Attempt) (w : World) (k : Bytes) (v : Option Bytes)
      → wants k a.desired ≡ false
      → Holds k v w
      → Holds k v (sync_now sync_fingerprint a w).1
  sync_now-Holds a w k v u h =
      let ready : World = record w { target = prepare_sync_now a.now w.target } in
      ground (arith, h, attempt-Holds a true ready k v u (prepared-Holds a.now w k v h))

  run_due-Holds :
      (a : Attempt) (w : World) (k : Bytes) (v : Option Bytes)
      → wants k a.desired ≡ false
      → Holds k v w
      → Holds k v (run_due sync_fingerprint a w).1
  run_due-Holds a w k v u h = ground (arith, h, attempt-Holds a false w k v u h)

  -- A sync leaves alone what it does not manage: whatever a row of syncs does and whatever of it
  -- fails, a name at the destination that, up to case, is that of no key that the target manages or
  -- that a sync wants keeps its value, or stays absent, and is not managed afterwards.
  pub run_syncs-Holds :
      (syncs : List (Bool × Attempt)) (w : World) (k : Bytes) (v : Option Bytes)
      → NobodyWants k syncs
      → Holds k v w
      → Holds k v (run_syncs sync_fingerprint syncs w)
  unfolding run_syncs
  run_syncs-Holds [] w k v u h = h
  run_syncs-Holds ((true, a) ∷ more) w k v u h =
      run_syncs-Holds more (sync_now sync_fingerprint a w).1 k v u.1 (sync_now-Holds a w k v u.0 h)
  run_syncs-Holds ((false, a) ∷ more) w k v u h =
      run_syncs-Holds more (run_due sync_fingerprint a w).1 k v u.1 (run_due-Holds a w k v u.0 h)
