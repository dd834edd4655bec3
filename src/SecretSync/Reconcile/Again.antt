-- ===== src/SecretSync/Reconcile/Again.antt =====
-- A synced target whose config does not change.
use janus_secrets.Common.{
  ℕ, ◌+◌, ◌≤◌, ◌≡◌, refl, ap, ◌∙◌, Bool, true, false, none, some, List, [], ◌∷◌, map, Bytes, Values,
  ok, bytes_eq_refl, arith,
}
use janus_secrets.SecretSync.Provider.{apply_github}
use janus_secrets.SecretSync.Fingerprint.{fingerprint_bytes}
use janus_secrets.SecretSync.Reconcile.{
  active, Target, World, Attempt, reconcile, attempt, prepare_sync_now, sync_now, due, run_due,
  run_syncs, same_fingerprint,
}
use janus_secrets.SecretSync.Reconcile.Heals.{working, synced, sync_now-works}

-- Ticks of the scheduler, not sealed and not before some time, that find the config unchanged.
abbrev pub AllUnchanged : Values → ℕ → List Attempt → Type 0
AllUnchanged desired from [] = Unit
AllUnchanged desired from (a ∷ ticks) =
    (a.is_sealed ≡ false)
    × (a.desired ≡ ok desired)
    × (from ≤ a.now)
    × AllUnchanged desired from ticks

-- A target is due at each of the ticks.
abbrev pub AllDue : Target → List Attempt → Type 0
AllDue t [] = Unit
AllDue t (a ∷ ticks) = (due a.now t ≡ true) × AllDue t ticks

-- A tick of the scheduler, as a sync of a row of syncs.
abbrev pub tick : Attempt → Bool × Attempt
tick a = (false, a)

due_from : (t : Target) (now : ℕ) → t.status ≡ active → t.next_sync_at ≤ now → due now t ≡ true
due_from t now s le = ground (arith, s, le)

AllUnchanged-AllDue :
    (desired : Values) (t : Target) (ticks : List Attempt)
    → t.status ≡ active
    → AllUnchanged desired t.next_sync_at ticks
    → AllDue t ticks
AllUnchanged-AllDue desired t [] s u = tt
AllUnchanged-AllDue desired t (a ∷ ticks) s u =
    (due_from t a.now s u.2, AllUnchanged-AllDue desired t ticks s u.3)

module _ (sync_fingerprint : Bytes → Bytes) where
  run_due_unchanged :
      (a : Attempt) (desired : Values) (w : World)
      → a.is_sealed ≡ false
      → a.desired ≡ ok desired
      → same_fingerprint (sync_fingerprint (fingerprint_bytes desired)) w.target.synced_fingerprint
        ≡ true
      → due a.now w.target ≡ true
      → run_due sync_fingerprint a w ≡ (none, w)
  unfolding attempt reconcile
  run_due_unchanged a desired w unsealed resolved same d = simp (unsealed, resolved, same, d)

  run_syncs_unchanged :
      (ticks : List Attempt) (desired : Values) (w : World)
      → same_fingerprint (sync_fingerprint (fingerprint_bytes desired)) w.target.synced_fingerprint
        ≡ true
      → w.target.status ≡ active
      → AllUnchanged desired w.target.next_sync_at ticks
      → run_syncs sync_fingerprint (map tick ticks) w ≡ w
  unfolding run_syncs
  run_syncs_unchanged [] desired w same s u = refl
  run_syncs_unchanged (a ∷ ticks) desired w same s u =
      ap (λ r. run_syncs sync_fingerprint (map tick ticks) r.1)
        (run_due_unchanged a desired w u.0 u.1 same (due_from w.target a.now s u.2))
      ∙ run_syncs_unchanged ticks desired w same s u.3

  -- A target whose config does not change is worked on at every tick, not once an interval: after a
  -- sync by hand whose calls all work, take any number of ticks of the scheduler, each at or after
  -- the end of the target's interval, none of them sealed, that find what the config resolves to
  -- unchanged. The target is due at each of them, and together they change neither the target, the
  -- time of its next sync included, nor the destination.
  pub sync_now-due_again :
      (a : Attempt) (desired : Values) (version : ℕ) (w : World) (ticks : List Attempt)
      → a.is_sealed ≡ false
      → a.desired ≡ ok desired
      → a.network ≡ working
      → a.latest_version ≡ some version
      → a.writes_work ≡ true
      → AllUnchanged desired (a.now + w.target.interval_seconds) ticks
      → let after = (sync_now sync_fingerprint a w).1 in
        AllDue after.target ticks × (run_syncs sync_fingerprint (map tick ticks) after ≡ after)
  sync_now-due_again a desired version w ticks s d n v writes u =
      let ready = prepare_sync_now a.now w.target in
      let interval : ready.interval_seconds ≡ w.target.interval_seconds = ground arith in
      let f = sync_fingerprint (fingerprint_bytes desired) in
      let after : World =
        synced f version (a.now + ready.interval_seconds) ready
          (apply_github working desired ready.managed_keys ready.prune w.destination) in
      let unchanged : AllUnchanged desired (a.now + ready.interval_seconds) ticks = rw interval u in
      rw (sync_now-works sync_fingerprint a desired version w s d n v writes) (
        AllUnchanged-AllDue desired after.target ticks refl unchanged,
        run_syncs_unchanged ticks desired after (bytes_eq_refl f) refl unchanged,
      )
