-- ===== src/Audit/Pruning/Prunes.antt =====
-- What `Prune` removes, and that verification does not notice it.
use janus_secrets.Common.{
  Bytes, ℕ, ◌+◌, ◌≤◌, ◌<◌, ◌≡◌, refl, sym, ◌∙◌, ap, inl, inr, Bool, true, false, not, Option, none,
  some, List, [], ◌∷◌, arith, Bool-cases, ok, >>=-eq-ok, keep, ltb, leb, In, lt→ltb,
  reject_if-eq_ok, not-eq_false,
}
use janus_secrets.Audit.Encoding.{AuditRow}
use janus_secrets.Audit.Log.{
  Log, Env, CheckpointRow, rows_from, prune_through, checkpoints_disabled,
}
use janus_secrets.Audit.Recorder.Verifies.{verify_wired}
use janus_secrets.Audit.Recorder.{verify, verify_from, run_walk, latest_verified, from_checkpoint}
use janus_secrets.Audit.Pruning.{PruneResult, prune, prune_from, prune_point}

keep-keep_lt :
    (n m : ℕ) (rows : List AuditRow)
    → n < m
    → keep (λ r. leb m r.seq) (keep (λ r. ltb n r.seq) rows) ≡ keep (λ r. leb m r.seq) rows
keep-keep_lt n m [] h = refl
keep-keep_lt n m (r ∷ rows) h = ground (arith, keep-keep_lt n m rows)

In-keep :
    (n : ℕ) (r : AuditRow) (rows : List AuditRow)
    → In r rows
    → n < r.seq
    → In r (keep (λ r. ltb n r.seq) rows)
In-keep n r [] m h = elim m [ ]
In-keep n r (x ∷ rows) (inl e) h =
    let passes : ltb n x.seq ≡ true = ground arith in rw passes (inl e)
In-keep n r (x ∷ rows) (inr m) h = elim (Bool-cases (ltb n x.seq)) [
  | inl kept ↦ rw kept (inr (In-keep n r rows m h))
  | inr dropped ↦ rw dropped (In-keep n r rows m h)
]

module _ (sha256 : Bytes → Bytes) (hmac : Bytes → Bytes → Bytes) where
  -- What a prune that succeeds has seen.
  abbrev Pruned : Env → Option ℕ → Log → PruneResult → Log → CheckpointRow → Type 0
  Pruned env hwm log r log' c =
      (env.wired ≡ true)
      × (latest_verified sha256 hmac env log ≡ ok (some (c, true)))
      × (r.pruned_through ≡ prune_point sha256 hmac c.through_seq hwm)
      × (1 ≤ r.pruned_through)
      × (log' ≡ prune_through r.pruned_through log)

  prune_from-Pruned :
      (env : Env) (hwm : Option ℕ) (log : Log) (r : PruneResult) (log' : Log)
      (latest : Option (CheckpointRow × Bool))
      → env.wired ≡ true
      → latest_verified sha256 hmac env log ≡ ok latest
      → prune_from sha256 hmac env log hwm latest ≡ ok (r, log')
      → (c : CheckpointRow) × Pruned env hwm log r log' c
  unfolding prune_from
  prune_from-Pruned env hwm log r log' none w l h = cc
  prune_from-Pruned env hwm log r log' (some (c, false)) w l h = cc
  prune_from-Pruned env hwm log r log' (some (c, true)) w l h =
      (c, (w, l, ground arith, ground arith, ground arith))

  prune-Pruned :
      (env : Env) (hwm : Option ℕ) (log : Log) (r : PruneResult) (log' : Log)
      → prune sha256 hmac env hwm log ≡ ok (r, log')
      → (c : CheckpointRow) × Pruned env hwm log r log' c
  unfolding prune
  prune-Pruned env hwm log r log' h =
      let (wired, go) = reject_if-eq_ok (not env.wired) checkpoints_disabled _ h in
      let (latest, l, rest) =
        >>=-eq-ok (latest_verified sha256 hmac env log) (prune_from sha256 hmac env log hwm) go in
      prune_from-Pruned env hwm log r log' latest (not-eq_false env.wired wired) l rest

  latest_verified-prune_through :
      (env : Env) (n : ℕ) (log : Log)
      → latest_verified sha256 hmac env (prune_through n log) ≡ latest_verified sha256 hmac env log
  unfolding latest_verified prune_through
  latest_verified-prune_through env n log = refl

  rows_from-prune_through :
      (n m : ℕ) (log : Log) → n < m → 1 < m → rows_from m (prune_through n log) ≡ rows_from m log
  unfolding rows_from prune_through
  rows_from-prune_through n m log h k = rw (lt→ltb 1 m k) (keep-keep_lt n m log.events h)

  prune_point-le :
      (through : ℕ) (hwm : Option ℕ)
      → (prune_point sha256 hmac through hwm ≤ through)
        × ((h : ℕ) → hwm ≡ some h → prune_point sha256 hmac through hwm ≤ h)
  unfolding prune_point
  prune_point-le through none = (omega arith, λ h e. cc)
  prune_point-le through (some k) = (ground arith, λ h e. ground arith)

  -- A verification reads nothing that a prune has deleted: after a successful `Prune` the same
  -- `Verify` returns exactly what it returned before, valid or not.
  pub prune-verify :
      (env : Env) (hwm : Option ℕ) (log log' : Log) (r : PruneResult)
      → prune sha256 hmac env hwm log ≡ ok (r, log')
      → verify sha256 hmac env log' ≡ verify sha256 hmac env log
  unfolding verify_from run_walk from_checkpoint
  prune-verify env hwm log log' r h =
      let (c, (wired, latest, at, positive, same)) = prune-Pruned env hwm log r log' h in
      let n = r.pruned_through in
      let below : n ≤ c.through_seq = rw at (prune_point-le c.through_seq hwm).0 in
      let latest' : latest_verified sha256 hmac env log' ≡ ok (some (c, true)) =
        rw same (latest_verified-prune_through env n log ∙ latest) in
      let rows : rows_from (c.through_seq + 1) log' ≡ rows_from (c.through_seq + 1) log =
        rw same (rows_from-prune_through n (c.through_seq + 1) log (omega arith) (omega arith)) in
      verify_wired sha256 hmac env log' (some (c, true)) wired latest'
      ∙ rw rows refl
      ∙ sym (verify_wired sha256 hmac env log (some (c, true)) wired latest)

  -- A successful `Prune` deletes up to the sequence number that it reports and nothing above; that
  -- number is at most the one of the latest checkpoint, whose MAC checks, and at most the ship
  -- high-water mark where there is one. Checkpoints stay.
  pub prune_safe :
      (env : Env) (hwm : Option ℕ) (log log' : Log) (r : PruneResult)
      → prune sha256 hmac env hwm log ≡ ok (r, log')
      → (c : CheckpointRow) × (latest_verified sha256 hmac env log ≡ ok (some (c, true)))
        × (r.pruned_through ≤ c.through_seq)
        × ((h : ℕ) → hwm ≡ some h → r.pruned_through ≤ h)
        × (log'.checkpoints ≡ log.checkpoints)
        × ((row : AuditRow) → In row log.events → r.pruned_through < row.seq → In row log'.events)
  unfolding prune_through
  prune_safe env hwm log log' r h =
      let (c, (wired, latest, at, positive, same)) = prune-Pruned env hwm log r log' h in
      let (le, le_hwm) = prune_point-le c.through_seq hwm in
      (
        c,
        latest,
        rw at le,
        rw at le_hwm,
        ap (λ (l : Log). l.checkpoints) same,
        λ row m k. rw same (In-keep r.pruned_through row log.events m k),
      )
