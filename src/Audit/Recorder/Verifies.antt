-- ===== src/Audit/Recorder/Verifies.antt =====
-- `Verify` on a log that is read from genesis, and what `Record` does to it.
use janus_secrets.Common.{
  Bytes, ℕ, ◌+◌, ◌≡◌, refl, ◌∙◌, ap, ◌↔◌, ◌⊎◌, inl, inr, Bool, true, false, Option, none, some,
  List, [], ◌∷◌, ◌++◌, length, length-append, arith, Bool-cases, ok, if-true,
}
use janus_secrets.Audit.Encoding.{AuditRow, genesis_prev_hash, compute_hash, event_bytes}
use janus_secrets.Audit.Chain.{Walk, from_genesis, walk_chain}
use janus_secrets.Audit.Chain.Linked.{
  IsLink, Linked, end_hash, walked, walk_chain-Linked, Linked-walk_chain,
}
use janus_secrets.Audit.Log.{Log, Env, StoreCall, rows_from, CheckpointRow, last_row, latest_of}
use janus_secrets.Audit.Recorder.{
  Event, VerifyResult, next_row, record_event, run_walk, result_of, verify, verify_from,
  latest_verified, CheckpointInfo,
}

-- The reads that a verification makes succeed.
abbrev pub IsReadable : Env → Type 0
IsReadable env = (env.fails StoreCall.latest ≡ false) × (env.fails StoreCall.iterate ≡ false)

-- Nothing anchors the walk: checkpointing is not wired, or there is no checkpoint.
abbrev pub HasNoAnchor : Env → Log → Type 0
HasNoAnchor env log = (env.wired ≡ false) ⊎ (log.checkpoints ≡ [])

module _ (sha256 : Bytes → Bytes) (hmac : Bytes → Bytes → Bytes) where
  verify_genesis :
      (env : Env) (log : Log)
      → IsReadable env
      → HasNoAnchor env log
      → verify sha256 hmac env log
        ≡ ok (result_of sha256 hmac none false (walk_chain sha256 0 log.events from_genesis))
  unfolding verify verify_from run_walk from_genesis rows_from latest_verified latest_of
  verify_genesis env log f (inl w) = rw (w, f.1) refl
  verify_genesis env log f (inr n) = elim (Bool-cases env.wired) [
    | inl w ↦ rw (w, f.0, n, f.1) refl
    | inr w ↦ rw (w, f.1) refl
  ]

  result_of-valid :
      (info : Option CheckpointInfo) (anchored : Bool) (w : Walk)
      → ((result_of sha256 hmac info anchored w).valid ≡ true) ↔ (w.broken ≡ none)
  unfolding result_of
  result_of-valid info anchored w = (λ h. ground arith, λ h. rw h refl)

  walk_genesis_iff :
      (rows : List AuditRow)
      → ((walk_chain sha256 0 rows from_genesis).broken ≡ none)
        ↔ Linked sha256 genesis_prev_hash 1 rows
  unfolding from_genesis
  walk_genesis_iff rows = (
    Linked-walk_chain sha256 rows from_genesis,
    λ h. ap (λ (w : Walk). w.broken) (walk_chain-Linked sha256 rows from_genesis h),
  )

  -- Where nothing anchors the walk, `Verify` reports a valid log exactly if the events, in their
  -- order, are numbered from 1 without a gap, each carries the hash of the one before it (32 zero
  -- bytes at first), and each carries the hash of its own fields.
  pub verify_iff_Linked :
      (env : Env) (log : Log) (v : VerifyResult)
      → IsReadable env
      → HasNoAnchor env log
      → verify sha256 hmac env log ≡ ok v
      → (v.valid ≡ true) ↔ Linked sha256 genesis_prev_hash 1 log.events
  verify_iff_Linked env log v f n h =
      let same : v
          ≡ result_of sha256 hmac none false (walk_chain sha256 0 log.events from_genesis) =
        cc (h, verify_genesis env log f n) in
      rw same (
        λ t. (walk_genesis_iff log.events).0 ((result_of-valid none false _).0 t),
        λ l. (result_of-valid none false _).1 ((walk_genesis_iff log.events).1 l),
      )

  -- The count and the head of a valid log that nothing anchors.
  pub verify_genesis_Linked :
      (env : Env) (log : Log)
      → IsReadable env
      → HasNoAnchor env log
      → Linked sha256 genesis_prev_hash 1 log.events
      → verify sha256 hmac env log
        ≡ ok (result_of sha256 hmac none false (walked log.events from_genesis))
  unfolding from_genesis
  verify_genesis_Linked env log f n l =
      rw (← walk_chain-Linked sha256 log.events from_genesis l) (verify_genesis env log f n)

  Linked-append_one :
      (p : Bytes) (k : ℕ) (rows : List AuditRow) (r : AuditRow)
      → Linked sha256 p k rows
      → IsLink sha256 (end_hash p rows) (k + length rows) r
      → Linked sha256 p k (rows ++ r ∷ [])
  Linked-append_one p k [] r l h = ((omega (arith, h.0), h.1, h.2), tt)
  Linked-append_one p k (x ∷ rows) r l h =
      (l.0, Linked-append_one x.hash (k + 1) rows r l.1 (omega (arith, h.0), h.1, h.2))

  -- The last row of a chain, where there is one.
  last_row-Linked :
      (p : Bytes) (k : ℕ) (x : AuditRow) (rows : List AuditRow)
      → Linked sha256 p k (x ∷ rows)
      → (r : AuditRow) × (last_row (x ∷ rows) ≡ some r)
        × (r.hash ≡ end_hash p (x ∷ rows))
        × (r.seq + 1 ≡ k + length (x ∷ rows))
  unfolding last_row
  last_row-Linked p k x [] l = (x, refl, refl, omega (arith, l.0))
  last_row-Linked p k x (y ∷ rows) l =
      let (r, e, h, s) = last_row-Linked x.hash (k + 1) y rows l.1 in (r, e, h, omega arith)

  next_row-IsLink :
      (rows : List AuditRow) (now : ℕ) (e : Event)
      → Linked sha256 genesis_prev_hash 1 rows
      → IsLink sha256
          (end_hash genesis_prev_hash rows)
          (1 + length rows)
          (next_row sha256 hmac (last_row rows) now e)
  unfolding next_row compute_hash event_bytes last_row
  next_row-IsLink [] now e l = (refl, refl, refl)
  next_row-IsLink (x ∷ rows) now e l =
      let (r, found, h, s) = last_row-Linked genesis_prev_hash 1 x rows l in
      rw (found, ← h) (omega arith, refl, refl)

  pub record_event-Linked :
      (env : Env) (e : Event) (log : Log) {log' : Log}
      → Linked sha256 genesis_prev_hash 1 log.events
      → record_event sha256 hmac env e log ≡ ok log'
      → (log'.checkpoints ≡ log.checkpoints)
        × (length log'.events ≡ length log.events + 1)
        × Linked sha256 genesis_prev_hash 1 log'.events
  unfolding record_event
  record_event-Linked env e log {log'} l h =
      let row = next_row sha256 hmac (last_row log.events) env.now e in
      let same : log' ≡ record log { events = log.events ++ row ∷ [] } = ground arith in
      rw same (
        refl,
        length-append log.events (row ∷ []),
        Linked-append_one genesis_prev_hash 1 log.events row l
            (next_row-IsLink log.events env.now e l),
      )

  -- With checkpointing wired, a verification starts from the latest checkpoint.
  pub verify_wired :
      (env : Env) (log : Log) (latest : Option (CheckpointRow × Bool))
      → env.wired ≡ true
      → latest_verified sha256 hmac env log ≡ ok latest
      → verify sha256 hmac env log ≡ verify_from sha256 hmac env log latest
  unfolding verify
  verify_wired env log latest w l = if-true env.wired _ _ w ∙ rw l refl
