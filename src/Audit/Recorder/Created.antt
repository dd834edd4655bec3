-- ===== src/Audit/Recorder/Created.antt =====
-- What a checkpoint that is created has seen: the highest row, the bounded walk, the insertion.
use janus_secrets.Common.{
  Bytes, bytes_eq-eq, ℕ, ◌+◌, ◌≤◌, ◌<◌, ◌≡◌, ◌≢◌, refl, inl, inr, Bool, true, not, none, some, List,
  [], ◌∷◌, arith, Bool-cases, ok, keep, ltb, leb, not-eq_false, reject_if-eq_ok, >>=-eq-ok,
}
use janus_secrets.Audit.Encoding.{AuditRow, compute_checkpoint_mac}
use janus_secrets.Audit.Chain.{Walk, walk_chain}
use janus_secrets.Audit.Chain.Linked.{IsAscending, AllUpTo, walk_chain_bounded}
use janus_secrets.Audit.Log.{
  Log, Env, StoreCall, CheckpointRow, rows_from, last_row, head_of, insert_checkpoint, call,
  checkpoints_disabled,
}
use janus_secrets.Audit.Recorder.{
  CheckpointInfo, run_walk, info_of, reached, verify_before_anchor, sign_anchor, create_checkpoint,
}

-- The last row of an ascending list is its highest.
pub AllUpTo-last :
    (low : ℕ) (rows : List AuditRow) (r : AuditRow)
    → IsAscending low rows
    → last_row rows ≡ some r
    → AllUpTo r.seq rows × (low < r.seq)
unfolding last_row
AllUpTo-last low [] r a h = cc
AllUpTo-last low (x ∷ []) r a h = ground arith
AllUpTo-last low (x ∷ y ∷ rows) r a h =
    let (up, lt) = AllUpTo-last x.seq (y ∷ rows) r a.1 h in ((omega arith, up), omega arith)

AllUpTo-keep :
    (p : AuditRow → Bool) (n : ℕ) (rows : List AuditRow) → AllUpTo n rows → AllUpTo n (keep p rows)
AllUpTo-keep p n [] h = tt
AllUpTo-keep p n (x ∷ rows) h = elim (Bool-cases (p x)) [
  | inl t ↦ rw t (h.0, AllUpTo-keep p n rows h.1)
  | inr f ↦ rw f (AllUpTo-keep p n rows h.1)
]

IsAscending-weaken :
    (low low' : ℕ) (rows : List AuditRow)
    → low ≤ low'
    → IsAscending low' rows
    → IsAscending low rows
IsAscending-weaken low low' [] l h = tt
IsAscending-weaken low low' (x ∷ rows) l h = (omega arith, h.1)

IsAscending-keep :
    (p : AuditRow → Bool) (low : ℕ) (rows : List AuditRow)
    → IsAscending low rows
    → IsAscending low (keep p rows)
IsAscending-keep p low [] h = tt
IsAscending-keep p low (x ∷ rows) h = elim (Bool-cases (p x)) [
  | inl t ↦ rw t (h.0, IsAscending-keep p x.seq rows h.1)
  | inr f ↦
      rw f (
        IsAscending-weaken low x.seq (keep p rows) (omega arith)
          (IsAscending-keep p x.seq rows h.1))
]

pub none_above :
    (n : ℕ) (rows : List AuditRow) → AllUpTo n rows → keep (λ r. leb (n + 1) r.seq) rows ≡ []
none_above n [] h = refl
none_above n (x ∷ rows) h = ground (arith, none_above n rows h.1)

-- A walk over the stored rows that is bounded by the highest one is the whole walk.
walk_rows_from :
    (sha256 : Bytes → Bytes) (n from_seq : ℕ) (log : Log) (w : Walk)
    → 0 < n
    → IsAscending 0 log.events
    → AllUpTo n log.events
    → walk_chain sha256 n (rows_from from_seq log) w
      ≡ walk_chain sha256 0 (rows_from from_seq log) w
unfolding rows_from
walk_rows_from sha256 n from_seq log w p a u = elim (Bool-cases (ltb 1 from_seq)) [
  | inl t ↦ rw t (
      walk_chain_bounded sha256 n 0 (keep (λ r. leb from_seq r.seq) log.events) w p
        (IsAscending-keep (λ r. leb from_seq r.seq) 0 log.events a)
        (AllUpTo-keep (λ r. leb from_seq r.seq) n log.events u))
  | inr f ↦ rw f (walk_chain_bounded sha256 n 0 log.events w p a u)
]

module _ (sha256 : Bytes → Bytes) (hmac : Bytes → Bytes → Bytes) where
  pub run_walk_bounded :
      (env : Env) (log : Log) (n : ℕ) (w : Walk)
      → 0 < n
      → IsAscending 0 log.events
      → AllUpTo n log.events
      → run_walk sha256 hmac env log n w ≡ run_walk sha256 hmac env log 0 w
  unfolding run_walk
  run_walk_bounded env log n w p a u = rw (walk_rows_from sha256 n w.expect_seq log w p a u) refl

  pub reached-eq_ok :
      (n : ℕ) (h : Bytes) (w : Walk) {count : ℕ}
      → reached sha256 hmac n h w ≡ ok count
      → (w.broken ≡ none) × (w.head_seq ≡ n) × (w.head_hash ≡ h) × (w.count ≡ count)
  unfolding reached
  reached-eq_ok n h w e = ground (arith, bytes_eq-eq w.head_hash h)

  -- The anchor that `CreateCheckpoint` inserts.
  unfoldable pub new_anchor : Bytes → Log → ℕ → CheckpointRow
  new_anchor key log count = record {
    through_seq = (head_of log).0;
    through_hash = (head_of log).1;
    event_count = count;
    mac = compute_checkpoint_mac hmac key (head_of log).0 (head_of log).1 count;
  }

  -- What a `CreateCheckpoint` that succeeds has seen.
  abbrev pub Created : Env → Log → Log → CheckpointInfo → ℕ → Bytes → Type 0
  Created env log log' info count key =
      (verify_before_anchor sha256 hmac env log (head_of log).0 (head_of log).1 ≡ ok count)
      × (env.mac_key ≡ ok key)
      × (insert_checkpoint (new_anchor key log count) log ≡ ok log')
      × (info ≡ info_of sha256 hmac (new_anchor key log count) true)

  sign_anchor-Created :
      (env : Env) (log log' : Log) (info : CheckpointInfo)
      → sign_anchor sha256 hmac env log (head_of log) ≡ ok (info, log')
      → ((head_of log).0 ≢ 0) × ((count : ℕ) × (key : Bytes) × Created env log log' info count key)
  unfolding sign_anchor new_anchor
  sign_anchor-Created env log log' info h = ground arith

  pub create_checkpoint-Created :
      (env : Env) (log log' : Log) (info : CheckpointInfo)
      → create_checkpoint sha256 hmac env log ≡ ok (info, log')
      → (env.wired ≡ true)
        × ((head_of log).0 ≢ 0)
        × ((count : ℕ) × (key : Bytes) × Created env log log' info count key)
  unfolding create_checkpoint
  create_checkpoint-Created env log log' info h =
      let (wired, go) = reject_if-eq_ok (not env.wired) checkpoints_disabled _ h in
      let (head, at, signed) =
        >>=-eq-ok (call env StoreCall.head (head_of log)) (sign_anchor sha256 hmac env log) go in
      let same : head ≡ head_of log = ground arith in
      let (some_head, made) = sign_anchor-Created env log log' info (rw same at signed) in
      (not-eq_false env.wired wired, some_head, made)
