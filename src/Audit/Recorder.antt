-- ===== src/Audit/Recorder.antt =====
-- The recorder's operations (internal/audit/recorder.go, internal/audit/verify.go,
-- internal/audit/checkpoint_ops.go). SHA-256 and HMAC are parameters. A hash stands for its hex
-- form in a result, and the creation time of a checkpoint is left out: it is not authenticated.
pub mod Verifies
pub mod Records
pub mod Created
pub mod Attests
pub mod Anchors
pub mod Restarts
use janus_secrets.Common.{
  Bytes, bytes_eq, ℕ, ◌+◌, ◌-◌, ◌*◌, ◌/◌, ◌≡◌, Bool, true, false, ◌&&◌, ◌||◌, not, Option, none,
  some, List, [], ◌∷◌, ◌++◌, length, ltb, leb, ◌==◌, if◌then◌else◌, Result, ok, err, ◌>>=◌, ◌>>◌,
  reject_if,
}
use janus_secrets.Audit.Encoding.{AuditRow, genesis_prev_hash, compute_hash, compute_checkpoint_mac}
use janus_secrets.Audit.Chain.{
  Reason, Break, Walk, from_genesis, walk_chain, checkpoint_mac_invalid,
}
use janus_secrets.Audit.Log.{
  Log, CheckpointRow, Error, Env, call, StoreCall, rows_from, last_row, head_of, latest_of,
  insert_checkpoint, prune_through, checkpoints_disabled, no_events, no_checkpoint, checkpoint_mac,
  prune_past_ship_hwm, chain_invalid,
}

-- `audit.Event` with its actor.
pub record Event : Type 0 where
  pub actor_kind : Bytes
  pub actor_id : Bytes
  pub actor_name : Bytes
  pub action : Bytes
  pub resource : Bytes
  pub detail : Bytes
  pub result : Bytes
  pub result_code : Bytes
  pub ip : Bytes
  pub project_id : Option Bytes

-- The empty text is stored as NULL.
abbrev pub nz : Bytes → Option Bytes
nz [] = none
nz (b ∷ bs) = some (b ∷ bs)

-- Unix nanoseconds truncated to the microsecond.
abbrev pub truncate_micro : ℕ → ℕ
truncate_micro t = t / 1000 * 1000

pub record CheckpointInfo : Type 0 where
  pub through_seq : ℕ
  pub through_hash : Bytes
  pub event_count : ℕ
  pub mac_valid : Bool

pub record VerifyResult : Type 0 where
  pub valid : Bool
  pub count : ℕ
  pub head_seq : ℕ
  pub head_hash : Bytes
  pub broken : Option Break
  pub checkpoint : Option CheckpointInfo
  pub from_checkpoint : Bool

module _ (sha256 : Bytes → Bytes) (hmac : Bytes → Bytes → Bytes) where
  -- The row that `Record` computes from the head of the chain, where there is one.
  unfoldable pub next_row : Option AuditRow → ℕ → Event → AuditRow
  next_row head now e =
      let prev : Bytes = elim head [ none ↦ genesis_prev_hash | some r ↦ r.hash ] in
      let seq : ℕ = elim head [ none ↦ 1 | some r ↦ r.seq + 1 ] in
      let row : AuditRow = record {
        seq = seq;
        occurred_at = truncate_micro now;
        actor_kind = e.actor_kind;
        actor_id = nz e.actor_id;
        actor_name = e.actor_name;
        action = e.action;
        resource = e.resource;
        detail = nz e.detail;
        result = e.result;
        result_code = nz e.result_code;
        ip = e.ip;
        prev_hash = prev;
        hash = [];
        project_id = e.project_id;
      } in
      record row { hash = compute_hash sha256 prev row }

  -- `Record`, inside the store's serialized `Append`.
  unfoldable pub record_event : Env → Event → Log → Result Error Log
  record_event env e log =
      call env StoreCall.append
        (record log { events = log.events ++ next_row (last_row log.events) env.now e ∷ [] })

  -- `verifyCheckpointMAC`
  unfoldable pub mac_valid : Bytes → CheckpointRow → Bool
  mac_valid key c =
      bytes_eq (compute_checkpoint_mac hmac key c.through_seq c.through_hash c.event_count) c.mac

  -- The latest checkpoint, with whether its MAC checks; the key is read only if there is one.
  unfoldable pub latest_verified : Env → Log → Result Error (Option (CheckpointRow × Bool))
  latest_verified env log = do
    latest ← call env StoreCall.latest (latest_of log.checkpoints)
    elim latest [ none ↦ ok none | some c ↦ env.mac_key >>= λ key. ok (some (c, mac_valid key c)) ]

  unfoldable pub info_of : CheckpointRow → Bool → CheckpointInfo
  info_of c v = record {
    through_seq = c.through_seq;
    through_hash = c.through_hash;
    event_count = c.event_count;
    mac_valid = v;
  }

  -- The walk anchored on a checkpoint.
  unfoldable pub from_checkpoint : CheckpointRow → Walk
  from_checkpoint c = record {
    prev = c.through_hash;
    expect_seq = c.through_seq + 1;
    count = c.event_count;
    head_seq = c.through_seq;
    head_hash = c.through_hash;
    broken = none;
  }

  unfoldable pub run_walk : Env → Log → ℕ → Walk → Result Error Walk
  run_walk env log through w =
      call env StoreCall.iterate (walk_chain sha256 through (rows_from w.expect_seq log) w)

  unfoldable pub result_of : Option CheckpointInfo → Bool → Walk → VerifyResult
  result_of info anchored w = record {
    valid = elim w.broken [ none ↦ true | some b ↦ false ];
    count = w.count;
    head_seq = w.head_seq;
    head_hash = w.head_hash;
    broken = w.broken;
    checkpoint = info;
    from_checkpoint = anchored;
  }

  -- A checkpoint whose MAC does not check ends the verification: there is no walk behind it.
  unfoldable pub forged_result : CheckpointRow → VerifyResult
  forged_result c = record {
    valid = false;
    count = 0;
    head_seq = 0;
    head_hash = [];
    broken = some (record { reason = checkpoint_mac_invalid; broken_at = c.through_seq });
    checkpoint = some (info_of c false);
    from_checkpoint = false;
  }

  unfoldable pub verify_from : Env → Log → Option (CheckpointRow × Bool) → Result Error VerifyResult
  verify_from env log none = do w ← run_walk env log 0 from_genesis; ok (result_of none false w)
  verify_from env log (some (c, false)) = ok (forged_result c)
  verify_from env log (some (c, true)) = do
    w ← run_walk env log 0 (from_checkpoint c)
    ok (result_of (some (info_of c true)) true w)

  -- `Verify`
  unfoldable pub verify : Env → Log → Result Error VerifyResult
  unfolding verify_from
  verify env log =
      if env.wired
      then latest_verified env log >>= verify_from env log
      else verify_from env log none

  -- The walk must have reached the very head that is to be signed.
  pub reached : ℕ → Bytes → Walk → Result Error ℕ
  reached head_seq head_hash w = elim w.broken [
    | some b ↦ err chain_invalid
    | none ↦
        if not (w.head_seq == head_seq) || not (bytes_eq w.head_hash head_hash)
        then err chain_invalid
        else ok w.count
  ]

  pub anchor_from : Env → Log → ℕ → Bytes → Option (CheckpointRow × Bool) → Result Error ℕ
  unfolding reached
  anchor_from env log head_seq head_hash none = do
    w ← run_walk env log head_seq from_genesis
    reached head_seq head_hash w
  anchor_from env log head_seq head_hash (some (c, false)) = err chain_invalid
  anchor_from env log head_seq head_hash (some (c, true)) =
      let onward = run_walk env log head_seq (from_checkpoint c) >>= reached head_seq head_hash in
      if ltb head_seq c.through_seq
      then err chain_invalid
      else if c.through_seq == head_seq
      then if not (bytes_eq c.through_hash head_hash) then err chain_invalid else ok c.event_count
      else onward

  -- `verifyBeforeAnchor`
  unfoldable pub verify_before_anchor : Env → Log → ℕ → Bytes → Result Error ℕ
  unfolding anchor_from
  verify_before_anchor env log head_seq head_hash =
      latest_verified env log >>= anchor_from env log head_seq head_hash

  -- The rest of `CreateCheckpoint`, from the head that it has read.
  unfoldable pub sign_anchor : Env → Log → ℕ × Bytes → Result Error (CheckpointInfo × Log)
  sign_anchor env log head = do
    reject_if (head.0 == 0) no_events
    count ← verify_before_anchor env log head.0 head.1
    key ← env.mac_key
    let c : CheckpointRow = record {
      through_seq = head.0;
      through_hash = head.1;
      event_count = count;
      mac = compute_checkpoint_mac hmac key head.0 head.1 count;
    }
    inserted ← call env StoreCall.insert (insert_checkpoint c log)
    log' ← inserted
    ok (info_of c true, log')

  -- `CreateCheckpoint`: the public info, and the log with the new anchor.
  unfoldable pub create_checkpoint : Env → Log → Result Error (CheckpointInfo × Log)
  create_checkpoint env log = do
    reject_if (not env.wired) checkpoints_disabled
    head ← call env StoreCall.head (head_of log)
    sign_anchor env log head
