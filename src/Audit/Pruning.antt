-- ===== src/Audit/Pruning.antt =====
-- The deletion of events that a checkpoint covers (`Prune` in internal/audit/checkpoint_ops.go).
pub mod Prunes
use janus_secrets.Common.{
  Bytes, bytes_eq, ℕ, ◌+◌, ◌-◌, ◌*◌, ◌/◌, ◌≡◌, Bool, true, false, ◌&&◌, ◌||◌, not, Option, none,
  some, List, [], ◌∷◌, ◌++◌, length, ltb, leb, ◌==◌, if◌then◌else◌, Result, ok, err, ◌>>=◌, ◌>>◌,
  reject_if,
}
use janus_secrets.Audit.Encoding.{AuditRow, genesis_prev_hash, compute_hash, compute_checkpoint_mac}
use janus_secrets.Audit.Chain.{
  Reason, Break, Walk, from_genesis, walk_chain, checkpoint_mac_invalid,
}
use janus_secrets.Audit.Log.{
  Log, CheckpointRow, Error, Env, call, StoreCall, rows_from, last_row, head_of, latest_of,
  insert_checkpoint, prune_through, checkpoints_disabled, no_events, no_checkpoint, checkpoint_mac,
  prune_past_ship_hwm, chain_invalid,
}
use janus_secrets.Audit.Recorder.{latest_verified}

pub record PruneResult : Type 0 where
  pub pruned_through : ℕ
  pub deleted : ℕ

module _ (sha256 : Bytes → Bytes) (hmac : Bytes → Bytes → Bytes) where
  -- `checkAnchorBoundary`: only the first row past the anchor matters.
  unfoldable pub boundary_linked : CheckpointRow → List AuditRow → Bool
  boundary_linked c [] = true
  boundary_linked c (r ∷ rows) = r.seq == c.through_seq + 1 && bytes_eq r.prev_hash c.through_hash

  unfoldable pub check_anchor_boundary : Env → Log → CheckpointRow → Result Error (Unit {0})
  check_anchor_boundary env log c = do
    rows ← call env StoreCall.iterate (rows_from (c.through_seq + 1) log)
    reject_if (not (boundary_linked c rows)) chain_invalid

  -- The ship high-water mark clamps the prune point; `none` stands for a negative one.
  unfoldable pub prune_point : ℕ → Option ℕ → ℕ
  prune_point through none = through
  prune_point through (some hwm) = if ltb hwm through then hwm else through

  prune_from :
      Env → Log → Option ℕ → Option (CheckpointRow × Bool) → Result Error (PruneResult × Log)
  prune_from env log ship_hwm none = err no_checkpoint
  prune_from env log ship_hwm (some (c, false)) = err checkpoint_mac
  prune_from env log ship_hwm (some (c, true)) = do
    check_anchor_boundary env log c
    let n = prune_point c.through_seq ship_hwm
    reject_if (ltb n 1) prune_past_ship_hwm
    log' ← call env StoreCall.prune (prune_through n log)
    ok (record { pruned_through = n; deleted = length log.events - length log'.events }, log')

  -- `Prune`
  unfoldable pub prune : Env → Option ℕ → Log → Result Error (PruneResult × Log)
  unfolding prune_from
  prune env ship_hwm log = do
    reject_if (not env.wired) checkpoints_disabled
    latest ← latest_verified sha256 hmac env log
    prune_from env log ship_hwm latest
