-- ===== src/Audit/Chain.antt =====
-- The forward walk that validates the chain (`chainWalk`, `walkChain` in internal/audit/verify.go).
pub mod Linked
pub mod Tamper
use janus_secrets.Common.{
  Bytes, bytes_eq, ℕ, ◌+◌, Bool, true, false, ◌&&◌, ◌||◌, not, Option, none, some, List, [], ◌∷◌,
  ltb, leb, ◌==◌, if◌then◌else◌,
}
use janus_secrets.Audit.Encoding.{AuditRow, genesis_prev_hash, compute_hash}

pub data Reason : Type 0 where
  chain_break hash_mismatch checkpoint_mac_invalid : Reason

-- A structural break: its reason, and the sequence number at which it was found.
pub record Break : Type 0 where
  pub reason : Reason
  pub broken_at : ℕ

pub record Walk : Type 0 where
  pub prev : Bytes
  pub expect_seq : ℕ
  pub count : ℕ
  pub head_seq : ℕ
  pub head_hash : Bytes
  pub broken : Option Break

unfoldable pub from_genesis : Walk
from_genesis = record {
  prev = genesis_prev_hash;
  expect_seq = 1;
  count = 0;
  head_seq = 0;
  head_hash = [];
  broken = none;
}

-- The walk after a row that validates.
unfoldable pub advance : AuditRow → Walk → Walk
advance row w = record w {
  prev = row.hash;
  expect_seq = w.expect_seq + 1;
  count = w.count + 1;
  head_seq = row.seq;
  head_hash = row.hash;
}

-- The break that a row shows, if it does not continue the walk.
unfoldable pub check_row : (Bytes → Bytes) → AuditRow → Walk → Option Break
check_row sha256 row w =
    let want = compute_hash sha256 w.prev row in
    if not (row.seq == w.expect_seq) || not (bytes_eq row.prev_hash w.prev)
    then some (record { reason = Reason.chain_break; broken_at = row.seq })
    else if not (bytes_eq row.hash want)
    then some (record { reason = Reason.hash_mismatch; broken_at = row.seq })
    else none

-- `throughSeq` 0 walks to the end; a positive one stops after the row that reaches it.
unfoldable pub walk_chain : (Bytes → Bytes) → ℕ → List AuditRow → Walk → Walk
walk_chain sha256 through [] w = w
walk_chain sha256 through (row ∷ rows) w =
    let rest = walk_chain sha256 through rows (advance row w) in
    elim (check_row sha256 row w) [
      | some b ↦ record w { broken = some b }
      | none ↦ if ltb 0 through && leb through row.seq then advance row w else rest
    ]
