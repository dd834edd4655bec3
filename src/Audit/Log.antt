-- ===== src/Audit/Log.antt =====
-- The tables of the audit store that the recorder reads and writes (internal/store/audit.go,
-- internal/store/audit_checkpoint.go), in the order of their sequence numbers, and the calls on
-- them. A call fails as a whole where the environment says so, and then changes nothing.
use janus_secrets.Common.{
  Bytes, ℕ, Bool, Option, none, some, List, [], ◌∷◌, keep, ltb, leb, ◌==◌, any, if◌then◌else◌,
  Result, ok, err,
}
use janus_secrets.Audit.Encoding.{AuditRow}

pub record CheckpointRow : Type 0 where
  pub through_seq : ℕ
  pub through_hash : Bytes
  pub event_count : ℕ
  pub mac : Bytes

pub record Log : Type 0 where
  pub events : List AuditRow
  pub checkpoints : List CheckpointRow

pub data Error : Type 0 where
  checkpoints_disabled no_events no_checkpoint checkpoint_mac : Error
  prune_past_ship_hwm chain_invalid already_exists store_failed key_unavailable : Error

pub data StoreCall : Type 0 where
  append iterate latest head insert prune : StoreCall

-- What the recorder is wired with: whether checkpointing is configured, the MAC key, which store
-- calls fail, and the clock in unix nanoseconds.
pub record Env : Type 0 where
  pub wired : Bool
  pub mac_key : Result Error Bytes
  pub fails : StoreCall → Bool
  pub now : ℕ

abbrev pub call : {A : Type 0} → Env → StoreCall → A → Result Error A
call env c v = if env.fails c then err store_failed else ok v

-- `Iterate` and `IterateFrom`, as `Recorder.iterate` chooses between them.
unfoldable pub rows_from : ℕ → Log → List AuditRow
rows_from from_seq log =
    if ltb 1 from_seq then keep (λ r. leb from_seq r.seq) log.events else log.events

-- The row of the highest sequence number: `ORDER BY seq DESC LIMIT 1` on ordered rows.
unfoldable pub last_row : List AuditRow → Option AuditRow
last_row [] = none
last_row (r ∷ []) = some r
last_row (r ∷ s ∷ rows) = last_row (s ∷ rows)

-- `Head`: 0 and no hash on an empty table.
unfoldable pub head_of : Log → ℕ × Bytes
head_of log = elim (last_row log.events) [ none ↦ (0, []) | some r ↦ (r.seq, r.hash) ]

-- `Latest`: the checkpoint of the highest sequence number.
unfoldable pub latest_of : List CheckpointRow → Option CheckpointRow
latest_of [] = none
latest_of (c ∷ cs) =
    let rest = latest_of cs in
    elim rest [
      | none ↦ some c
      | some d ↦ if ltb c.through_seq d.through_seq then some d else some c
    ]

-- `Insert`: the sequence number of an anchor is unique.
unfoldable pub insert_checkpoint : CheckpointRow → Log → Result Error Log
insert_checkpoint c log =
    if any (λ d. d.through_seq == c.through_seq) log.checkpoints
    then err already_exists
    else ok (record log { checkpoints = c ∷ log.checkpoints })

-- `PruneThrough`
unfoldable pub prune_through : ℕ → Log → Log
prune_through n log = record log { events = keep (λ r. ltb n r.seq) log.events }
