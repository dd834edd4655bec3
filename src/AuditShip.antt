-- ===== src/AuditShip.antt =====
-- The shipping of the audit log to a collector (`RunDue` of internal/auditship/shipper.go, with
-- ListSince of internal/store/audit.go and internal/store/audit_ship.go), next to the recording of
-- events and the pruning of the log. An event is its number and its text. A call is answered, or its
-- answer is lost after it took effect, or it is refused.
pub mod Order
pub mod Safety
pub mod Delivery
pub mod Catchup
pub mod Restart
mod Tests
use janus_secrets.Common.{
  ℕ, zero, suc, ◌+◌, Bool, true, false, ◌&&◌, List, [], ◌∷◌, ◌++◌, take, keep, ltb, leb, ◌==◌,
  if◌then◌else◌, Bytes,
}

pub record Event : Type 0 where
  pub seq : ℕ
  pub body : Bytes

pub data Answer : Type 0 where
  answered lost refused : Answer

-- The log, the high-water mark, what the collector was sent, and every event that was recorded.
pub record World : Type 0 where
  pub log : List Event
  pub mark : ℕ
  pub received : List Event
  pub recorded : List Event

-- How the calls of a pass end.
pub record Pass : Type 0 where
  pub reads_mark : Bool
  pub reads_log : Bool
  pub send : Answer
  pub advance_mark : Answer

abbrev pub ship_batch : ℕ
ship_batch = 500

-- `ListSince`
unfoldable pub list_since : ℕ → ℕ → List Event → List Event
list_since after limit log = take limit (keep (λ e. ltb after e.seq) log)

-- The loop for the greatest number.
unfoldable pub max_seq : ℕ → List Event → ℕ
max_seq m [] = m
max_seq m (e ∷ events) = max_seq (if ltb m e.seq then e.seq else m) events

-- `AdvanceHighWater`
abbrev pub advance_high_water : Answer → ℕ → ℕ → ℕ
advance_high_water answered seq mark = if ltb mark seq then seq else mark
advance_high_water lost seq mark = if ltb mark seq then seq else mark
advance_high_water refused seq mark = mark

-- What a pass does with its batch: the mark moves only after a send that was answered.
abbrev pub send_batch : Answer → Answer → List Event → World → World
send_batch answered advance events w = record w {
  received = w.received ++ events;
  mark = advance_high_water advance (max_seq w.mark events) w.mark;
}
send_batch lost advance events w = record w { received = w.received ++ events }
send_batch refused advance events w = w

-- `RunDue` of a shipper that is enabled; a batch without events is not sent.
unfoldable pub run_due_ship : Pass → World → World
run_due_ship p w =
    if p.reads_mark && p.reads_log
    then send_batch p.send p.advance_mark (list_since w.mark ship_batch w.log) w
    else w

-- The number of the last event, 0 where there is none.
abbrev pub last_seq : List Event → ℕ
last_seq [] = 0
last_seq (e ∷ []) = e.seq
last_seq (e ∷ x ∷ log) = last_seq (x ∷ log)

-- `Append`: the next number, from the last event of the log.
unfoldable pub append_event : Bytes → World → World
append_event body w =
    let e : Event = record { seq = last_seq w.log + 1; body = body } in
    record w { log = w.log ++ e ∷ []; recorded = w.recorded ++ e ∷ [] }

-- `shipPruneCeiling`: a mark of 0 says that nothing was ever shipped, and bounds no prune.
abbrev pub ship_prune_ceiling : ℕ → ℕ → ℕ
ship_prune_ceiling mark through =
    if mark == 0 then through else if ltb mark through then mark else through

-- `Prune` up to a number, which the high-water mark bounds.
unfoldable pub prune_shipped : ℕ → World → World
prune_shipped through w =
    let n = ship_prune_ceiling w.mark through in
    if n == 0 then w else record w { log = keep (λ e. ltb n e.seq) w.log }

pub data Step : Type 0 where
  append : Bytes → Step
  ship : Pass → Step
  prune_log : ℕ → Step

unfoldable pub perform_step : Step → World → World
perform_step (append body) w = append_event body w
perform_step (ship p) w = run_due_ship p w
perform_step (prune_log through) w = prune_shipped through w

unfoldable pub run : List Step → World → World
run [] w = w
run (s ∷ steps) w = run steps (perform_step s w)
