-- ===== src/Promote/Requests.antt =====
-- One promotion request under several callers at once (`ApproveRequest`, `RejectRequest` and
-- `CancelRequest` of internal/promote/requests.go, on the row updates of
-- internal/store/promotion_requests.go). A caller makes one call at a time: it reads the row, plans,
-- commits the changeset as a version, and marks the request. A call may fail, with its effect or
-- without, and a caller that never moves again has crashed. Nobody else writes to the configs.
pub mod Calls
pub mod Decided
pub mod Alone
use janus_secrets.Common.{
  ℕ, zero, suc, Bool, true, false, Option, none, some, List, [], ◌∷◌, ◌==◌, if◌then◌else◌, Bytes,
  Result, ok, err,
}
use janus_secrets.Promote.State.{Error, Config, Services}
use janus_secrets.Promote.Plan.{ApplyRequest, ApplyResult, PlanResult, plan, commit}

pub data Status : Type 0 where
  pending applied rejected cancelled : Status

-- The row: what is asked for, and its decision.
pub record Request : Type 0 where
  pub what : ApplyRequest
  pub status : Status
  pub decided_by : Bytes
  pub applied_target_version : ℕ

-- The row, the configs, and the versions that promotions of this request have made.
pub record World : Type 0 where
  pub request : Request
  pub configs : List Config
  pub promoted : List ℕ

-- Where a caller is: before its first call, in front of the call that the name says, or at its end.
-- `conflict` is `ErrRequestConflict`, with the result of the promotion if there was one.
pub data Stage : Type 0 where
  approving rejecting cancelling : Stage
  planning : ApplyRequest → Stage
  committing : PlanResult → Stage
  marking : ApplyResult → Stage
  approved : ApplyResult → Stage
  decided : Status → Stage
  conflict : Option ApplyResult → Stage
  failed : Stage

pub record Caller : Type 0 where
  pub name : Bytes
  pub stage : Stage

pub data Answer : Type 0 where
  answered lost refused : Answer

abbrev pub is_pending : Status → Bool
is_pending pending = true
is_pending applied = false
is_pending rejected = false
is_pending cancelled = false

-- A call with what it does to the world, and what the caller does next.
abbrev perform : Answer → World → World → Stage → Stage → World × Stage
perform answered w after next broken = (after, next)
perform lost w after next broken = (after, broken)
perform refused w after next broken = (w, broken)

-- `Decide`: pending -> rejected or cancelled; whatever its error is, it is a conflict.
abbrev decide : Status → Bytes → Answer → World → World × Stage
decide to name a w =
    if is_pending w.request.status
    then perform a w (record w { request = record w.request { status = to; decided_by = name } })
        (decided to) (conflict none)
    else (w, conflict none)

-- `MarkApplied`: pending -> applied.
abbrev mark_applied : ApplyResult → Bytes → Answer → World → World × Stage
mark_applied r name a w =
    if is_pending w.request.status
    then perform a w
        (record w {
          request = record w.request {
            status = applied;
            decided_by = name;
            applied_target_version = r.target_version;
          };
        })
        (approved r) (conflict (some r))
    else (w, conflict (some r))

abbrev pub after_plan : Result Error PlanResult → Stage
after_plan (err e) = failed
after_plan (ok p) = committing p

abbrev pub after_commit : Result Error ApplyResult → Stage
after_commit (err e) = failed
after_commit (ok r) = marking r

-- Versions count from 1; `commit` reports version 0 for a changeset without a change, of which it
-- makes no version.
abbrev pub log_version : Result Error ApplyResult → List ℕ → List ℕ
log_version (err e) vs = vs
log_version (ok r) vs = if r.target_version == 0 then vs else r.target_version ∷ vs

-- The next call of a caller.
unfoldable pub act : Services → Bytes → Stage → Answer → World → World × Stage
act sv name approving a w =
    perform a w w (if is_pending w.request.status then planning w.request.what else conflict none)
      failed
act sv name (planning req) a w =
    let p = plan sv req w.configs in
    perform a w (record w { configs = p.1 }) (after_plan p.0) failed
act sv name (committing p) a w =
    let r = commit p p.changeset.changes w.configs in
    perform a w (record w { configs = r.1; promoted = log_version r.0 w.promoted })
      (after_commit r.0) failed
act sv name (marking r) a w = mark_applied r name a w
act sv name rejecting a w = decide rejected name a w
act sv name cancelling a w = decide cancelled name a w
act sv name (approved r) a w = (w, approved r)
act sv name (decided t) a w = (w, decided t)
act sv name (conflict r) a w = (w, conflict r)
act sv name failed a w = (w, failed)

-- The caller at a position makes its next call.
unfoldable pub step_at : Services → ℕ → Answer → World → List Caller → World × List Caller
step_at sv n a w [] = (w, [])
step_at sv zero a w (c ∷ cs) =
    let after = act sv c.name c.stage a w in (after.0, record c { stage = after.1 } ∷ cs)
step_at sv (suc n) a w (c ∷ cs) = let after = step_at sv n a w cs in (after.0, c ∷ after.1)

-- A schedule: who moves, and how its call ends.
unfoldable pub run : Services → List (ℕ × Answer) → World → List Caller → World × List Caller
run sv [] w cs = (w, cs)
run sv (m ∷ moves) w cs = let after = step_at sv m.0 m.1 w cs in run sv moves after.0 after.1
