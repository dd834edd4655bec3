-- ===== src/EditReq.antt =====
-- One edit request under several callers at once (internal/editreq/service.go, on the row updates of
-- internal/store/config_edit_requests.go). Each step of a caller is one atomic call of the store or
-- of the secrets service; a call is answered, or its answer is lost after it took effect, or it is
-- refused.
mod Counts
mod Tests
pub mod Once
pub mod FourEyes
pub mod Twice
use janus_secrets.Common.{
  ℕ, zero, suc, Bool, true, false, List, [], ◌∷◌, if◌then◌else◌, Bytes, bytes_eq,
}

pub data Status : Type 0 where
  pending applying applied rejected cancelled : Status

-- The row of the request, and who has committed its changes: one entry for each config version.
pub record Row : Type 0 where
  pub status : Status
  pub commits : List Bytes

pub data Outcome : Type 0 where
  succeeded conflict self_approval failed_call : Outcome

-- Where a caller is: before its first call, after `Get`, in possession of the claim, after a commit
-- that failed or succeeded, or at its end.
pub data Stage : Type 0 where
  approving checked claimed reverting committed : Stage
  rejecting reject_checked cancelling : Stage
  returned : Outcome → Stage

pub record Caller : Type 0 where
  pub name : Bytes
  pub stage : Stage

abbrev pub is_pending : Status → Bool
is_pending pending = true
is_pending applying = false
is_pending applied = false
is_pending rejected = false
is_pending cancelled = false

abbrev pub is_applying : Status → Bool
is_applying applying = true
is_applying pending = false
is_applying applied = false
is_applying rejected = false
is_applying cancelled = false

abbrev pub at_stage : Row → Caller → Stage → Row × Caller
at_stage row c s = (row, record c { stage = s })

-- `Decide`: pending -> a terminal status.
abbrev pub decide : Status → Row → Caller → Row × Caller
decide to row c =
    if is_pending row.status
    then at_stage (record row { status = to }) c (returned succeeded)
    else at_stage row c (returned conflict)

-- The next call of a caller, and what the caller does after an answer.
unfoldable pub act : Bytes → Stage → Row → Caller → Row × Caller
-- `Get`, and the checks of `Approve`.
act requester approving row c =
    if is_pending row.status
    then if bytes_eq c.name requester
      then at_stage row c (returned self_approval)
      else at_stage row c checked
    else at_stage row c (returned conflict)
-- `ClaimForApply`: pending -> applying.
act requester checked row c =
    if is_pending row.status
    then at_stage (record row { status = applying }) c claimed
    else at_stage row c (returned conflict)
-- `SetSecrets` on the decrypted changes.
act requester claimed row c = at_stage (record row { commits = c.name ∷ row.commits }) c committed
-- `RevertApplying`: applying -> pending.
act requester reverting row c =
    if is_applying row.status
    then at_stage (record row { status = pending }) c (returned failed_call)
    else at_stage row c (returned failed_call)
-- `MarkApplied`: applying -> applied.
act requester committed row c =
    if is_applying row.status
    then at_stage (record row { status = applied }) c (returned succeeded)
    else at_stage row c (returned conflict)
-- `Get`, and the check of `Reject`.
act requester rejecting row c =
    if bytes_eq c.name requester
    then at_stage row c (returned self_approval)
    else at_stage row c reject_checked
act requester reject_checked row c = decide rejected row c
act requester cancelling row c = decide cancelled row c
act requester (returned o) row c = at_stage row c (returned o)

-- What a caller does after a call that gave an error: a commit that failed is followed by the revert.
unfoldable pub fail : Stage → Row → Caller → Row × Caller
fail claimed row c = at_stage row c reverting
fail approving row c = at_stage row c (returned failed_call)
fail checked row c = at_stage row c (returned conflict)
fail reverting row c = at_stage row c (returned failed_call)
fail committed row c = at_stage row c (returned conflict)
fail rejecting row c = at_stage row c (returned failed_call)
fail reject_checked row c = at_stage row c (returned conflict)
fail cancelling row c = at_stage row c (returned conflict)
fail (returned o) row c = at_stage row c (returned o)

-- How a call ends.
pub data Answer : Type 0 where
  answered lost refused : Answer

unfoldable pub step : Bytes → Answer → Row → Caller → Row × Caller
step requester answered row c = act requester c.stage row c
step requester lost row c = ((act requester c.stage row c).0, (fail c.stage row c).1)
step requester refused row c = fail c.stage row c

-- The caller at a position takes its next step.
unfoldable pub step_at : Bytes → ℕ → Answer → Row → List Caller → Row × List Caller
step_at requester n a row [] = (row, [])
step_at requester zero a row (c ∷ cs) =
    let after = step requester a row c in (after.0, after.1 ∷ cs)
step_at requester (suc n) a row (c ∷ cs) =
    let after = step_at requester n a row cs in (after.0, c ∷ after.1)

-- A schedule: who moves, and how its call ends.
unfoldable pub run : Bytes → List (ℕ × Answer) → Row → List Caller → Row × List Caller
run requester [] row cs = (row, cs)
run requester (m ∷ moves) row cs =
    let after = step_at requester m.0 m.1 row cs in run requester moves after.0 after.1
