-- ===== src/EditReq/Twice.antt =====
-- A commit whose answer is lost.
use janus_secrets.Common.{ℕ, ◌≡◌, refl, false, List, [], ◌∷◌, Bytes, bytes_eq}
use janus_secrets.EditReq.{
  applied, failed_call, succeeded, Caller, approving, returned, Answer, answered, lost, act, fail,
  step, step_at, run,
}
use janus_secrets.EditReq.Once.{opened}

-- One approval whose commit takes effect and gives an error, and then another whose calls all work.
abbrev pub lost_commit : List (ℕ × Answer)
lost_commit =
    (0, answered)
    ∷ (0, answered)
    ∷ (0, lost)
    ∷ (0, answered)
    ∷ (1, answered)
    ∷ (1, answered)
    ∷ (1, answered)
    ∷ (1, answered)
    ∷ []

abbrev pub two_approvers : Bytes → Bytes → List Caller
two_approvers first second =
    record { name = first; stage = approving } ∷ record { name = second; stage = approving } ∷ []

-- An approval is not idempotent when the answer of its commit is lost: for any two approvers other
-- than the requester, if `SetSecrets` of the first commits and gives an error all the same, the
-- request is pending again, and the second approval commits the changes once more, under its name.
-- The first approver is told of a failure, although its version is the first of the two.
pub lost_commit-twice :
    (requester first second : Bytes)
    → bytes_eq first requester ≡ false
    → bytes_eq second requester ≡ false
    → run requester lost_commit opened (two_approvers first second) ≡ (
      record { status = applied; commits = second ∷ first ∷ [] },
      record { name = first; stage = returned failed_call }
          ∷ record { name = second; stage = returned succeeded }
          ∷ [],
    )
unfolding run step_at step act fail
lost_commit-twice requester first second f s = rw (f, s) refl
