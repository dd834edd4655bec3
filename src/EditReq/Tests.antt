-- ===== src/EditReq/Tests.antt =====
-- Two approvers and the requester at one request, and uses of the theorems.
use janus_secrets.Common.{ℕ, ◌≡◌, refl, inl, List, [], ◌∷◌, length, codes, bytes_eq}
use janus_secrets.EditReq.{
  applied, Caller, approving, Answer, answered, refused, run, step_at, step, act, fail,
}
use janus_secrets.EditReq.Once.{opened, AllBegin, Agrees, CommitsAnswered, run-Agrees}
use janus_secrets.EditReq.FourEyes.{AllOther, run-AllOther}

abbrev callers : List Caller
callers =
    record { name = codes "ann"; stage = approving }
    ∷ record { name = codes "bob"; stage = approving }
    ∷ record { name = codes "req"; stage = approving }
    ∷ []

-- Both approvers see the pending request before either claims it; bob's first commit fails.
abbrev race : List (ℕ × Answer)
race =
    (0, answered)
    ∷ (1, answered)
    ∷ (2, answered)
    ∷ (1, answered)
    ∷ (0, answered)
    ∷ (1, answered)
    ∷ (1, answered)
    ∷ []

abbrev others : List (ℕ × Answer)
others =
    (0, answered)
    ∷ (1, answered)
    ∷ (1, answered)
    ∷ (1, refused)
    ∷ (1, answered)
    ∷ (0, answered)
    ∷ (0, answered)
    ∷ (0, answered)
    ∷ []

race_commits_once :
    (run (codes "req") race opened callers).0
    ≡ record { status = applied; commits = codes "bob" ∷ [] }
unfolding run step_at step act fail bytes_eq
race_commits_once = refl

revert_lets_another_commit :
    (run (codes "req") others opened callers).0
    ≡ record { status = applied; commits = codes "ann" ∷ [] }
unfolding run step_at step act fail bytes_eq
revert_lets_another_commit = refl

callers-AllBegin : AllBegin callers
callers-AllBegin = (inl refl, (inl refl, (inl refl, tt)))

race-CommitsAnswered : CommitsAnswered (codes "req") race opened callers
unfolding step_at step act fail bytes_eq
race-CommitsAnswered = (tt, (tt, (tt, (tt, (tt, (tt, (tt, tt)))))))

run-Agrees_example :
    Agrees
      (run (codes "req") race opened callers).0.status
      (length (run (codes "req") race opened callers).0.commits)
run-Agrees_example = run-Agrees (codes "req") race callers callers-AllBegin race-CommitsAnswered

run-AllOther_example : AllOther (codes "req") (run (codes "req") race opened callers).0.commits
run-AllOther_example = run-AllOther (codes "req") race callers callers-AllBegin
