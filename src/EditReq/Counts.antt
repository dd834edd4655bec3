-- ===== src/EditReq/Counts.antt =====
-- How many callers hold the claim, before and after the commit.
use janus_secrets.Common.{ℕ, ◌+◌, List, [], ◌∷◌}
use janus_secrets.EditReq.{
  Stage, Caller, approving, checked, claimed, reverting, committed, rejecting, reject_checked,
  cancelling, returned,
}

-- 1 for a caller that has the claim and has not committed.
abbrev pub uncommitted : Stage → ℕ
uncommitted claimed = 1
uncommitted reverting = 1
uncommitted approving = 0
uncommitted checked = 0
uncommitted committed = 0
uncommitted rejecting = 0
uncommitted reject_checked = 0
uncommitted cancelling = 0
uncommitted (returned o) = 0

-- 1 for a caller that has committed and has not marked the request.
abbrev pub unmarked : Stage → ℕ
unmarked committed = 1
unmarked claimed = 0
unmarked reverting = 0
unmarked approving = 0
unmarked checked = 0
unmarked rejecting = 0
unmarked reject_checked = 0
unmarked cancelling = 0
unmarked (returned o) = 0

abbrev pub count : (Stage → ℕ) → List Caller → ℕ
count w [] = 0
count w (c ∷ cs) = w c.stage + count w cs
