-- ===== src/EditReq/Once.antt =====
-- No schedule commits the changes of a request twice, unless the answer of a commit is lost.
use janus_secrets.Common.{
  ℕ, zero, suc, ◌+◌, ◌≤◌, ◌≡◌, refl, ◌⊎◌, inl, inr, List, [], ◌∷◌, length, arith, Bytes,
}
use janus_secrets.EditReq.{
  Status, pending, applying, applied, rejected, cancelled, Row, Stage, Caller, approving, checked,
  claimed, reverting, committed, rejecting, reject_checked, cancelling, returned, Answer, answered,
  lost, refused, act, fail, step, step_at, run,
}
use janus_secrets.EditReq.Counts.{uncommitted, unmarked, count}

-- For a status: the holders of the claim before the commit, those after it, and the commits.
abbrev Fits : Status → ℕ → ℕ → ℕ → Type 0
Fits applying u m n = (u + m ≤ 1) × (n + u ≤ 1) × (m ≤ n)
Fits pending u m n = (u ≡ 0) × (m ≡ 0) × (n ≡ 0)
Fits rejected u m n = (u ≡ 0) × (m ≡ 0) × (n ≡ 0)
Fits cancelled u m n = (u ≡ 0) × (m ≡ 0) × (n ≡ 0)
Fits applied u m n = (u ≡ 0) × (m ≡ 0) × (n ≡ 1)

act-Fits :
    (requester : Bytes) (s : Stage) (t : Status) (commits : List Bytes) (name : Bytes) (u m : ℕ)
    → Fits t (uncommitted s + u) (unmarked s + m) (length commits)
    → (λ (after : Row × Caller).
          Fits after.0.status
            (uncommitted after.1.stage + u)
            (unmarked after.1.stage + m)
            (length after.0.commits))
        (act requester s
          (record { status = t; commits = commits })
          (record { name = name; stage = s }))
unfolding act
act-Fits requester approving t commits name u m h = ground arith
act-Fits requester checked t commits name u m h = ground arith
act-Fits requester claimed t commits name u m h = ground arith
act-Fits requester reverting t commits name u m h = ground arith
act-Fits requester committed t commits name u m h = ground arith
act-Fits requester rejecting t commits name u m h = ground arith
act-Fits requester reject_checked t commits name u m h = ground arith
act-Fits requester cancelling t commits name u m h = ground arith
act-Fits requester (returned o) t commits name u m h = h

fail-Fits :
    (s : Stage) (t : Status) (commits : List Bytes) (name : Bytes) (u m : ℕ)
    → Fits t (uncommitted s + u) (unmarked s + m) (length commits)
    → (λ (after : Row × Caller).
          Fits after.0.status
            (uncommitted after.1.stage + u)
            (unmarked after.1.stage + m)
            (length after.0.commits))
        (fail s (record { status = t; commits = commits }) (record { name = name; stage = s }))
unfolding fail
fail-Fits approving t commits name u m h = h
fail-Fits checked t commits name u m h = h
fail-Fits claimed t commits name u m h = h
fail-Fits reverting t commits name u m h = ground arith
fail-Fits committed t commits name u m h = ground arith
fail-Fits rejecting t commits name u m h = h
fail-Fits reject_checked t commits name u m h = h
fail-Fits cancelling t commits name u m h = h
fail-Fits (returned o) t commits name u m h = h

-- The answer of a commit is not lost.
abbrev pub Kept : Answer → Stage → Type 0
Kept lost claimed = ⊥
Kept answered s = Unit
Kept refused s = Unit
Kept lost approving = Unit
Kept lost checked = Unit
Kept lost reverting = Unit
Kept lost committed = Unit
Kept lost rejecting = Unit
Kept lost reject_checked = Unit
Kept lost cancelling = Unit
Kept lost (returned o) = Unit

lose-Fits :
    (requester : Bytes) (s : Stage) (t : Status) (commits : List Bytes) (name : Bytes) (u m : ℕ)
    → Kept lost s
    → Fits t (uncommitted s + u) (unmarked s + m) (length commits)
    → (λ (after : Row × Caller).
          Fits after.0.status
            (uncommitted after.1.stage + u)
            (unmarked after.1.stage + m)
            (length after.0.commits))
        (step requester lost
          (record { status = t; commits = commits })
          (record { name = name; stage = s }))
unfolding step act fail
lose-Fits requester approving t commits name u m k h = ground arith
lose-Fits requester checked t commits name u m k h = ground arith
lose-Fits requester claimed t commits name u m k h = absurd k
lose-Fits requester reverting t commits name u m k h = ground arith
lose-Fits requester committed t commits name u m k h = ground arith
lose-Fits requester rejecting t commits name u m k h = ground arith
lose-Fits requester reject_checked t commits name u m k h = ground arith
lose-Fits requester cancelling t commits name u m k h = ground arith
lose-Fits requester (returned o) t commits name u m k h = h

step-Fits :
    (requester : Bytes) (a : Answer) (row : Row) (c : Caller) (u m : ℕ)
    → Kept a c.stage
    → Fits row.status (uncommitted c.stage + u) (unmarked c.stage + m) (length row.commits)
    → (λ (after : Row × Caller).
          Fits after.0.status
            (uncommitted after.1.stage + u)
            (unmarked after.1.stage + m)
            (length after.0.commits))
        (step requester a row c)
unfolding step
step-Fits requester answered row c u m k h =
    act-Fits requester c.stage row.status row.commits c.name u m h
step-Fits requester lost row c u m k h =
    lose-Fits requester c.stage row.status row.commits c.name u m k h
step-Fits requester refused row c u m k h = fail-Fits c.stage row.status row.commits c.name u m h

-- The callers fit the row, with `u` and `m` more of them elsewhere.
abbrev AllFit : ℕ → ℕ → Row × List Caller → Type 0
AllFit u m st =
    Fits st.0.status (count uncommitted st.1 + u) (count unmarked st.1 + m) (length st.0.commits)

add_shift : (a b u : ℕ) → (a + b) + u ≡ a + (b + u)
add_shift a b u = omega arith

add_swap : (a b u : ℕ) → (a + b) + u ≡ b + (a + u)
add_swap a b u = omega arith

-- The answer of the caller at a position is not that of a commit that is lost.
abbrev KeptAt : ℕ → Answer → List Caller → Type 0
KeptAt n a [] = Unit
KeptAt zero a (c ∷ cs) = Kept a c.stage
KeptAt (suc n) a (c ∷ cs) = KeptAt n a cs

step_at-AllFit :
    (requester : Bytes) (n : ℕ) (a : Answer) (row : Row) (cs : List Caller) (u m : ℕ)
    → KeptAt n a cs
    → AllFit u m (row, cs)
    → AllFit u m (step_at requester n a row cs)
unfolding step_at
step_at-AllFit requester n a row [] u m k h = h
step_at-AllFit requester zero a row (c ∷ cs) u m k h =
    let c' = (step requester a row c).1 in
    rw
      (
        add_shift (uncommitted c'.stage) (count uncommitted cs) u,
        add_shift (unmarked c'.stage) (count unmarked cs) m,
      )
      (step-Fits requester a row c (count uncommitted cs + u) (count unmarked cs + m) k (
        rw
          (
            add_shift (uncommitted c.stage) (count uncommitted cs) u,
            add_shift (unmarked c.stage) (count unmarked cs) m,
          )
          at h))
step_at-AllFit requester (suc n) a row (c ∷ cs) u m k h =
    let after = (step_at requester n a row cs).1 in
    rw
      (
        add_swap (uncommitted c.stage) (count uncommitted after) u,
        add_swap (unmarked c.stage) (count unmarked after) m,
      )
      (step_at-AllFit requester n a row cs (uncommitted c.stage + u) (unmarked c.stage + m) k (
        rw
          (
            add_swap (uncommitted c.stage) (count uncommitted cs) u,
            add_swap (unmarked c.stage) (count unmarked cs) m,
          )
          at h))

-- No commit of a schedule loses its answer.
abbrev pub CommitsAnswered : Bytes → List (ℕ × Answer) → Row → List Caller → Type 0
CommitsAnswered requester [] row cs = Unit
CommitsAnswered requester (v ∷ moves) row cs =
    let after = step_at requester v.0 v.1 row cs in
    KeptAt v.0 v.1 cs × CommitsAnswered requester moves after.0 after.1

run-AllFit :
    (requester : Bytes) (moves : List (ℕ × Answer)) (row : Row) (cs : List Caller)
    → CommitsAnswered requester moves row cs
    → AllFit 0 0 (row, cs)
    → AllFit 0 0 (run requester moves row cs)
unfolding run
run-AllFit requester [] row cs k h = h
run-AllFit requester (v ∷ moves) row cs k h =
    let after = step_at requester v.0 v.1 row cs in
    run-AllFit requester moves after.0 after.1 k.1
      (step_at-AllFit requester v.0 v.1 row cs 0 0 k.0 h)

-- A new request, which nobody has begun to approve.
abbrev pub opened : Row
opened = record { status = pending; commits = [] }

abbrev pub IsBeginning : Stage → Type 0
IsBeginning s = (s ≡ approving) ⊎ ((s ≡ rejecting) ⊎ (s ≡ cancelling))

abbrev pub AllBegin : List Caller → Type 0
AllBegin [] = Unit
AllBegin (c ∷ cs) = IsBeginning c.stage × AllBegin cs

count-AllBegin :
    (cs : List Caller) → AllBegin cs → (count uncommitted cs ≡ 0) × (count unmarked cs ≡ 0)
count-AllBegin [] h = (refl, refl)
count-AllBegin (c ∷ cs) h =
    let (u, m) = count-AllBegin cs h.1 in
    elim h.0 [
      | inl e ↦ (rw (e, u) refl, rw (e, m) refl)
      | inr (inl e) ↦ (rw (e, u) refl, rw (e, m) refl)
      | inr (inr e) ↦ (rw (e, u) refl, rw (e, m) refl)
    ]

-- What the status says of the commits.
abbrev pub Agrees : Status → ℕ → Type 0
Agrees pending n = n ≡ 0
Agrees rejected n = n ≡ 0
Agrees cancelled n = n ≡ 0
Agrees applying n = n ≤ 1
Agrees applied n = n ≡ 1

Fits-Agrees : (t : Status) (u m n : ℕ) → Fits t u m n → Agrees t n
Fits-Agrees pending u m n h = h.2
Fits-Agrees rejected u m n h = h.2
Fits-Agrees cancelled u m n h = h.2
Fits-Agrees applying u m n h = omega arith
Fits-Agrees applied u m n h = h.2

-- Let any number of callers approve, reject or cancel one new request at once, their calls in any
-- order, each of which may fail with or without an effect, except that no call of `SetSecrets` loses
-- its answer after it has committed. At every point the changes have been committed at most once:
-- once if the request is applied, and never if it is pending, rejected or cancelled.
pub run-Agrees :
    (requester : Bytes) (moves : List (ℕ × Answer)) (cs : List Caller)
    → AllBegin cs
    → CommitsAnswered requester moves opened cs
    → Agrees
        (run requester moves opened cs).0.status
        (length (run requester moves opened cs).0.commits)
run-Agrees requester moves cs b k =
    let (u, m) = count-AllBegin cs b in
    Fits-Agrees _ _ _ _ (run-AllFit requester moves opened cs k (rw (u, m) (refl, refl, refl)))
