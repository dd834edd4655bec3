-- ===== src/EditReq/FourEyes.antt =====
-- Whoever commits the changes of a request is not the one who asked for them.
use janus_secrets.Common.{
  ℕ, zero, suc, ◌≡◌, refl, Bool-cases, inl, inr, false, List, [], ◌∷◌, Bytes, bytes_eq,
}
use janus_secrets.EditReq.{
  Row, Stage, Caller, approving, checked, claimed, reverting, committed, rejecting, reject_checked,
  cancelling, returned, is_pending, is_applying, Answer, answered, lost, refused, act, fail, step,
  step_at, run,
}
use janus_secrets.EditReq.Once.{opened, AllBegin, IsBeginning}

-- A caller that is past the check of `Approve` is another than the requester.
abbrev IsOther : Bytes → Bytes → Stage → Type 0
IsOther requester name checked = bytes_eq name requester ≡ false
IsOther requester name claimed = bytes_eq name requester ≡ false
IsOther requester name approving = Unit
IsOther requester name reverting = Unit
IsOther requester name committed = Unit
IsOther requester name rejecting = Unit
IsOther requester name reject_checked = Unit
IsOther requester name cancelling = Unit
IsOther requester name (returned o) = Unit

abbrev pub AllOther : Bytes → List Bytes → Type 0
AllOther requester [] = Unit
AllOther requester (n ∷ names) = (bytes_eq n requester ≡ false) × AllOther requester names

abbrev AllCallersOther : Bytes → List Caller → Type 0
AllCallersOther requester [] = Unit
AllCallersOther requester (c ∷ cs) = IsOther requester c.name c.stage × AllCallersOther requester cs

abbrev StepOther : Bytes → Row × Caller → Type 0
StepOther requester after =
    AllOther requester after.0.commits × IsOther requester after.1.name after.1.stage

act-Other :
    (requester : Bytes) (s : Stage) (row : Row) (name : Bytes)
    → AllOther requester row.commits
    → IsOther requester name s
    → StepOther requester (act requester s row (record { name = name; stage = s }))
unfolding act
act-Other requester approving row name a o = elim (Bool-cases (is_pending row.status)) [
  | inl p ↦ elim (Bool-cases (bytes_eq name requester)) [
    | inl same ↦ rw p (rw same (a, tt))
    | inr other ↦ rw p (rw other (a, other))
  ]
  | inr n ↦ rw n (a, tt)
]
act-Other requester checked row name a o = elim (Bool-cases (is_pending row.status)) [
  | inl p ↦ rw p (a, o)
  | inr n ↦ rw n (a, tt)
]
act-Other requester claimed row name a o = ((o, a), tt)
act-Other requester reverting row name a o = elim (Bool-cases (is_applying row.status)) [
  | inl p ↦ rw p (a, tt)
  | inr n ↦ rw n (a, tt)
]
act-Other requester committed row name a o = elim (Bool-cases (is_applying row.status)) [
  | inl p ↦ rw p (a, tt)
  | inr n ↦ rw n (a, tt)
]
act-Other requester rejecting row name a o = elim (Bool-cases (bytes_eq name requester)) [
  | inl same ↦ rw same (a, tt)
  | inr other ↦ rw other (a, tt)
]
act-Other requester reject_checked row name a o = elim (Bool-cases (is_pending row.status)) [
  | inl p ↦ rw p (a, tt)
  | inr n ↦ rw n (a, tt)
]
act-Other requester cancelling row name a o = elim (Bool-cases (is_pending row.status)) [
  | inl p ↦ rw p (a, tt)
  | inr n ↦ rw n (a, tt)
]
act-Other requester (returned r) row name a o = (a, tt)

fail-Other :
    (requester : Bytes) (s : Stage) (row : Row) (name : Bytes)
    → AllOther requester row.commits
    → StepOther requester (fail s row (record { name = name; stage = s }))
unfolding fail
fail-Other requester approving row name a = (a, tt)
fail-Other requester checked row name a = (a, tt)
fail-Other requester claimed row name a = (a, tt)
fail-Other requester reverting row name a = (a, tt)
fail-Other requester committed row name a = (a, tt)
fail-Other requester rejecting row name a = (a, tt)
fail-Other requester reject_checked row name a = (a, tt)
fail-Other requester cancelling row name a = (a, tt)
fail-Other requester (returned o) row name a = (a, tt)

fail-IsOther :
    (requester : Bytes) (s : Stage) (row : Row) (name : Bytes)
    → IsOther requester name (fail s row (record { name = name; stage = s })).1.stage
unfolding fail
fail-IsOther requester approving row name = tt
fail-IsOther requester checked row name = tt
fail-IsOther requester claimed row name = tt
fail-IsOther requester reverting row name = tt
fail-IsOther requester committed row name = tt
fail-IsOther requester rejecting row name = tt
fail-IsOther requester reject_checked row name = tt
fail-IsOther requester cancelling row name = tt
fail-IsOther requester (returned o) row name = tt

fail-name : (s : Stage) (row : Row) (c : Caller) → (fail s row c).1.name ≡ c.name
unfolding fail
fail-name approving row c = refl
fail-name checked row c = refl
fail-name claimed row c = refl
fail-name reverting row c = refl
fail-name committed row c = refl
fail-name rejecting row c = refl
fail-name reject_checked row c = refl
fail-name cancelling row c = refl
fail-name (returned o) row c = refl

step-Other :
    (requester : Bytes) (a : Answer) (row : Row) (c : Caller)
    → AllOther requester row.commits
    → IsOther requester c.name c.stage
    → StepOther requester (step requester a row c)
unfolding step
step-Other requester answered row c a o = act-Other requester c.stage row c.name a o
step-Other requester lost row c a o = (
  (act-Other requester c.stage row c.name a o).0,
  rw (fail-name c.stage row c) (fail-IsOther requester c.stage row c.name),
)
step-Other requester refused row c a o = fail-Other requester c.stage row c.name a

step_at-Other :
    (requester : Bytes) (n : ℕ) (b : Answer) (row : Row) (cs : List Caller)
    → AllOther requester row.commits
    → AllCallersOther requester cs
    → AllOther requester (step_at requester n b row cs).0.commits
      × AllCallersOther requester (step_at requester n b row cs).1
unfolding step_at
step_at-Other requester n b row [] a o = (a, tt)
step_at-Other requester zero b row (c ∷ cs) a o =
    let (a', o') = step-Other requester b row c a o.0 in (a', (o', o.1))
step_at-Other requester (suc n) b row (c ∷ cs) a o =
    let (a', o') = step_at-Other requester n b row cs a o.1 in (a', (o.0, o'))

run-Other :
    (requester : Bytes) (moves : List (ℕ × Answer)) (row : Row) (cs : List Caller)
    → AllOther requester row.commits
    → AllCallersOther requester cs
    → AllOther requester (run requester moves row cs).0.commits
unfolding run
run-Other requester [] row cs a o = a
run-Other requester (v ∷ moves) row cs a o =
    let (a', o') = step_at-Other requester v.0 v.1 row cs a o in
    run-Other requester moves (step_at requester v.0 v.1 row cs).0
      (step_at requester v.0 v.1 row cs).1 a' o'

IsBeginning-IsOther :
    (requester name : Bytes) (s : Stage) → IsBeginning s → IsOther requester name s
IsBeginning-IsOther requester name s (inl e) = rw e tt
IsBeginning-IsOther requester name s (inr (inl e)) = rw e tt
IsBeginning-IsOther requester name s (inr (inr e)) = rw e tt

AllBegin-AllCallersOther :
    (requester : Bytes) (cs : List Caller) → AllBegin cs → AllCallersOther requester cs
AllBegin-AllCallersOther requester [] h = tt
AllBegin-AllCallersOther requester (c ∷ cs) h =
    (IsBeginning-IsOther requester c.name c.stage h.0, AllBegin-AllCallersOther requester cs h.1)

-- Let any number of callers approve, reject or cancel one new request at once, their calls in any
-- order, each of which may fail with or without an effect. Whoever has committed the changes is not
-- the requester.
pub run-AllOther :
    (requester : Bytes) (moves : List (ℕ × Answer)) (cs : List Caller)
    → AllBegin cs
    → AllOther requester (run requester moves opened cs).0.commits
run-AllOther requester moves cs b =
    run-Other requester moves opened cs tt (AllBegin-AllCallersOther requester cs b)
