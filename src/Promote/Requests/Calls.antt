-- ===== src/Promote/Requests/Calls.antt =====
-- What one call of a caller keeps: who was told of a decision, and that the row agrees.
use janus_secrets.Common.{
  ℕ, ◌+◌, ◌≤◌, ◌≡◌, refl, ◌⊎◌, inl, inr, false, List, [], ◌∷◌, In, arith, Bool-cases, ◌==◌, Bytes,
  Result, ok, err,
}
use janus_secrets.Promote.State.{Error, Services}
use janus_secrets.Promote.Plan.{ApplyResult, PlanResult, plan, commit}
use janus_secrets.Promote.Requests.{
  Status, pending, applied, rejected, cancelled, World, Stage, approving, rejecting, cancelling,
  planning, committing, marking, approved, decided, conflict, failed, Caller, Answer, answered,
  lost, refused, is_pending, after_plan, after_commit, log_version, act,
}

-- 1 for a caller that was told that it decided.
abbrev pub told : Stage → ℕ
told (approved r) = 1
told (decided t) = 1
told approving = 0
told rejecting = 0
told cancelling = 0
told (planning q) = 0
told (committing p) = 0
told (marking r) = 0
told (conflict r) = 0
told failed = 0

abbrev pub deciders : List Caller → ℕ
deciders [] = 0
deciders (c ∷ cs) = told c.stage + deciders cs

abbrev pub decisions : Status → ℕ
decisions pending = 0
decisions applied = 1
decisions rejected = 1
decisions cancelled = 1

-- A version that a promotion of this request has made, or 0, for a promotion that had nothing to change.
abbrev pub Made : ℕ → List ℕ → Type 0
Made v vs = (v ≡ 0) ⊎ In v vs

-- What a caller was told is what the row says, and what it is about to record was promoted.
abbrev pub Agrees : World → Bytes → Stage → Type 0
Agrees w name (approved r) =
    (w.request.status ≡ applied)
    × (w.request.decided_by ≡ name)
    × (w.request.applied_target_version ≡ r.target_version)
Agrees w name (decided t) =
    (is_pending t ≡ false) × (w.request.status ≡ t) × (w.request.decided_by ≡ name)
Agrees w name (marking r) = Made r.target_version w.promoted
Agrees w name approving = Unit
Agrees w name rejecting = Unit
Agrees w name cancelling = Unit
Agrees w name (planning q) = Unit
Agrees w name (committing p) = Unit
Agrees w name (conflict r) = Unit
Agrees w name failed = Unit

abbrev pub AllAgree : World → List Caller → Type 0
AllAgree w [] = Unit
AllAgree w (c ∷ cs) = Agrees w c.name c.stage × AllAgree w cs

abbrev Recorded : Status → ℕ → List ℕ → Type 0
Recorded applied v vs = Made v vs
Recorded pending v vs = Unit
Recorded rejected v vs = Unit
Recorded cancelled v vs = Unit

-- A request that is applied names a version that was made, or 0.
abbrev pub Real : World → Type 0
Real w = Recorded w.request.status w.request.applied_target_version w.promoted

-- A decision is final, and so is a promotion.
abbrev pub Extends : World → World → Type 0
Extends w w' =
    (is_pending w.request.status ≡ false → w'.request ≡ w.request)
    × ((v : ℕ) → In v w.promoted → In v w'.promoted)

after_plan-told : (r : Result Error PlanResult) → told (after_plan r) ≡ 0
after_plan-told (ok p) = refl
after_plan-told (err e) = refl

after_commit-told : (r : Result Error ApplyResult) → told (after_commit r) ≡ 0
after_commit-told (ok r) = refl
after_commit-told (err e) = refl

pub act-told :
    (sv : Services) (name : Bytes) (s : Stage) (a : Answer) (w : World) (k : ℕ)
    → told s + k ≤ decisions w.request.status
    → told (act sv name s a w).1 + k ≤ decisions (act sv name s a w).0.request.status
unfolding act
act-told sv name approving a w k h = ground arith
act-told sv name rejecting a w k h = ground arith
act-told sv name cancelling a w k h = ground arith
act-told sv name (planning q) a w k h = ground (arith, after_plan-told (plan sv q w.configs).0)
act-told sv name (committing p) a w k h =
    ground (arith, after_commit-told (commit p p.changeset.changes w.configs).0)
act-told sv name (marking r) a w k h = ground arith
act-told sv name (approved r) a w k h = h
act-told sv name (decided t) a w k h = h
act-told sv name (conflict r) a w k h = h
act-told sv name failed a w k h = h

log_version-In :
    (r : Result Error ApplyResult) (vs : List ℕ) (v : ℕ) → In v vs → In v (log_version r vs)
log_version-In (ok r) vs v h = elim (Bool-cases (r.target_version == 0)) [
  | inl nothing ↦ rw nothing h
  | inr made ↦ rw made (inr h)
]
log_version-In (err e) vs v h = h

log_version-Made : (r : ApplyResult) (vs : List ℕ) → Made r.target_version (log_version (ok r) vs)
log_version-Made r vs = elim (Bool-cases (r.target_version == 0)) [
  | inl nothing ↦ inl (ground (arith, nothing))
  | inr made ↦ rw made (inr (inl refl))
]

log_version-Recorded :
    (t : Status) (r : Result Error ApplyResult) (vs : List ℕ) (v : ℕ)
    → Recorded t v vs
    → Recorded t v (log_version r vs)
log_version-Recorded applied r vs v (inl nothing) = inl nothing
log_version-Recorded applied r vs v (inr made) = inr (log_version-In r vs v made)
log_version-Recorded pending r vs v h = tt
log_version-Recorded rejected r vs v h = tt
log_version-Recorded cancelled r vs v h = tt

pub act-log :
    (sv : Services) (name : Bytes) (s : Stage) (a : Answer) (w : World) (v : ℕ)
    → In v w.promoted
    → In v (act sv name s a w).0.promoted
unfolding act
act-log sv name approving a w v h = ground arith
act-log sv name rejecting a w v h = ground arith
act-log sv name cancelling a w v h = ground arith
act-log sv name (planning q) a w v h = ground arith
act-log sv name (committing p) a w v h =
    ground (arith, log_version-In (commit p p.changeset.changes w.configs).0 w.promoted v h)
act-log sv name (marking r) a w v h = ground arith
act-log sv name (approved r) a w v h = h
act-log sv name (decided t) a w v h = h
act-log sv name (conflict r) a w v h = h
act-log sv name failed a w v h = h

pub act-final :
    (sv : Services) (name : Bytes) (s : Stage) (a : Answer) (w : World)
    → is_pending w.request.status ≡ false
    → (act sv name s a w).0.request ≡ w.request
unfolding act
act-final sv name approving a w h = ground arith
act-final sv name rejecting a w h = ground arith
act-final sv name cancelling a w h = ground arith
act-final sv name (planning q) a w h = ground arith
act-final sv name (committing p) a w h = ground arith
act-final sv name (marking r) a w h = ground arith
act-final sv name (approved r) a w h = refl
act-final sv name (decided t) a w h = refl
act-final sv name (conflict r) a w h = refl
act-final sv name failed a w h = refl

after_plan-Agrees :
    (w : World) (name : Bytes) (r : Result Error PlanResult) → Agrees w name (after_plan r)
after_plan-Agrees w name (ok p) = tt
after_plan-Agrees w name (err e) = tt

after_commit-Agrees :
    (w : World) (name : Bytes) (vs : List ℕ) (r : Result Error ApplyResult)
    → w.promoted ≡ log_version r vs
    → Agrees w name (after_commit r)
after_commit-Agrees w name vs (ok r) e = rw e (log_version-Made r vs)
after_commit-Agrees w name vs (err e) h = tt

pub act-Agrees :
    (sv : Services) (name : Bytes) (s : Stage) (a : Answer) (w : World)
    → Agrees w name s
    → Real w
    → Agrees (act sv name s a w).0 name (act sv name s a w).1 × Real (act sv name s a w).0
unfolding act
act-Agrees sv name approving a w h k = ground arith
act-Agrees sv name rejecting a w h k = ground arith
act-Agrees sv name cancelling a w h k = ground arith
act-Agrees sv name (planning q) answered w h k =
    (after_plan-Agrees (act sv name (planning q) answered w).0 name (plan sv q w.configs).0, k)
act-Agrees sv name (planning q) lost w h k = (tt, k)
act-Agrees sv name (planning q) refused w h k = (tt, k)
act-Agrees sv name (committing p) answered w h k = (
  after_commit-Agrees (act sv name (committing p) answered w).0 name w.promoted
      (commit p p.changeset.changes w.configs).0 refl,
  log_version-Recorded w.request.status (commit p p.changeset.changes w.configs).0 w.promoted
      w.request.applied_target_version k,
)
act-Agrees sv name (committing p) lost w h k = (
  tt,
  log_version-Recorded w.request.status (commit p p.changeset.changes w.configs).0 w.promoted
      w.request.applied_target_version k,
)
act-Agrees sv name (committing p) refused w h k = (tt, k)
act-Agrees sv name (marking r) a w h k = ground arith
act-Agrees sv name (approved r) a w h k = (h, k)
act-Agrees sv name (decided t) a w h k = (h, k)
act-Agrees sv name (conflict r) a w h k = (h, k)
act-Agrees sv name failed a w h k = (h, k)
