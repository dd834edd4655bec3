-- ===== src/Promote/Requests/Alone.antt =====
-- What the approval of a promotion request does when nobody interferes, and what a rejection does
-- that comes between the commit and the mark.
use janus_secrets.Common.{ℕ, ◌≡◌, refl, ◌⊎◌, inl, inr, some, List, [], ◌∷◌, Bytes, Result, ok, err}
use janus_secrets.Promote.State.{Error, Config, Services}
use janus_secrets.Promote.Plan.{
  ApplyRequest, ApplyResult, PlanResult, plan, commit, apply, apply_plan,
}
use janus_secrets.Promote.Requests.{
  pending, applied, rejected, World, Stage, approving, rejecting, planning, approved, decided,
  conflict, failed, Answer, answered, lost, refused, after_plan, after_commit, log_version, act,
  step_at, run,
}

-- The promise of `ApproveRequest`: one promotion, and the decision exactly if the promotion succeeded.
abbrev pub settle : Bytes → World → Result Error ApplyResult × List Config → World × Stage
settle name w (err e, cs) = (record w { configs = cs }, failed)
settle name w (ok r, cs) = (
  record {
    request = record w.request {
      status = applied;
      decided_by = name;
      applied_target_version = r.target_version;
    };
    configs = cs;
    promoted = log_version (ok r) w.promoted;
  },
  approved r,
)

-- Four calls of one caller, and how they end.
abbrev pub four_calls : Services → Bytes → Answer → Answer → Answer → Answer → World → World × Stage
four_calls sv name a b c d w =
    let read = act sv name approving a w in
    let did_plan = act sv name read.1 b read.0 in
    let did_commit = act sv name did_plan.1 c did_plan.0 in act sv name did_commit.1 d did_commit.0

approving-planning :
    (sv : Services) (name : Bytes) (w : World)
    → w.request.status ≡ pending
    → act sv name approving answered w ≡ (w, planning w.request.what)
unfolding act
approving-planning sv name w h = simp h

planning-planned :
    (sv : Services) (name : Bytes) (req : ApplyRequest) (w : World)
    → act sv name (planning req) answered w
      ≡ (record w { configs = (plan sv req w.configs).1 }, after_plan (plan sv req w.configs).0)
unfolding act
planning-planned sv name req w = refl

after_commit-settle :
    (sv : Services) (name : Bytes) (w : World) (r : Result Error ApplyResult × List Config)
    → w.request.status ≡ pending
    → act sv name
        (after_commit r.0)
        answered
        (record w { configs = r.1; promoted = log_version r.0 w.promoted })
      ≡ settle name w r
unfolding act
after_commit-settle sv name w (ok r, cs) h = rw h refl
after_commit-settle sv name w (err e, cs) h = refl

after_plan-settle :
    (sv : Services) (name : Bytes) (w : World) (p : Result Error PlanResult × List Config)
    → w.request.status ≡ pending
    → let after = act sv name (after_plan p.0) answered (record w { configs = p.1 }) in
      act sv name after.1 answered after.0 ≡ settle name w (apply_plan p)
unfolding act
after_plan-settle sv name w (ok p, cs) h =
    after_commit-settle sv name w (commit p p.changeset.changes cs) h
after_plan-settle sv name w (err e, cs) h = refl

all_answered-settle :
    (sv : Services) (name : Bytes) (w : World)
    → w.request.status ≡ pending
    → four_calls sv name answered answered answered answered w
      ≡ settle name w (apply sv w.request.what w.configs)
unfolding apply
all_answered-settle sv name w h =
    rw (approving-planning sv name w h, planning-planned sv name w.request.what w)
      (after_plan-settle sv name w (plan sv w.request.what w.configs) h)

-- The row is as it was, or the world is as it was promised.
abbrev UnchangedOr : World → World × Stage → World × Stage → Type 0
UnchangedOr w promised after = (after.0.request ≡ w.request) ⊎ (after.0 ≡ promised.0)

after_commit-UnchangedOr :
    (sv : Services) (name : Bytes) (d : Answer) (w : World)
    (r : Result Error ApplyResult × List Config)
    → w.request.status ≡ pending
    → UnchangedOr w (settle name w r) (
        act sv name
          (after_commit r.0)
          d
          (record w { configs = r.1; promoted = log_version r.0 w.promoted }))
unfolding act
after_commit-UnchangedOr sv name answered w (ok r, cs) h = inr (rw h refl)
after_commit-UnchangedOr sv name lost w (ok r, cs) h = inr (rw h refl)
after_commit-UnchangedOr sv name refused w (ok r, cs) h = inl (rw h refl)
after_commit-UnchangedOr sv name d w (err e, cs) h = inl refl

after_plan-UnchangedOr :
    (sv : Services) (name : Bytes) (c d : Answer) (w : World)
    (p : Result Error PlanResult × List Config)
    → w.request.status ≡ pending
    → let after = act sv name (after_plan p.0) c (record w { configs = p.1 }) in
      UnchangedOr w (settle name w (apply_plan p)) (act sv name after.1 d after.0)
unfolding act
after_plan-UnchangedOr sv name answered d w (ok p, cs) h =
    after_commit-UnchangedOr sv name d w (commit p p.changeset.changes cs) h
after_plan-UnchangedOr sv name lost d w (ok p, cs) h = inl refl
after_plan-UnchangedOr sv name refused d w (ok p, cs) h = inl refl
after_plan-UnchangedOr sv name c d w (err e, cs) h = inl refl

planning-UnchangedOr :
    (sv : Services) (name : Bytes) (b c d : Answer) (w : World)
    → w.request.status ≡ pending
    → let did_plan = act sv name (planning w.request.what) b w in
      let did_commit = act sv name did_plan.1 c did_plan.0 in
      UnchangedOr w
        (settle name w (apply sv w.request.what w.configs))
        (act sv name did_commit.1 d did_commit.0)
unfolding act apply
planning-UnchangedOr sv name answered c d w h =
    after_plan-UnchangedOr sv name c d w (plan sv w.request.what w.configs) h
planning-UnchangedOr sv name lost c d w h = inl refl
planning-UnchangedOr sv name refused c d w h = inl refl

reading-UnchangedOr :
    (sv : Services) (name : Bytes) (b c d : Answer) (w : World)
    → w.request.status ≡ pending
    → UnchangedOr w
        (settle name w (apply sv w.request.what w.configs))
        (four_calls sv name answered b c d w)
reading-UnchangedOr sv name b c d w h =
    rw (approving-planning sv name w h) (planning-UnchangedOr sv name b c d w h)

any_answers-UnchangedOr :
    (sv : Services) (name : Bytes) (a b c d : Answer) (w : World)
    → w.request.status ≡ pending
    → UnchangedOr w
        (settle name w (apply sv w.request.what w.configs))
        (four_calls sv name a b c d w)
unfolding act
any_answers-UnchangedOr sv name answered b c d w h = reading-UnchangedOr sv name b c d w h
any_answers-UnchangedOr sv name lost b c d w h = inl refl
any_answers-UnchangedOr sv name refused b c d w h = inl refl

-- `ApproveRequest` implements what it promises where nobody interferes: let one approver make its
-- four calls on a pending request, and let each be answered, lose its answer or be refused. If all
-- are answered, they are one `Apply` of what the request asks for, and the row becomes applied, with
-- the version that `Apply` reports, exactly if `Apply` succeeds; otherwise it stays pending. However
-- the calls end, the row is unchanged, or the row, the configs and the versions made are those
-- after that `Apply` with its mark.
pub four_calls-settle :
    (sv : Services) (name : Bytes) (a b c d : Answer) (w : World)
    → w.request.status ≡ pending
    → let promised = settle name w (apply sv w.request.what w.configs) in
      let after = four_calls sv name a b c d w in
      (four_calls sv name answered answered answered answered w ≡ promised)
      × ((after.0.request ≡ w.request) ⊎ (after.0 ≡ promised.0))
four_calls-settle sv name a b c d w h =
    (all_answered-settle sv name w h, any_answers-UnchangedOr sv name a b c d w h)

-- The approver commits, the other caller rejects, and the approver marks.
abbrev late_calls : List (ℕ × Answer)
late_calls = (0, answered) ∷ (1, answered) ∷ (0, answered) ∷ []

late-promoted :
    (sv : Services) (approver reviewer : Bytes) (w : World)
    (p : Result Error PlanResult × List Config) (r : ApplyResult) (cs : List Config)
    → w.request.status ≡ pending
    → apply_plan p ≡ (ok r, cs)
    → run sv late_calls
        (record w { configs = p.1 })
        (record { name = approver; stage = after_plan p.0 }
          ∷ record { name = reviewer; stage = rejecting }
          ∷ [])
      ≡ (
        record {
          request = record w.request { status = rejected; decided_by = reviewer };
          configs = cs;
          promoted = log_version (ok r) w.promoted;
        },
        record { name = approver; stage = conflict (some r) }
            ∷ record { name = reviewer; stage = decided rejected }
            ∷ [],
      )
unfolding run step_at act
late-promoted sv approver reviewer w (ok p, cs0) r cs h e = rw (h, e) refl
late-promoted sv approver reviewer w (err x, cs0) r cs h e = cc

-- The approver reads, plans and commits, then the other caller rejects, and the approver goes on.
abbrev pub late_rejection : List (ℕ × Answer)
late_rejection = (0, answered) ∷ (0, answered) ∷ late_calls

-- A rejection that is reported as successful does not mean that nothing was promoted: if a request
-- can be applied, and another caller rejects it after the approver's promotion has been committed
-- and before the row is marked, then the row is rejected and the configs are those after `Apply`,
-- although every call works.
pub late_rejection-promoted :
    (sv : Services) (approver reviewer : Bytes) (w : World) (r : ApplyResult) (cs : List Config)
    → w.request.status ≡ pending
    → apply sv w.request.what w.configs ≡ (ok r, cs)
    → run sv late_rejection w (
        record { name = approver; stage = approving }
        ∷ record { name = reviewer; stage = rejecting }
        ∷ [])
      ≡ (
        record {
          request = record w.request { status = rejected; decided_by = reviewer };
          configs = cs;
          promoted = log_version (ok r) w.promoted;
        },
        record { name = approver; stage = conflict (some r) }
            ∷ record { name = reviewer; stage = decided rejected }
            ∷ [],
      )
unfolding run step_at apply
late_rejection-promoted sv approver reviewer w r cs h e =
    rw (approving-planning sv approver w h, planning-planned sv approver w.request.what w)
      (late-promoted sv approver reviewer w (plan sv w.request.what w.configs) r cs h e)
