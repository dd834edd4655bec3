-- ===== src/Promote/Plan/Guards.antt =====
-- What a promotion may write: no locked key, and of the configs only the target.
use janus_secrets.Common.{
  ℕ, ◌≡◌, refl, ◌∙◌, inl, inr, Bool-cases, true, false, Option, none, some, List, [], ◌∷◌, any,
  arith, Bytes, bytes_eq, bytes_eq-eq, Values, lookup, put, lookup-delete_other, Result, ok, err,
  reject_if-eq_ok, >>=-eq-ok,
}
use janus_secrets.Promote.State.{
  Error, locked_key, Config, Services, find_config, get_config, project_and_env, validate_step,
  reveal_version,
}
use janus_secrets.Promote.Plan.{
  Action, Selection, Change, set_value, delete_key, set_key, remove_key, other_action, Changeset,
  ApplyRequest, PlanResult, select_changes, select_one, any_locked, plan_target, plan_from, plan,
  change_key, apply_change, apply_changes, live_values, add_version, update_config, set_secrets,
  committed, commit, apply_plan, apply,
}

-- No change is of the key.
abbrev Leaves : Bytes → List Change → Type 0
Leaves k [] = Unit
Leaves k (c ∷ cs) = (bytes_eq k (change_key c) ≡ false) × Leaves k cs

apply_change-Leaves :
    (k : Bytes) (c : Change) (m : Values)
    → bytes_eq k (change_key c) ≡ false
    → lookup k (apply_change c m) ≡ lookup k m
unfolding apply_change put lookup
apply_change-Leaves k (set_value x v) m h = rw h (lookup-delete_other k x m h)
apply_change-Leaves k (delete_key x) m h = lookup-delete_other k x m h

apply_changes-Leaves :
    (k : Bytes) (cs : List Change) (m : Values)
    → Leaves k cs
    → lookup k (apply_changes cs m) ≡ lookup k m
unfolding apply_changes
apply_changes-Leaves k [] m h = refl
apply_changes-Leaves k (c ∷ cs) m h =
    apply_changes-Leaves k cs (apply_change c m) h.1 ∙ apply_change-Leaves k c m h.0

unlocked-other :
    (k x : Bytes) (locked : List Bytes)
    → any (bytes_eq k) locked ≡ true
    → any (bytes_eq x) locked ≡ false
    → bytes_eq k x ≡ false
unlocked-other k x locked l u = elim (Bool-cases (bytes_eq k x)) [
  | inl t ↦ let same = bytes_eq-eq k x t in cc (u, rw same at l)
  | inr f ↦ f
]

select_one-Leaves :
    (k : Bytes) (a : Action) (v : Option Bytes) (s : Selection) (r : Changeset)
    → bytes_eq k s.key ≡ false
    → Leaves k r.changes
    → Leaves k (select_one a v s r).changes
select_one-Leaves k remove_key v s r h l = (h, l)
select_one-Leaves k set_key (some v) s r h l = (h, l)
select_one-Leaves k set_key none s r h l = l
select_one-Leaves k other_action v s r h l = l

select_changes-Leaves :
    (k : Bytes) (src : Values) (locked : List Bytes) (sels : List Selection)
    → any (bytes_eq k) locked ≡ true
    → any_locked locked sels ≡ false
    → Leaves k (select_changes src sels).changes
unfolding select_changes any_locked
select_changes-Leaves k src locked [] l u = tt
select_changes-Leaves k src locked (s ∷ sels) l u =
    select_one-Leaves k s.action (lookup s.key src) s (select_changes src sels)
      (unlocked-other k s.key locked l (ground arith))
      (select_changes-Leaves k src locked sels l (ground arith))

find_config-update :
    (id : Bytes) (changes : List Change) (cs : List Config) (c : Config)
    → find_config id cs ≡ some c
    → find_config id (update_config id changes cs) ≡ some (add_version changes c)
unfolding find_config update_config
find_config-update id changes [] c h = cc
find_config-update id changes (d ∷ cs) c h = elim (Bool-cases (bytes_eq id d.id)) [
  | inl t ↦ let same : d ≡ c = ground arith in rw t (rw t (rw same refl))
  | inr f ↦ rw f (rw f (find_config-update id changes cs c (rw f at h)))
]

abbrev pub current_of : Bytes → Option Config → Option Bytes
current_of k none = none
current_of k (some c) = lookup k (live_values c.versions)

-- The value of a key in the newest version of a config.
abbrev pub current : Bytes → Bytes → List Config → Option Bytes
current id k cs = current_of k (find_config id cs)

found_config-eq_ok :
    (id : Bytes) (cs : List Config) (c : Config)
    → get_config id cs ≡ ok c
    → find_config id cs ≡ some c
found_config-eq_ok id cs c h = ground arith

set_secrets-eq_ok :
    (id : Bytes) (changes : List Change) (cs : List Config) (v : ℕ × List Config)
    → set_secrets id changes cs ≡ ok v
    → (c : Config) × (get_config id cs ≡ ok c) × (v.1 ≡ update_config id changes cs)
unfolding set_secrets
set_secrets-eq_ok id changes cs v h = ground arith

set_secrets-current :
    (id k : Bytes) (changes : List Change) (cs : List Config) (v : ℕ × List Config)
    → Leaves k changes
    → set_secrets id changes cs ≡ ok v
    → current id k v.1 ≡ current id k cs
set_secrets-current id k changes cs v l h =
    let (c, got, after) = set_secrets-eq_ok id changes cs v h in
    let found = found_config-eq_ok id cs c got in
    rw (after, find_config-update id changes cs c found, found)
      (apply_changes-Leaves k changes (live_values c.versions) l)

committed-current :
    (id k : Bytes) (r : Changeset) (cs : List Config) (m : Result Error (ℕ × List Config))
    → ((v : ℕ × List Config) → m ≡ ok v → current id k v.1 ≡ current id k cs)
    → current id k (committed r cs m).1 ≡ current id k cs
committed-current id k r cs (err e) h = refl
committed-current id k r cs (ok v) h = h v refl

commit-current :
    (p : PlanResult) (changes : List Change) (k : Bytes) (cs : List Config)
    → Leaves k changes
    → current p.target_id k (commit p changes cs).1 ≡ current p.target_id k cs
commit-current p [] k cs l = refl
commit-current p (c ∷ changes) k cs l =
    committed-current p.target_id k p.changeset cs (set_secrets p.target_id (c ∷ changes) cs)
      (λ v h. set_secrets-current p.target_id k (c ∷ changes) cs v l h)

plan_target-Leaves :
    (sv : Services) (req : ApplyRequest) (from : Bytes × Bytes) (cs : List Config)
    (target k : Bytes) (p : PlanResult)
    → any (bytes_eq k) (sv.locked target) ≡ true
    → plan_target sv req from cs target ≡ ok p
    → (p.target_id ≡ target) × Leaves k p.changeset.changes
unfolding plan_target
plan_target-Leaves sv req from cs target k p l h =
    let (to, _, rest) = >>=-eq-ok (project_and_env sv target cs) _ h in
    let (_, _, go) = >>=-eq-ok (validate_step sv from.0 from.1 to.1) _ rest in
    let (free, read) =
      reject_if-eq_ok (any_locked (sv.locked target) req.selections) locked_key _ go in
    let (src, _, last) =
      >>=-eq-ok (reveal_version req.source_config_id req.source_version cs) _ read in
    let changes : p.changeset ≡ select_changes src req.selections = cc in
    (cc, rw changes (select_changes-Leaves k src (sv.locked target) req.selections l free))

apply_plan-current :
    (m : Result Error PlanResult) (target k : Bytes) (cs : List Config)
    → ((p : PlanResult) → m ≡ ok p → (p.target_id ≡ target) × Leaves k p.changeset.changes)
    → current target k (apply_plan (m, cs)).1 ≡ current target k cs
apply_plan-current (err e) target k cs h = refl
apply_plan-current (ok p) target k cs h =
    let (at, l) = h p refl in rw (← at) (commit-current p p.changeset.changes k cs l)

apply_from-current :
    (sv : Services) (req : ApplyRequest) (cs : List Config) (m : Result Error (Bytes × Bytes))
    (k : Bytes)
    → bytes_eq req.target_config_id [] ≡ false
    → any (bytes_eq k) (sv.locked req.target_config_id) ≡ true
    → current req.target_config_id k (apply_plan (plan_from sv req cs m)).1
      ≡ current req.target_config_id k cs
apply_from-current sv req cs (err e) k t l = refl
apply_from-current sv req cs (ok from) k t l = rw t (
    apply_plan-current (plan_target sv req from cs req.target_config_id) req.target_config_id k cs
      (λ p h. plan_target-Leaves sv req from cs req.target_config_id k p l h))

-- An `Apply` to an existing target, whether it succeeds or fails, never changes or removes the
-- target's current value of a key that is locked on it.
pub apply-locked :
    (sv : Services) (req : ApplyRequest) (cs : List Config) (k : Bytes)
    → bytes_eq req.target_config_id [] ≡ false
    → any (bytes_eq k) (sv.locked req.target_config_id) ≡ true
    → current req.target_config_id k (apply sv req cs).1 ≡ current req.target_config_id k cs
unfolding apply plan
apply-locked sv req cs k t l =
    apply_from-current sv req cs (project_and_env sv req.source_config_id cs) k t l
