-- ===== src/Promote/Plan.antt =====
-- The changeset of a promotion and its commit (`Plan`, `Apply` in internal/promote/service.go,
-- `SetSecrets` in internal/secrets/secrets.go). The type of a secret is left out, and so are the
-- message and the provenance mark of the new version.
pub mod Converges
pub mod Guards
pub mod Retry
use janus_secrets.Common.{
  ℕ, ◌+◌, Bool, true, false, ◌&&◌, ◌||◌, not, Option, none, some, List, [], ◌∷◌, ◌++◌, any, length,
  leb, ltb, ◌==◌, if◌then◌else◌, Bytes, bytes_eq, Values, lookup, delete, put, Result, ok, err,
  ◌>>=◌, ◌>>◌, reject_if,
}
use janus_secrets.Promote.State.{
  Error, illegal_step, locked_key, already_exists, invalid_key, Config, Services, find_config,
  get_config, project_and_env, validate_step, reveal_version,
}

-- An action that is neither of the two is passed over.
pub data Action : Type 0 where
  set_key remove_key other_action : Action

pub record Selection : Type 0 where
  pub key : Bytes
  pub action : Action

-- `SecretChange`: a value that is set, or a key that is deleted.
pub data Change : Type 0 where
  set_value : Bytes → Bytes → Change
  delete_key : Bytes → Change

pub record ApplyRequest : Type 0 where
  pub source_config_id : Bytes
  pub target_config_id : Bytes
  pub target_env_id : Bytes
  pub target_name : Bytes
  pub create_target : Bool
  pub source_version : ℕ
  pub selections : List Selection

pub record Changeset : Type 0 where
  pub changes : List Change
  pub applied : List Selection
  pub skipped : List Bytes

pub record PlanResult : Type 0 where
  pub target_id : Bytes
  pub source_env : Bytes
  pub version : ℕ
  pub changeset : Changeset

abbrev add_change : Change → Selection → Changeset → Changeset
add_change c s r = record { changes = c ∷ r.changes; applied = s ∷ r.applied; skipped = r.skipped }

abbrev select_one : Action → Option Bytes → Selection → Changeset → Changeset
select_one remove_key v s r = add_change (delete_key s.key) s r
select_one set_key (some v) s r = add_change (set_value s.key v) s r
select_one set_key none s r = record r { skipped = s.key ∷ r.skipped }
select_one other_action v s r = r

-- The loop over the selections, on the pinned source values.
unfoldable pub select_changes : Values → List Selection → Changeset
select_changes src [] = record { changes = []; applied = []; skipped = [] }
select_changes src (s ∷ sels) = select_one s.action (lookup s.key src) s (select_changes src sels)

-- `AreLocked` and the loop that rejects a locked key.
unfoldable pub any_locked : List Bytes → List Selection → Bool
any_locked locked sels = any (λ s. any (bytes_eq s.key) locked) sels

-- `configs.Create`: the name of a config is unique in its environment.
unfoldable pub create_config : Services → Bytes → Bytes → List Config → Result Error Config
create_config sv env name cs =
    if any (λ c. bytes_eq c.env_id env && bytes_eq c.name name) cs
    then err already_exists
    else ok (record { id = sv.new_id cs; env_id = env; name = name; versions = [] })

-- The rest of `Plan`, once the target is there.
unfoldable pub plan_target :
    Services → ApplyRequest → Bytes × Bytes → List Config → Bytes → Result Error PlanResult
plan_target sv req from cs target = do
  to ← project_and_env sv target cs
  validate_step sv from.0 from.1 to.1
  reject_if (any_locked (sv.locked target) req.selections) locked_key
  src ← reveal_version req.source_config_id req.source_version cs
  ok (record {
    target_id = target;
    source_env = from.1;
    version = req.source_version;
    changeset = select_changes src req.selections;
  })

abbrev plan_created :
    Services
    → ApplyRequest
    → Bytes × Bytes
    → List Config
    → Result Error Config
    → Result Error PlanResult × List Config
plan_created sv req from cs (err e) = (err e, cs)
plan_created sv req from cs (ok c) = (plan_target sv req from (c ∷ cs) c.id, c ∷ cs)

abbrev plan_from :
    Services
    → ApplyRequest
    → List Config
    → Result Error (Bytes × Bytes)
    → Result Error PlanResult × List Config
plan_from sv req cs (err e) = (err e, cs)
plan_from sv req cs (ok from) =
    if bytes_eq req.target_config_id [] && req.create_target
    then plan_created sv req from cs (create_config sv req.target_env_id req.target_name cs)
    else (plan_target sv req from cs req.target_config_id, cs)

-- `Plan`: its result, and the configs afterwards. What is created stays, whatever fails later.
unfoldable pub plan : Services → ApplyRequest → List Config → Result Error PlanResult × List Config
plan sv req cs = plan_from sv req cs (project_and_env sv req.source_config_id cs)

-- `validateKey`
key_char : ℕ → Bool
key_char c =
    c == 46
    || c == 95
    || c == 45
    || (leb 97 c && leb c 122)
    || (leb 65 c && leb c 90)
    || (leb 48 c && leb c 57)

unfoldable pub valid_key : Bytes → Bool
unfolding key_char
valid_key k =
    not (bytes_eq k [])
    && leb (length k) 255
    && not (bytes_eq k (46 ∷ []))
    && not (bytes_eq k (46 ∷ 46 ∷ []))
    && not (any (λ c. not (key_char c)) k)

abbrev change_key : Change → Bytes
change_key (set_value k v) = k
change_key (delete_key k) = k

-- One change. The store first collapses a batch to the last change of each key, which is what a
-- change has left of the earlier ones of its key here.
unfoldable pub apply_change : Change → Values → Values
apply_change (set_value k v) m = put k v m
apply_change (delete_key k) m = delete k m

unfoldable pub apply_changes : List Change → Values → Values
apply_changes [] m = m
apply_changes (c ∷ cs) m = apply_changes cs (apply_change c m)

-- The values that a new version starts from.
abbrev pub live_values : List Values → Values
live_values [] = []
live_values (v ∷ vs) = v

abbrev add_version : List Change → Config → Config
add_version changes c = record c {
  versions = apply_changes changes (live_values c.versions) ∷ c.versions;
}

unfoldable pub update_config : Bytes → List Change → List Config → List Config
update_config id changes [] = []
update_config id changes (c ∷ cs) =
    let rest = update_config id changes cs in
    if bytes_eq id c.id then add_version changes c ∷ cs else c ∷ rest

-- `SetSecrets`: the number of the new version, and the configs with it.
unfoldable pub set_secrets : Bytes → List Change → List Config → Result Error (ℕ × List Config)
unfolding valid_key
set_secrets id changes cs = do
  reject_if (any (λ c. not (valid_key (change_key c))) changes) invalid_key
  c ← get_config id cs
  ok (length c.versions + 1, update_config id changes cs)

pub record ApplyResult : Type 0 where
  pub target_version : ℕ
  pub applied : List Selection
  pub skipped : List Bytes

abbrev committed :
    Changeset
    → List Config
    → Result Error (ℕ × List Config)
    → Result Error ApplyResult × List Config
committed r cs (err e) = (err e, cs)
committed r cs (ok v) =
    (ok (record { target_version = v.0; applied = r.applied; skipped = r.skipped }), v.1)

-- A changeset without a change commits nothing.
abbrev pub commit : PlanResult → List Change → List Config → Result Error ApplyResult × List Config
commit p [] cs = (
  ok (record { target_version = 0; applied = p.changeset.applied; skipped = p.changeset.skipped }),
  cs,
)
commit p (c ∷ changes) cs = committed p.changeset cs (set_secrets p.target_id (c ∷ changes) cs)

abbrev pub apply_plan :
    Result Error PlanResult × List Config → Result Error ApplyResult × List Config
apply_plan (err e, cs) = (err e, cs)
apply_plan (ok p, cs) = commit p p.changeset.changes cs

-- `Apply`
unfoldable pub apply :
    Services → ApplyRequest → List Config → Result Error ApplyResult × List Config
apply sv req cs = apply_plan (plan sv req cs)
