-- ===== src/Promote/State.antt =====
-- The configs that a promotion reads and writes, with the checks of its step
-- (internal/promote/service.go, internal/store/promotion.go). A version's values stand for what the
-- secrets service decrypts.
use janus_secrets.Common.{
  ℕ, not, Option, none, some, List, [], ◌∷◌, length, ◌==◌, if◌then◌else◌, Bytes, bytes_eq, Values,
  Result, ok, err, ◌>>=◌, reject_if,
}

pub data Error : Type 0 where
  illegal_step locked_key no_pipeline not_found already_exists : Error
  invalid_key : Error

-- A config with its versions, the newest first.
pub record Config : Type 0 where
  pub id : Bytes
  pub env_id : Bytes
  pub name : Bytes
  pub versions : List Values

-- What a promotion reads besides the configs: the project of an environment, the pipelines, the
-- locked keys of a config, and the id that the store gives to the next config.
pub record Services : Type 0 where
  pub project_of : Bytes → Result Error Bytes
  pub pipeline : Bytes → List Bytes
  pub locked : Bytes → List Bytes
  pub new_id : List Config → Bytes

unfoldable pub find_config : Bytes → List Config → Option Config
find_config id [] = none
find_config id (c ∷ cs) = let rest = find_config id cs in if bytes_eq id c.id then some c else rest

abbrev pub found_config : Option Config → Result Error Config
found_config none = err not_found
found_config (some c) = ok c

-- `configs.Get`
abbrev pub get_config : Bytes → List Config → Result Error Config
get_config id cs = found_config (find_config id cs)

-- `projectAndEnv`
unfoldable pub project_and_env : Services → Bytes → List Config → Result Error (Bytes × Bytes)
project_and_env sv id cs = do
  c ← get_config id cs
  project ← sv.project_of c.env_id
  ok (project, c.env_id)

-- `NextEnv`: the environment after a given one; `none` at the last one and outside the pipeline.
unfoldable pub next_env : List Bytes → Bytes → Option Bytes
next_env [] e = none
next_env (x ∷ []) e = none
next_env (x ∷ y ∷ steps) e =
    let rest = next_env (y ∷ steps) e in if bytes_eq x e then some y else rest

abbrev step_error : List Bytes → Error
step_error [] = no_pipeline
step_error (x ∷ steps) = illegal_step

abbrev check_next : List Bytes → Bytes → Option Bytes → Result Error (Unit {0})
check_next steps dst none = err (step_error steps)
check_next steps dst (some next) = reject_if (not (bytes_eq next dst)) illegal_step

-- `validateStep`
unfoldable pub validate_step : Services → Bytes → Bytes → Bytes → Result Error (Unit {0})
validate_step sv project src dst =
    check_next (sv.pipeline project) dst (next_env (sv.pipeline project) src)

-- The values of the newest version, with its number; a config without a version is not found.
abbrev pub latest_of_config : List Values → Result Error (ℕ × Values)
latest_of_config [] = err not_found
latest_of_config (v ∷ vs) = ok (length (v ∷ vs), v)

-- The values of a version by its number.
unfoldable pub version_at : ℕ → List Values → Result Error Values
version_at n [] = err not_found
version_at n (v ∷ vs) = let rest = version_at n vs in if length (v ∷ vs) == n then ok v else rest

-- `RevealConfig` and `RevealConfigVersion`
unfoldable pub reveal : Bytes → List Config → Result Error (ℕ × Values)
reveal id cs = get_config id cs >>= λ c. latest_of_config c.versions

unfoldable pub reveal_version : Bytes → ℕ → List Config → Result Error Values
reveal_version id n cs = get_config id cs >>= λ c. version_at n c.versions
