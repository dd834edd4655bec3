-- ===== src/Promote/Plan/Retry.antt =====
-- A plan that creates its target leaves it behind, whatever becomes of the plan.
use janus_secrets.Common.{
  ◌≡◌, refl, true, false, List, [], ◌∷◌, arith, Bytes, bytes_eq, bytes_eq_refl, ok, err,
}
use janus_secrets.Promote.State.{already_exists, Config, Services, find_config, project_and_env}
use janus_secrets.Promote.Plan.{ApplyRequest, create_config, plan}

create_config-again :
    (sv : Services) (env name : Bytes) (cs : List Config) (c : Config)
    → create_config sv env name cs ≡ ok c
    → create_config sv env name (c ∷ cs) ≡ err already_exists
unfolding create_config
create_config-again sv env name cs c h =
    let at_env : c.env_id ≡ env = ground arith in
    let at_name : c.name ≡ name = ground arith in
    rw (at_env, at_name, bytes_eq_refl env, bytes_eq_refl name) refl

create_config-id :
    (sv : Services) (env name : Bytes) (cs : List Config) (c : Config)
    → create_config sv env name cs ≡ ok c
    → c.id ≡ sv.new_id cs
unfolding create_config
create_config-id sv env name cs c h = ground arith

project_and_env-cons :
    (sv : Services) (id : Bytes) (c : Config) (cs : List Config)
    → bytes_eq id c.id ≡ false
    → project_and_env sv id (c ∷ cs) ≡ project_and_env sv id cs
unfolding project_and_env find_config
project_and_env-cons sv id c cs h = rw h refl

-- Let a `Plan` that is asked to create its target get as far as creating it, under an id that is not
-- the source's. Whatever the plan returns, also where it fails at a later check, the new config
-- stays, so the same `Plan` again fails: the name is taken.
pub plan-again :
    (sv : Services) (req : ApplyRequest) (cs : List Config) (from : Bytes × Bytes) (c : Config)
    → req.target_config_id ≡ []
    → req.create_target ≡ true
    → project_and_env sv req.source_config_id cs ≡ ok from
    → create_config sv req.target_env_id req.target_name cs ≡ ok c
    → bytes_eq req.source_config_id (sv.new_id cs) ≡ false
    → ((plan sv req cs).1 ≡ c ∷ cs) × ((plan sv req (plan sv req cs).1).0 ≡ err already_exists)
unfolding plan bytes_eq
plan-again sv req cs from c t b p made fresh =
    let left : (plan sv req cs).1 ≡ c ∷ cs = rw (p, t, b, made) refl in
    let other : bytes_eq req.source_config_id c.id ≡ false =
      rw (create_config-id sv req.target_env_id req.target_name cs c made) fresh in
    (
      left,
      rw left (
          rw
            (
              project_and_env-cons sv req.source_config_id c cs other,
              p,
              t,
              b,
              create_config-again sv req.target_env_id req.target_name cs c made,
            )
            refl),
    )
