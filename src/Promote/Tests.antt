-- ===== src/Promote/Tests.antt =====
-- Runs of a promotion from one environment to the next, and uses of its theorems.
use janus_secrets.Common.{
  ℕ, ◌≤◌, ◌⊎◌, some, inl, inr, ◌≡◌, refl, true, false, List, [], ◌∷◌, codes, bytes_eq, Values,
  lookup, ok, err,
}
use janus_secrets.Promote.State.{
  illegal_step, Config, Services, project_and_env, find_config, next_env, validate_step,
  reveal_version, version_at,
}
use janus_secrets.Promote.Plan.{
  ApplyRequest, ApplyResult, set_key, select_changes, any_locked, create_config, plan, plan_target,
  apply, set_secrets, valid_key,
}
use janus_secrets.Promote.Plan.Guards.{current, apply-locked}
use janus_secrets.Promote.Requests.{
  pending, rejected, World, approving, rejecting, decided, conflict, Caller, Answer, answered, lost,
  refused, run,
}
use janus_secrets.Promote.Requests.Calls.{deciders, decisions, AllAgree, Real}
use janus_secrets.Promote.Requests.Decided.{run-DecidedOnce}
use janus_secrets.Promote.Requests.Alone.{
  settle, four_calls, four_calls-settle, late_rejection, late_rejection-promoted,
}

abbrev source_values : Values
source_values = (codes "A", codes "1") ∷ (codes "B", codes "2") ∷ []

abbrev target_secrets : Values
target_secrets = (codes "B", codes "0") ∷ (codes "C", codes "3") ∷ []

abbrev dev : Config
dev = record {
  id = codes "c1";
  env_id = codes "dev";
  name = codes "api";
  versions = source_values ∷ [];
}

abbrev prod : Config
prod = record {
  id = codes "c2";
  env_id = codes "prod";
  name = codes "api";
  versions = target_secrets ∷ [];
}

abbrev configs : List Config
configs = dev ∷ prod ∷ []

abbrev services : Services
services = record {
  project_of = λ env. ok (codes "p");
  pipeline = λ project. codes "dev" ∷ codes "prod" ∷ [];
  locked = λ config. codes "C" ∷ [];
  new_id = λ cs. codes "c3";
}

abbrev request : ApplyRequest
request = record {
  source_config_id = codes "c1";
  target_config_id = codes "c2";
  target_env_id = [];
  target_name = [];
  create_target = false;
  source_version = 1;
  selections = record { key = codes "A"; action = set_key } ∷ [];
}

-- A target that would be created in an environment that is not the next one.
abbrev wrong_step : ApplyRequest
wrong_step = record request {
  target_config_id = [];
  target_env_id = codes "dev";
  target_name = codes "copy";
  create_target = true;
}

abbrev created : Config
created = record { id = codes "c3"; env_id = codes "dev"; name = codes "copy"; versions = [] }

wrong_step_leaves_a_config :
    plan services wrong_step configs ≡ (err illegal_step, created ∷ configs)
unfolding plan project_and_env find_config bytes_eq create_config plan_target validate_step next_env
wrong_step_leaves_a_config = refl

request_is_applied :
    (apply services request configs).0
    ≡ ok (record {
      target_version = 2;
      applied = record { key = codes "A"; action = set_key } ∷ [];
      skipped = [];
    })
unfolding apply plan project_and_env find_config bytes_eq plan_target validate_step next_env
    any_locked reveal_version version_at select_changes lookup set_secrets valid_key
request_is_applied = refl

apply-locked_example :
    current (codes "c2") (codes "C") (apply services request configs).1
    ≡ current (codes "c2") (codes "C") configs
unfolding bytes_eq
apply-locked_example = apply-locked services request configs (codes "C") refl refl

abbrev asked : World
asked = record {
  request = record {
    what = request;
    status = pending;
    decided_by = [];
    applied_target_version = 0;
  };
  configs = configs;
  promoted = [];
}

abbrev reviewers : List Caller
reviewers =
    record { name = codes "ann"; stage = approving }
    ∷ record { name = codes "bob"; stage = approving }
    ∷ record { name = codes "eve"; stage = rejecting }
    ∷ []

-- Ann's mark has its answer lost after Bob has planned, and Eve comes too late.
abbrev contended : List (ℕ × Answer)
contended =
    (0, answered)
    ∷ (1, answered)
    ∷ (0, answered)
    ∷ (1, answered)
    ∷ (0, answered)
    ∷ (1, refused)
    ∷ (0, lost)
    ∷ (2, answered)
    ∷ []

run-DecidedOnce_example :
    let after = run services contended asked reviewers in
    (deciders after.1 ≤ decisions after.0.request.status) × AllAgree after.0 after.1 × Real after.0
run-DecidedOnce_example =
    run-DecidedOnce services contended asked reviewers refl
      (inl refl, (inl refl, (inr (inl refl), tt)))

abbrev promotion : ApplyResult
promotion = record {
  target_version = 2;
  applied = record { key = codes "A"; action = set_key } ∷ [];
  skipped = [];
}

-- The answer of the mark is lost.
four_calls-settle_example :
    let promised = settle (codes "ann") asked (apply services request configs) in
    let after = four_calls services (codes "ann") answered answered answered lost asked in
    (four_calls services (codes "ann") answered answered answered answered asked ≡ promised)
    × ((after.0.request ≡ asked.request) ⊎ (after.0 ≡ promised.0))
four_calls-settle_example =
    four_calls-settle services (codes "ann") answered answered answered lost asked refl

late_rejection-promoted_example :
    run services late_rejection asked (
      record { name = codes "ann"; stage = approving }
      ∷ record { name = codes "eve"; stage = rejecting }
      ∷ [])
    ≡ (
      record {
        request = record asked.request { status = rejected; decided_by = codes "eve" };
        configs = (apply services request configs).1;
        promoted = 2 ∷ [];
      },
      record { name = codes "ann"; stage = conflict (some promotion) }
          ∷ record { name = codes "eve"; stage = decided rejected }
          ∷ [],
    )
unfolding apply plan project_and_env find_config bytes_eq plan_target validate_step next_env
    any_locked reveal_version version_at select_changes lookup set_secrets valid_key
late_rejection-promoted_example =
    late_rejection-promoted services (codes "ann") (codes "eve") asked promotion
      (apply services request configs).1 refl refl
