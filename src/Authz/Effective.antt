-- ===== src/Authz/Effective.antt =====
-- The permission set of a principal, split by where it holds (internal/authz/effective.go).
pub mod Scopes
pub mod Reach
pub mod Members
pub mod Agrees
use janus_secrets.Common.{
  ℕ, String, Bool, true, false, ◌&&◌, ◌||◌, Option, none, some, List, [], ◌∷◌, ◌++◌, any, str_eq,
  keep, if◌then◌else◌, sort_strings, Result, ok, err, ◌>>=◌,
}
use janus_secrets.Authz.Actions.{Action, ActionSet, owner_actions, union}
use janus_secrets.Authz.Scope.{
  Resource, instance_scope, TokenScope, RoleBinding, BreakGlassGrant, token_allows, user_allows,
}
use janus_secrets.Authz.Engine.{
  Engine, Error, Principal, PrincipalKind, bindings_for, grants_of, grants_allow,
}

unfoldable pub all_actions : List Action
all_actions = sort_strings owner_actions

pub record Effective : Type 0 where
  pub at_instance : List Action
  pub anywhere : List Action

abbrev pub no_effect : Effective
no_effect = record { at_instance = []; anywhere = [] }

unfoldable pub token_resource : TokenScope → Resource
token_resource s =
    if str_eq s.kind "config"
    then record instance_scope { config_id = s.id }
    else if str_eq s.kind "environment"
    then record instance_scope { env_id = s.id }
    else if str_eq s.kind "transit"
    then record instance_scope { transit_key = s.id }
    else instance_scope

-- `==` of two structs.
abbrev pub resource_eq : Resource → Resource → Bool
resource_eq r s =
    str_eq r.project_id s.project_id
    && (str_eq r.env_id s.env_id
        && (str_eq r.config_id s.config_id && str_eq r.transit_key s.transit_key))

-- `add`: `seen` has exactly the resources of `out`.
pub add_scope : List Resource → Resource → List Resource
add_scope out r =
    if resource_eq r instance_scope || any (resource_eq r) out then out else out ++ r ∷ []

-- The candidate of one row: its own scope, unless that is the instance.
abbrev pub own_scope : String → Option String → Option String → Option Resource
own_scope level project_id environment_id =
    if str_eq level "project"
    then elim project_id [ none ↦ none | some p ↦ some (record instance_scope { project_id = p }) ]
    else if str_eq level "environment"
    then elim environment_id [ none ↦ none | some v ↦ some (record instance_scope { env_id = v }) ]
    else none

abbrev add_own : List Resource → Option Resource → List Resource
add_own out none = out
add_own out (some r) = add_scope out r

scopes_of_bindings : List Resource → List RoleBinding → List Resource
unfolding add_scope
scopes_of_bindings out [] = out
scopes_of_bindings out (b ∷ bs) =
    scopes_of_bindings (add_own out (own_scope b.scope_level b.project_id b.environment_id)) bs

scopes_of_grants : List Resource → List BreakGlassGrant → List Resource
unfolding add_scope
scopes_of_grants out [] = out
scopes_of_grants out (g ∷ gs) =
    scopes_of_grants (add_own out (own_scope g.scope_level g.project_id g.environment_id)) gs

unfoldable pub candidate_scopes : List RoleBinding → List BreakGlassGrant → List Resource
unfolding scopes_of_bindings scopes_of_grants
candidate_scopes bindings grants = scopes_of_grants (scopes_of_bindings [] bindings) grants

-- The loop that joins what each candidate allows.
abbrev pub union_over : (Resource → ActionSet) → ActionSet → List Resource → ActionSet
union_over allow acc [] = acc
union_over allow acc (r ∷ rs) = union_over allow (union acc (allow r)) rs

-- The closure `allow` of each kind of principal.
abbrev pub user_allow : List RoleBinding → List BreakGlassGrant → ℕ → Resource → ActionSet
user_allow bindings grants now res =
    keep (λ a. user_allows bindings a res || grants_allow grants now a res) all_actions

abbrev pub token_allow : TokenScope → Resource → ActionSet
token_allow scope res = keep (λ a. token_allows scope a res) all_actions

pub user_effective : List RoleBinding → List BreakGlassGrant → ℕ → Effective
user_effective bindings grants now =
    let allow = user_allow bindings grants now in
    record {
      at_instance = sort_strings (allow instance_scope);
      anywhere =
          sort_strings (union_over allow (allow instance_scope) (candidate_scopes bindings grants));
    }

pub effective_user : Engine → String → Result Error Effective
unfolding user_effective
effective_user e id = do
  bindings ← bindings_for e id
  grants ← grants_of e id
  ok (user_effective bindings grants e.now)

pub token_effective : TokenScope → Effective
token_effective scope =
    let allow = token_allow scope in
    record {
      at_instance = sort_strings (allow instance_scope);
      anywhere = sort_strings (union (allow instance_scope) (allow (token_resource scope)));
    }

pub effective_token : Option TokenScope → Result Error Effective
unfolding token_effective
effective_token none = ok no_effect
effective_token (some scope) = ok (token_effective scope)

pub effective_kind : PrincipalKind → Engine → String → Option TokenScope → Result Error Effective
unfolding effective_user effective_token
effective_kind PrincipalKind.service_token e id scope = effective_token scope
effective_kind PrincipalKind.user e id scope = effective_user e id
effective_kind (PrincipalKind.other_kind k) e id scope = ok no_effect

unfoldable pub effective : Engine → Principal → Option TokenScope → Result Error Effective
unfolding effective_kind
effective e p scope = effective_kind p.kind e p.id scope
