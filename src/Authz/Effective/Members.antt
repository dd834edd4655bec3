-- ===== src/Authz/Effective/Members.antt =====
-- What the permission set of a user or a token contains, by the rules of `Can`.
use janus_secrets.Common.{
  ℕ, String, ◌≡◌, refl, ◌∙◌, true, ◌||◌, List, [], ◌∷◌, any, any_ext, contains, contains-keep,
  contains_of_subset, contains-sort_strings, eq_iff, arith, ok,
}
use janus_secrets.Authz.Actions.{
  Action, owner_actions, union, insert, admin_actions, developer_actions, viewer_actions,
  developer_added, admin_added, owner_added,
}
use janus_secrets.Authz.Actions.Sets.{contains-union}
use janus_secrets.Authz.Scope.{
  Resource, instance_scope, TokenScope, RoleBinding, BreakGlassGrant, token_allows,
  token_capabilities, transit_token_capabilities,
}
use janus_secrets.Authz.Engine.{Engine, bindings_for, grants_of}
use janus_secrets.Authz.Effective.{
  Effective, effective_user, all_actions, user_effective, token_effective, candidate_scopes,
  user_allow, token_allow, token_resource,
}
use janus_secrets.Authz.Effective.Reach.{allows, contains-user_allow, contains-union_over}

-- Every action that a token can have is an action of the owner.
token_capabilities-owner :
    (access : String) (a : Action)
    → contains a (token_capabilities access) ≡ true
    → contains a owner_actions ≡ true
unfolding owner_actions admin_actions developer_actions viewer_actions developer_added admin_added
    owner_added union insert
token_capabilities-owner access a h =
    contains_of_subset a ("secret:read" ∷ "config:read" ∷ "secret:write" ∷ []) owner_actions refl
      (unfold token_capabilities in ground arith)

transit_token_capabilities-owner :
    (access : String) (a : Action)
    → contains a (transit_token_capabilities access) ≡ true
    → contains a owner_actions ≡ true
unfolding owner_actions admin_actions developer_actions viewer_actions developer_added admin_added
    owner_added union insert
transit_token_capabilities-owner access a h =
    contains_of_subset a ("transit:read" ∷ "transit:use" ∷ "transit:manage" ∷ []) owner_actions refl
      (unfold transit_token_capabilities in ground arith)

token_allows-owner :
    (s : TokenScope) (a : Action) (res : Resource)
    → token_allows s a res ≡ true
    → contains a owner_actions ≡ true
unfolding token_allows
token_allows-owner s a res h =
    ground (arith, token_capabilities-owner s.access a, transit_token_capabilities-owner s.access a)

-- A token that reaches some resource reaches its own.
pub token_allows-token_resource :
    (s : TokenScope) (a : Action) (res : Resource)
    → token_allows s a res ≡ true
    → token_allows s a (token_resource s) ≡ true
unfolding token_allows token_resource
token_allows-token_resource s a res h =
    ground (arith, eq_iff res.config_id s.id, eq_iff res.env_id s.id, eq_iff s.id s.id)

contains-token_allow :
    (s : TokenScope) (a : Action) (res : Resource)
    → contains a (token_allow s res) ≡ token_allows s a res
unfolding all_actions
contains-token_allow s a res =
    rw contains-keep (rw contains-sort_strings (ground (arith, token_allows-owner s a res)))

pub user_effective-at_instance :
    (bs : List RoleBinding) (gs : List BreakGlassGrant) (now : ℕ) (a : Action)
    → contains a (user_effective bs gs now).at_instance ≡ allows bs gs now a instance_scope
unfolding user_effective
user_effective-at_instance bs gs now a =
    contains-sort_strings a (user_allow bs gs now instance_scope)
    ∙ contains-user_allow bs gs now a instance_scope

pub user_effective-anywhere :
    (bs : List RoleBinding) (gs : List BreakGlassGrant) (now : ℕ) (a : Action)
    → contains a (user_effective bs gs now).anywhere
      ≡ (allows bs gs now a instance_scope || any (allows bs gs now a) (candidate_scopes bs gs))
unfolding user_effective
user_effective-anywhere bs gs now a =
    rw
      (
        contains-sort_strings,
        contains-union_over,
        contains-user_allow bs gs now a instance_scope,
        any_ext (λ r. contains a (user_allow bs gs now r)) (allows bs gs now a)
            (candidate_scopes bs gs) (contains-user_allow bs gs now a),
      )
      refl

pub token_effective-at_instance :
    (s : TokenScope) (a : Action)
    → contains a (token_effective s).at_instance ≡ token_allows s a instance_scope
unfolding token_effective
token_effective-at_instance s a =
    contains-sort_strings a (token_allow s instance_scope) ∙ contains-token_allow s a instance_scope

pub token_effective-anywhere :
    (s : TokenScope) (a : Action)
    → contains a (token_effective s).anywhere
      ≡ (token_allows s a instance_scope || token_allows s a (token_resource s))
unfolding token_effective
token_effective-anywhere s a =
    rw
      (
        contains-sort_strings,
        contains-union,
        contains-token_allow s a instance_scope,
        contains-token_allow s a (token_resource s),
      )
      refl

pub effective_user-eq_ok :
    (e : Engine) (id : String) {eff : Effective}
    → effective_user e id ≡ ok eff
    → (bs : List RoleBinding) × (gs : List BreakGlassGrant) × (bindings_for e id ≡ ok bs)
      × (grants_of e id ≡ ok gs)
      × (eff ≡ user_effective bs gs e.now)
unfolding effective_user
effective_user-eq_ok e id h = ground arith
