-- ===== src/Authz/Engine.antt =====
-- The engine's decision (internal/authz/engine.go). The stores are Go interfaces, here functions
-- that may fail; the optional ones are `none` where the source has nil. One decision reads the
-- clock once, so its value is a field.
pub mod Rules
use janus_secrets.Common.{
  ℕ, String, Bool, ◌&&◌, Option, none, some, List, [], ◌++◌, any, if◌then◌else◌, Result, ok, err,
  ◌>>=◌,
}
use janus_secrets.Authz.Actions.{Action, role_allows}
use janus_secrets.Authz.Scope.{
  Resource, TokenScope, RoleBinding, BreakGlassGrant, active, token_allows, grant_applies,
  user_allows,
}

-- `ErrForbidden`, or the error that a store returned.
pub data Error : Type 0 where
  forbidden : Error
  store_failed : String → Error

pub record Engine : Type 0 where
  pub bindings : String → Result Error (List RoleBinding)
  pub groups : Option (String → Result Error (List RoleBinding))
  pub grants : Option (String → ℕ → Result Error (List BreakGlassGrant))
  pub now : ℕ

pub data PrincipalKind : Type 0 where
  user service_token : PrincipalKind
  other_kind : String → PrincipalKind

pub record Principal : Type 0 where
  pub kind : PrincipalKind
  pub id : String

via_groups :
    Option (String → Result Error (List RoleBinding))
    → String
    → List RoleBinding
    → Result Error (List RoleBinding)
via_groups none user_id direct = ok direct
via_groups (some list_for_user) user_id direct = do
  derived ← list_for_user user_id
  ok (direct ++ derived)

-- Direct bindings and those of the user's groups. An error of the group store is returned.
unfoldable pub bindings_for : Engine → String → Result Error (List RoleBinding)
unfolding via_groups
bindings_for e user_id = do direct ← e.bindings user_id; via_groups e.groups user_id direct

-- The grant rule over rows already read.
unfoldable pub grants_allow : List BreakGlassGrant → ℕ → Action → Resource → Bool
grants_allow gs now action res =
    any (λ g. active g now && (grant_applies g res && role_allows g.elevated_role action)) gs

-- The grants that the store lists; none where there is no grant store.
unfoldable pub grants_of : Engine → String → Result Error (List BreakGlassGrant)
grants_of e user_id = elim e.grants [ none ↦ ok [] | some list_active ↦ list_active user_id e.now ]

grant_allows : Engine → String → Action → Resource → Result Error Bool
unfolding grants_of
grant_allows e user_id action res = do
  gs ← grants_of e user_id
  ok (grants_allow gs e.now action res)

can_user : Engine → String → Action → Resource → Result Error (Unit {0})
unfolding grant_allows
can_user e user_id action res = do
  bindings ← bindings_for e user_id
  let fallback =
      grant_allows e user_id action res >>= λ allowed. if allowed then ok tt else err forbidden
  if user_allows bindings action res then ok tt else fallback

can_token : Option TokenScope → Action → Resource → Result Error (Unit {0})
can_token none action res = err forbidden
can_token (some scope) action res = if token_allows scope action res then ok tt else err forbidden

can_kind :
    PrincipalKind
    → Engine
    → String
    → Option TokenScope
    → Action
    → Resource
    → Result Error (Unit {0})
unfolding can_user can_token
can_kind PrincipalKind.service_token e id scope action res = can_token scope action res
can_kind PrincipalKind.user e id scope action res = can_user e id action res
can_kind (PrincipalKind.other_kind k) e id scope action res = err forbidden

-- `Can`: success, or `ErrForbidden`, or a store's error.
unfoldable pub can :
    Engine → Principal → Option TokenScope → Action → Resource → Result Error (Unit {0})
unfolding can_kind
can e p scope action res = can_kind p.kind e p.id scope action res
