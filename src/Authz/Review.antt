-- ===== src/Authz/Review.antt =====
-- The role that a user holds at a scope, the bulk decision over projects and the member pages
-- (internal/authz/review.go, internal/authz/management.go).
pub mod Allows
use janus_secrets.Common.{
  ℕ, String, Bool, true, false, ◌&&◌, Option, none, some, List, [], ◌∷◌, ◌++◌, any, ltb, ◌==◌, keep,
  length, map, if◌then◌else◌, Result, ok, err, ◌>>=◌,
}
use janus_secrets.Authz.Actions.{Action, Role, role_allows, role_rank}
use janus_secrets.Authz.Scope.{
  Resource, RoleBinding, BreakGlassGrant, active, binding_applies, grant_applies, user_allows,
}
use janus_secrets.Authz.Engine.{
  Engine, Error, Principal, PrincipalKind, bindings_for, grants_of, grants_allow,
}

unfoldable pub applicable_bindings : List RoleBinding → Resource → List RoleBinding
applicable_bindings bindings res = keep (λ b. binding_applies b res) bindings

-- One round of the loop: a higher applicable role replaces the best so far.
raise_by_binding : Resource → Role → RoleBinding → Role
raise_by_binding res best b =
    if binding_applies b res && ltb (role_rank best) (role_rank b.role) then b.role else best

best_binding : Resource → Role → List RoleBinding → Role
unfolding raise_by_binding
best_binding res best [] = best
best_binding res best (b ∷ bs) = best_binding res (raise_by_binding res best b) bs

unfoldable pub role_from_bindings : List RoleBinding → Resource → Role
unfolding best_binding
role_from_bindings bindings res = best_binding res "" bindings

unfoldable pub bound_role : Engine → String → Resource → Result Error Role
bound_role e user_id res = do
  bindings ← bindings_for e user_id
  ok (role_from_bindings bindings res)

-- `BoundRoles`: one load of the bindings for several resources, and none for no resource.
unfoldable pub bound_roles : Engine → String → List Resource → Result Error (List Role)
bound_roles e user_id [] = ok []
bound_roles e user_id (res ∷ rest) = do
  bindings ← bindings_for e user_id
  ok (map (role_from_bindings bindings) (res ∷ rest))

raise_by_grant : Resource → ℕ → Role → BreakGlassGrant → Role
raise_by_grant res now best g =
    if active g now && (grant_applies g res && ltb (role_rank best) (role_rank g.elevated_role))
    then g.elevated_role
    else best

pub best_grant : Resource → ℕ → Role → List BreakGlassGrant → Role
unfolding raise_by_grant
best_grant res now best [] = best
best_grant res now best (g ∷ gs) = best_grant res now (raise_by_grant res now best g) gs

unfoldable pub effective_role : Engine → String → Resource → Result Error Role
unfolding best_grant
effective_role e user_id res = do
  best ← bound_role e user_id res
  gs ← grants_of e user_id
  ok (best_grant res e.now best gs)

abbrev pub project_scope : String → Resource
project_scope pid = record { project_id = pid; env_id = ""; config_id = ""; transit_key = "" }

allowed_for_user : Engine → String → Action → List String → Result Error (List String)
allowed_for_user e id action project_ids = do
  bindings ← bindings_for e id
  grants ← grants_of e id
  ok (
      keep
        (λ pid.
          if user_allows bindings action (project_scope pid)
          then true
          else grants_allow grants e.now action (project_scope pid))
        project_ids)

allowed_kind : PrincipalKind → Engine → String → Action → List String → Result Error (List String)
unfolding allowed_for_user
allowed_kind k e id action [] = ok []
allowed_kind PrincipalKind.user e id action (p ∷ ps) = allowed_for_user e id action (p ∷ ps)
allowed_kind PrincipalKind.service_token e id action (p ∷ ps) = ok []
allowed_kind (PrincipalKind.other_kind k) e id action (p ∷ ps) = ok []

-- `AllowedProjects`
unfoldable pub allowed_projects :
    Engine → Principal → Action → List String → Result Error (List String)
unfolding allowed_kind
allowed_projects e p action project_ids = allowed_kind p.kind e p.id action project_ids

pub record Member : Type 0 where
  pub user_id : String
  pub role : String

pub record Cursor : Type 0 where
  pub created_at : ℕ
  pub id : String

last_cursor : List RoleBinding → Option Cursor
last_cursor [] = none
last_cursor (b ∷ []) = some (record { created_at = b.created_at; id = b.id })
last_cursor (b ∷ c ∷ bs) = last_cursor (c ∷ bs)

-- `ListMembersPage` over the page of bindings that the store returns; `limit` 0 stands for every
-- limit that is not positive.
unfoldable pub members_page :
    ℕ → Result Error (List RoleBinding) → Result Error (List Member × Option Cursor)
unfolding last_cursor
members_page limit page = do
  bs ← page
  ok (
    map (λ b. record { user_id = b.subject_user_id; role = b.role }) bs,
    if ltb 0 limit && length bs == limit then last_cursor bs else none,
  )
