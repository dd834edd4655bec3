-- ===== src/Authz/Tests.antt =====
-- Runs of the authorization code on a small set of rows, and uses of its theorems.
use janus_secrets.Common.{
  sort_strings, ◌≡◌, ◌↔◌, refl, inl, inr, true, none, some, [], ◌∷◌, contains, In, keep, ok, err,
  is_ok,
}
use janus_secrets.Authz.Actions.{
  owner_actions, owner_added, admin_added, admin_actions, developer_added, insert, viewer_actions,
  union, developer_actions, role_allows, role_rank,
}
use janus_secrets.Authz.Scope.{
  token_allows, grant_applies, active, Resource, TokenScope, RoleBinding, BreakGlassGrant,
  binding_applies, user_allows,
}
use janus_secrets.Authz.Scope.Covers.{OnProject}
use janus_secrets.Authz.Engine.{
  grants_of, grants_allow, bindings_for, Engine, Error, forbidden, Principal, PrincipalKind, can,
}
use janus_secrets.Authz.Review.{
  role_from_bindings, bound_role, effective_role, allowed_projects, project_scope,
}
use janus_secrets.Authz.Decision.{can-effective_role, allowed_projects-eq_keep-can}
use janus_secrets.Authz.Effective.{token_resource, all_actions, effective}
use janus_secrets.Authz.Effective.Agrees.{effective-anywhere}

abbrev binding : RoleBinding
binding = record {
  id = "b1";
  subject_user_id = "u1";
  scope_level = "project";
  project_id = some "p1";
  environment_id = none;
  role = "developer";
  created_at = 5;
}

abbrev grant : BreakGlassGrant
grant = record {
  user_id = "u1";
  scope_level = "project";
  project_id = some "p1";
  environment_id = none;
  elevated_role = "admin";
  expires_at = 100;
  revoked_at = none;
}

abbrev engine : Engine
engine = record {
  bindings = λ id. ok (binding ∷ []);
  groups = none;
  grants = some (λ id now. ok (grant ∷ []));
  now = 50;
}

abbrev broken_engine : Engine
broken_engine = record engine { bindings = λ id. err (Error.store_failed "down") }

abbrev alice : Principal
alice = record { kind = PrincipalKind.user; id = "u1" }

-- The grant has expired.
abbrev later_engine : Engine
later_engine = record engine { now = 100 }

can_by_binding : can engine alice none "secret:write" (project_scope "p1") ≡ ok tt
unfolding can bindings_for user_allows binding_applies role_allows developer_actions union
    viewer_actions insert developer_added
can_by_binding = refl

can_by_grant : can engine alice none "member:manage" (project_scope "p1") ≡ ok tt
unfolding can bindings_for user_allows binding_applies role_allows developer_actions union
    viewer_actions insert developer_added grants_allow active grant_applies admin_actions
    admin_added
can_by_grant = refl

can_after_expiry : can later_engine alice none "member:manage" (project_scope "p1") ≡ err forbidden
unfolding can bindings_for user_allows binding_applies role_allows developer_actions union
    viewer_actions insert developer_added grants_allow active
can_after_expiry = refl

token_reads_its_config :
    can engine
      (record { kind = PrincipalKind.service_token; id = "t" })
      (some (record { kind = "config"; id = "c1"; access = "read" }))
      "secret:read"
      (record { project_id = "p1"; env_id = "e1"; config_id = "c1"; transit_key = "" })
    ≡ ok tt
unfolding can token_allows
token_reads_its_config = refl

can-effective_role_example :
    is_ok (can engine alice none "member:manage" (project_scope "p1"))
    ≡ role_allows "admin" "member:manage"
unfolding effective_role bound_role bindings_for grants_of active grant_applies role_rank
    role_from_bindings binding_applies
can-effective_role_example =
    can-effective_role engine alice none "member:manage" (project_scope "p1") "admin" refl refl

on_p1_binding : (b : RoleBinding) → In b (binding ∷ []) → OnProject "p1" b.scope_level b.project_id
on_p1_binding b (inl same) = rw same (refl, refl)
on_p1_binding b (inr m) = absurd m

on_p1_grant : (g : BreakGlassGrant) → In g (grant ∷ []) → OnProject "p1" g.scope_level g.project_id
on_p1_grant g (inl same) = rw same (refl, refl)
on_p1_grant g (inr m) = absurd m

allowed_projects-eq_keep-can_example :
    allowed_projects engine alice "secret:read" ("p0" ∷ "p1" ∷ [])
    ≡ ok (
        keep
          (λ pid. is_ok (can engine alice none "secret:read" (project_scope pid)))
          ("p0" ∷ "p1" ∷ []))
unfolding bindings_for grants_of
allowed_projects-eq_keep-can_example =
    allowed_projects-eq_keep-can engine alice none "secret:read" ("p0" ∷ "p1" ∷ []) refl refl refl

abbrev token : Principal
token = record { kind = PrincipalKind.service_token; id = "t1" }

abbrev config_token : TokenScope
config_token = record { kind = "config"; id = "c1"; access = "read" }

effective-anywhere_example :
    (contains "secret:read" ("config:read" ∷ "secret:read" ∷ []) ≡ true)
    ↔ ((res : Resource) × (is_ok (can engine token (some config_token) "secret:read" res) ≡ true))
unfolding effective sort_strings union all_actions owner_actions admin_actions developer_actions
    viewer_actions insert developer_added admin_added owner_added token_allows token_resource
effective-anywhere_example = effective-anywhere engine token (some config_token) "secret:read" refl

-- A token for every transit key.
abbrev transit_token : TokenScope
transit_token = record { kind = "transit"; id = ""; access = "use" }
