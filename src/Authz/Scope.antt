-- ===== src/Authz/Scope.antt =====
-- Which scope a token, a role binding or a break-glass grant covers
-- (internal/authz/resource.go, internal/authz/resolve.go, and the rows of internal/store).
pub mod Covers
use janus_secrets.Common.{
  ℕ, String, Bool, true, false, ◌&&◌, ◌||◌, not, Option, none, some, List, [], ◌∷◌, str_eq,
  contains, any, ltb, if◌then◌else◌,
}
use janus_secrets.Authz.Actions.{Action, ActionSet, role_allows}

-- The target of an action with its scope chain; an empty field is absent.
pub record Resource : Type 0 where
  pub project_id : String
  pub env_id : String
  pub config_id : String
  pub transit_key : String

abbrev pub instance_scope : Resource
instance_scope = record { project_id = ""; env_id = ""; config_id = ""; transit_key = "" }

pub record TokenScope : Type 0 where
  pub kind : String
  pub id : String
  pub access : String

-- The columns of `store.RoleBinding` that the engine reads; times are instants on the clock.
pub record RoleBinding : Type 0 where
  pub id : String
  pub subject_user_id : String
  pub scope_level : String
  pub project_id : Option String
  pub environment_id : Option String
  pub role : String
  pub created_at : ℕ

-- The columns of `store.BreakGlassGrant` that the engine reads.
pub record BreakGlassGrant : Type 0 where
  pub user_id : String
  pub scope_level : String
  pub project_id : Option String
  pub environment_id : Option String
  pub elevated_role : String
  pub expires_at : ℕ
  pub revoked_at : Option ℕ

abbrev is_none {ℓ} : {A : Type ℓ} → Option A → Bool
is_none none = true
is_none (some a) = false

-- `Active`
unfoldable pub active : BreakGlassGrant → ℕ → Bool
active g now = is_none g.revoked_at && ltb now g.expires_at

unfoldable pub token_capabilities : String → ActionSet
token_capabilities access =
    if str_eq access "read"
    then "secret:read" ∷ "config:read" ∷ []
    else if str_eq access "readwrite"
    then "secret:read" ∷ "config:read" ∷ "secret:write" ∷ []
    else []

unfoldable pub transit_token_capabilities : String → ActionSet
transit_token_capabilities access =
    if str_eq access "use"
    then "transit:read" ∷ "transit:use" ∷ []
    else if str_eq access "manage"
    then "transit:read" ∷ "transit:use" ∷ "transit:manage" ∷ []
    else []

unfoldable pub token_allows : TokenScope → Action → Resource → Bool
unfolding token_capabilities transit_token_capabilities
token_allows scope action res =
    if str_eq scope.kind "config"
    then contains action (token_capabilities scope.access)
      && not (str_eq res.config_id "")
      && str_eq res.config_id scope.id
    else if str_eq scope.kind "environment"
    then contains action (token_capabilities scope.access)
      && not (str_eq res.env_id "")
      && str_eq res.env_id scope.id
    else if str_eq scope.kind "transit"
    then if not (contains action (transit_token_capabilities scope.access))
      then false
      else str_eq scope.id "" || str_eq scope.id res.transit_key
    else false

-- `p != nil && id != "" && *p == id`
abbrev pub names : Option String → String → Bool
names none id = false
names (some p) id = not (str_eq id "") && str_eq p id

unfoldable pub binding_applies : RoleBinding → Resource → Bool
binding_applies b res =
    if str_eq b.scope_level "instance"
    then true
    else if str_eq b.scope_level "project"
    then names b.project_id res.project_id
    else if str_eq b.scope_level "environment"
    then names b.environment_id res.env_id
    else false

unfoldable pub grant_applies : BreakGlassGrant → Resource → Bool
grant_applies g res =
    if str_eq g.scope_level "instance"
    then true
    else if str_eq g.scope_level "project"
    then names g.project_id res.project_id
    else if str_eq g.scope_level "environment"
    then names g.environment_id res.env_id
    else false

-- Whether an applicable binding's role grants the action.
unfoldable pub user_allows : List RoleBinding → Action → Resource → Bool
user_allows bindings action res =
    any (λ b. binding_applies b res && role_allows b.role action) bindings
