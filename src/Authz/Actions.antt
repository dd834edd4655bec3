-- ===== src/Authz/Actions.antt =====
-- Actions, roles and the permission matrix (internal/authz/actions.go). An action and a role are
-- strings, as in the source, so a role that the database holds and the code does not know is a
-- value too; a `map[Action]bool` whose values are all true is the list of its keys.
pub mod Sets
use janus_secrets.Common.{ℕ, String, Bool, List, [], ◌∷◌, str_eq, contains, ltb, leb, if◌then◌else◌}

abbrev pub Action : Type 0
Action = String

abbrev pub Role : Type 0
Role = String

abbrev pub ActionSet : Type 0
ActionSet = List Action

unfoldable pub viewer_actions : ActionSet
viewer_actions =
    "secret:read" ∷ "config:read" ∷ "project:read" ∷ "member:read" ∷ "transit:read" ∷ []

unfoldable pub developer_added : ActionSet
developer_added =
    "secret:write" ∷ "config:create" ∷ "transit:use" ∷ "dynamic:issue" ∷ "secret:promote"
    ∷ "promotion:request" ∷ []

unfoldable pub admin_added : ActionSet
admin_added =
    "config:delete" ∷ "env:create" ∷ "env:delete" ∷ "env:update" ∷ "project:create"
    ∷ "project:update" ∷ "member:manage" ∷ "token:read" ∷ "token:mint" ∷ "token:revoke"
    ∷ "user:manage" ∷ "group:manage" ∷ "audit:read" ∷ "sys:seal" ∷ "sys:backup" ∷ "transit:manage"
    ∷ "oidc:manage" ∷ "rotation:manage" ∷ "sync:manage" ∷ "dynamic:manage" ∷ "promotion:manage"
    ∷ "notification:manage" ∷ []

unfoldable pub owner_added : ActionSet
owner_added =
    "project:delete" ∷ "kek:manage" ∷ "sys:master-key" ∷ "audit:manage" ∷ "secret:prune"
    ∷ "sys:egress" ∷ []

-- `m[a] = true`: the keys of a map are distinct.
unfoldable pub insert : Action → ActionSet → ActionSet
insert a s = if contains a s then s else a ∷ s

-- `union`, on two sets: the source folds it over its arguments.
unfoldable pub union : ActionSet → ActionSet → ActionSet
union [] t = t
union (a ∷ s) t = insert a (union s t)

unfoldable pub developer_actions : ActionSet
developer_actions = union viewer_actions developer_added

unfoldable pub admin_actions : ActionSet
admin_actions = union developer_actions admin_added

unfoldable pub owner_actions : ActionSet
owner_actions = union admin_actions owner_added

-- `roleActions[role]`: the missing key of a map gives the nil map, which has no key.
unfoldable pub role_actions : Role → ActionSet
role_actions role =
    if str_eq role "viewer"
    then viewer_actions
    else if str_eq role "developer"
    then developer_actions
    else if str_eq role "admin"
    then admin_actions
    else if str_eq role "owner"
    then owner_actions
    else []

-- `roleRank[role]`: 0 for an unknown role.
unfoldable pub role_rank : Role → ℕ
role_rank role =
    if str_eq role "viewer"
    then 1
    else if str_eq role "developer"
    then 2
    else if str_eq role "admin"
    then 3
    else if str_eq role "owner"
    then 4
    else 0

unfoldable pub role_allows : Role → Action → Bool
unfolding role_actions
role_allows role action = contains action (role_actions role)

-- `ValidRole`: whether `roleRank` has the key.
unfoldable pub valid_role : String → Bool
unfolding role_rank
valid_role s = ltb 0 (role_rank s)

unfoldable pub role_at_least : Role → Role → Bool
unfolding role_rank
role_at_least a b = leb (role_rank b) (role_rank a)

unfoldable pub role_strictly_above : Role → Role → Bool
unfolding role_rank
role_strictly_above a b = ltb (role_rank b) (role_rank a)
