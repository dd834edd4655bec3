-- ===== src/Authz/Roles.antt =====
-- The permission matrix is cumulative: what a role may do grows with its rank, and the actions
-- that the owner adds are the owner's alone.
use janus_secrets.Common.{
  ◌≤◌, ◌≡◌, refl, true, false, str_eq, contains, str_eq-distinct, not-contains_of_disjoint, arith,
}
use janus_secrets.Authz.Actions.{
  Action, Role, role_rank, role_allows, role_at_least, owner_added, owner_actions, admin_actions,
  developer_actions, viewer_actions, admin_added, developer_added, union, insert,
}
use janus_secrets.Authz.Actions.Sets.{
  contains-developer_actions, contains-admin_actions, contains-owner_actions,
}

pub role_allows_mono :
    (a b : Role) (action : Action)
    → role_rank b ≤ role_rank a
    → role_allows b action ≡ true
    → role_allows a action ≡ true
unfolding role_allows role_rank
role_allows_mono a b action le h = ground (
  arith,
  contains-developer_actions action,
  contains-admin_actions action,
  contains-owner_actions action,
)

-- If `RoleAtLeast(a, b)` holds, for any two strings a and b, then role a allows every action that
-- role b allows.
pub role_at_least-role_allows :
    (a b : Role) (action : Action)
    → role_at_least a b ≡ true
    → role_allows b action ≡ true
    → role_allows a action ≡ true
unfolding role_at_least
role_at_least-role_allows a b action le h = role_allows_mono a b action (ground arith) h

-- Whatever a role allows is an action of the owner.
pub role_allows-owner :
    (a : Role) (action : Action)
    → role_allows a action ≡ true
    → contains action owner_actions ≡ true
unfolding role_allows
role_allows-owner a action h = ground (
  arith,
  contains-developer_actions action,
  contains-admin_actions action,
  contains-owner_actions action,
)

owner_added-not_admin :
    (action : Action) → contains action owner_added ≡ true → contains action admin_actions ≡ false
unfolding owner_added admin_actions developer_actions viewer_actions admin_added developer_added
    union insert
owner_added-not_admin action h = not-contains_of_disjoint action owner_added admin_actions refl h

-- Destroying a project, managing key encryption keys, the master key, the audit log and the
-- outbound policy, and pruning secret history are allowed to the role `owner` and to no other.
pub owner_added-owner_only :
    (r : Role) (action : Action)
    → contains action owner_added ≡ true
    → role_allows r action ≡ str_eq r "owner"
unfolding role_allows
owner_added-owner_only r action h = ground (
  arith,
  contains-developer_actions action,
  contains-admin_actions action,
  contains-owner_actions action,
  owner_added-not_admin action h,
  str_eq-distinct r "viewer" "owner" refl,
  str_eq-distinct r "developer" "owner" refl,
  str_eq-distinct r "admin" "owner" refl,
)
