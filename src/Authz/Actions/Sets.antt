-- ===== src/Authz/Actions/Sets.antt =====
-- Membership in the action sets that the permission matrix is built from.
use janus_secrets.Common.{
  ◌≡◌, refl, ◌||◌, [], ◌∷◌, str_eq, eq_iff, eq_refl, contains, arith, Bool-cases, inl, inr,
}
use janus_secrets.Authz.Actions.{
  Action, ActionSet, insert, union, viewer_actions, developer_added, admin_added, owner_added,
  developer_actions, admin_actions, owner_actions,
}

contains-insert :
    (b a : Action) (s : ActionSet) → contains b (insert a s) ≡ (str_eq b a || contains b s)
unfolding insert
contains-insert b a s = elim (Bool-cases (contains a s)) [
  | inl old ↦ elim (Bool-cases (str_eq b a)) [
    | inl same ↦ rw old (rw ((eq_iff b a).0 same) (rw (old, eq_refl) refl))
    | inr other ↦ rw (old, other) refl
  ]
  | inr new ↦ rw new refl
]

pub contains-union :
    (b : Action) (s t : ActionSet) → contains b (union s t) ≡ (contains b s || contains b t)
unfolding union
contains-union b [] t = refl
contains-union b (a ∷ s) t = ground (arith, contains-insert b a (union s t), contains-union b s t)

pub contains-developer_actions :
    (b : Action)
    → contains b developer_actions ≡ (contains b viewer_actions || contains b developer_added)
unfolding developer_actions
contains-developer_actions b = contains-union b viewer_actions developer_added

pub contains-admin_actions :
    (b : Action)
    → contains b admin_actions ≡ (contains b developer_actions || contains b admin_added)
unfolding admin_actions
contains-admin_actions b = contains-union b developer_actions admin_added

pub contains-owner_actions :
    (b : Action) → contains b owner_actions ≡ (contains b admin_actions || contains b owner_added)
unfolding owner_actions
contains-owner_actions b = contains-union b admin_actions owner_added
