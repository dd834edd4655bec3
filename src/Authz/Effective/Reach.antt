-- ===== src/Authz/Effective/Reach.antt =====
-- The permission set agrees with `Can`: at the instance, and on some resource at all.
use janus_secrets.Common.{
  ℕ, String, ◌≡◌, refl, Bool, true, false, ◌||◌, List, [], ◌∷◌, any, any_intro, contains,
  contains-keep, contains-sort_strings, str_eq, eq_iff, arith, Option, some, none, ◌⊎◌, inl, inr,
  Bool-cases,
}
use janus_secrets.Authz.Actions.{Action, ActionSet, union}
use janus_secrets.Authz.Actions.Sets.{contains-union}
use janus_secrets.Authz.Roles.{role_allows-owner}
use janus_secrets.Authz.Scope.{
  Resource, instance_scope, RoleBinding, BreakGlassGrant, binding_applies, grant_applies,
  user_allows,
}
use janus_secrets.Authz.Scope.Covers.{covers}
use janus_secrets.Authz.Engine.{grants_allow}
use janus_secrets.Authz.Engine.Rules.{
  user_allows_intro, user_allows_elim, grants_allow_intro, grants_allow_elim,
}
use janus_secrets.Authz.Effective.{
  all_actions, resource_eq, own_scope, candidate_scopes, union_over, user_allow,
}
use janus_secrets.Authz.Effective.Scopes.{binding-candidate_scopes, grant-candidate_scopes}

abbrev Own : String → Option String → Option String → Type 0
Own level project_id environment_id =
    (r : Resource) × (own_scope level project_id environment_id ≡ some r)
    × (resource_eq r instance_scope ≡ false)
    × (covers level project_id environment_id r ≡ true)

Own-project :
    (level : String) (p v : Option String) (res : Resource)
    → str_eq level "instance" ≡ false
    → str_eq level "project" ≡ true
    → covers level p v res ≡ true
    → Own level p v
Own-project level none v res i j h = ground arith
Own-project level (some p) v res i j h = (
  record instance_scope { project_id = p },
  ground arith,
  ground (arith, eq_iff p res.project_id),
  ground (arith, eq_iff p res.project_id, eq_iff p p),
)

Own-environment :
    (level : String) (p v : Option String) (res : Resource)
    → str_eq level "instance" ≡ false
    → str_eq level "project" ≡ false
    → covers level p v res ≡ true
    → Own level p v
Own-environment level p none res i j h = ground arith
Own-environment level p (some v) res i j h = (
  record instance_scope { env_id = v },
  ground arith,
  ground (arith, eq_iff v res.env_id),
  ground (arith, eq_iff v res.env_id, eq_iff v v),
)

-- A scope that covers some resource covers the instance or its own resource.
covers-Own :
    (level : String) (p v : Option String) (res : Resource)
    → covers level p v res ≡ true
    → (covers level p v instance_scope ≡ true) ⊎ Own level p v
covers-Own level p v res h = elim (Bool-cases (str_eq level "instance")) [
  | inl i ↦ inl (rw i refl)
  | inr i ↦ elim (Bool-cases (str_eq level "project")) [
    | inl j ↦ inr (Own-project level p v res i j h)
    | inr j ↦ inr (Own-environment level p v res i j h)
  ]
]

-- What an action reaches through rows: the two rules of `Can` together.
abbrev pub allows : List RoleBinding → List BreakGlassGrant → ℕ → Action → Resource → Bool
allows bs gs now a res = user_allows bs a res || grants_allow gs now a res

abbrev pub Reaches : List RoleBinding → List BreakGlassGrant → ℕ → Action → Type 0
Reaches bs gs now a =
    (allows bs gs now a instance_scope ≡ true)
    ⊎ (any (allows bs gs now a) (candidate_scopes bs gs) ≡ true)

binding_own :
    (b : RoleBinding) (res : Resource)
    → binding_applies b res ≡ true
    → (binding_applies b instance_scope ≡ true)
      ⊎ ((r : Resource) × (own_scope b.scope_level b.project_id b.environment_id ≡ some r)
          × (resource_eq r instance_scope ≡ false)
          × (binding_applies b r ≡ true))
unfolding binding_applies
binding_own b res h = covers-Own b.scope_level b.project_id b.environment_id res h

grant_own :
    (g : BreakGlassGrant) (res : Resource)
    → grant_applies g res ≡ true
    → (grant_applies g instance_scope ≡ true)
      ⊎ ((r : Resource) × (own_scope g.scope_level g.project_id g.environment_id ≡ some r)
          × (resource_eq r instance_scope ≡ false)
          × (grant_applies g r ≡ true))
unfolding grant_applies
grant_own g res h = covers-Own g.scope_level g.project_id g.environment_id res h

or_left : (a b : Bool) → a ≡ true → (a || b) ≡ true
or_left a b h = ground arith

or_right : (a b : Bool) → b ≡ true → (a || b) ≡ true
or_right a b h = ground arith

bindings_reach :
    (bs : List RoleBinding) (gs : List BreakGlassGrant) (now : ℕ) (a : Action) (res : Resource)
    → user_allows bs a res ≡ true
    → Reaches bs gs now a
bindings_reach bs gs now a res h =
    let (b, m, applies, role) = user_allows_elim bs a res h in
    elim (binding_own b res applies) [
      | inl i ↦ inl (or_left _ _ (user_allows_intro b bs a instance_scope m i role))
      | inr (r, own, other, there) ↦ inr (
          any_intro (allows bs gs now a) r (candidate_scopes bs gs)
            (binding-candidate_scopes r b bs gs m own other)
            (or_left _ _ (user_allows_intro b bs a r m there role)))
    ]

grants_reach :
    (bs : List RoleBinding) (gs : List BreakGlassGrant) (now : ℕ) (a : Action) (res : Resource)
    → grants_allow gs now a res ≡ true
    → Reaches bs gs now a
grants_reach bs gs now a res h =
    let (g, m, live, applies, role) = grants_allow_elim gs now a res h in
    elim (grant_own g res applies) [
      | inl i ↦ inl (or_right _ _ (grants_allow_intro g gs now a instance_scope m live i role))
      | inr (r, own, other, there) ↦ inr (
          any_intro (allows bs gs now a) r (candidate_scopes bs gs)
            (grant-candidate_scopes r g bs gs m own other)
            (or_right _ _ (grants_allow_intro g gs now a r m live there role)))
    ]

pub allows_reach :
    (bs : List RoleBinding) (gs : List BreakGlassGrant) (now : ℕ) (a : Action) (res : Resource)
    → allows bs gs now a res ≡ true
    → Reaches bs gs now a
allows_reach bs gs now a res h = elim (Bool-cases (user_allows bs a res)) [
  | inl by_binding ↦ bindings_reach bs gs now a res by_binding
  | inr none_bound ↦ grants_reach bs gs now a res (rw none_bound at h)
]

allows-owner :
    (bs : List RoleBinding) (gs : List BreakGlassGrant) (now : ℕ) (a : Action) (res : Resource)
    → allows bs gs now a res ≡ true
    → contains a all_actions ≡ true
unfolding all_actions
allows-owner bs gs now a res h =
    rw contains-sort_strings (elim (Bool-cases (user_allows bs a res)) [
      | inl by_binding ↦
          let (b, m, applies, role) = user_allows_elim bs a res by_binding in
          role_allows-owner b.role a role
      | inr none_bound ↦
          let (g, m, live, applies, role) = grants_allow_elim gs now a res (rw none_bound at h) in
          role_allows-owner g.elevated_role a role
    ])

pub contains-user_allow :
    (bs : List RoleBinding) (gs : List BreakGlassGrant) (now : ℕ) (a : Action) (res : Resource)
    → contains a (user_allow bs gs now res) ≡ allows bs gs now a res
contains-user_allow bs gs now a res =
    rw contains-keep (ground (arith, allows-owner bs gs now a res))

pub contains-union_over :
    (allow : Resource → ActionSet) (a : Action) (acc : ActionSet) (rs : List Resource)
    → contains a (union_over allow acc rs) ≡ (contains a acc || any (λ r. contains a (allow r)) rs)
contains-union_over allow a acc [] = ground arith
contains-union_over allow a acc (r ∷ rs) =
    ground
      (arith, contains-union_over allow a (union acc (allow r)) rs, contains-union a acc (allow r))
