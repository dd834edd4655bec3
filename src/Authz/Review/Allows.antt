-- ===== src/Authz/Review/Allows.antt =====
-- What the highest role found by the loops of `RoleFromBindings` and `EffectiveRole` allows.
use janus_secrets.Common.{
  ℕ, String, ◌≤◌, ◌≡◌, refl, ◌∙◌, true, ◌&&◌, ◌||◌, List, [], ◌∷◌, keep, In, arith, if◌then◌else◌,
  ok, ◌⊎◌, inl, inr,
}
use janus_secrets.Authz.Actions.{Action, Role, role_rank, role_allows}
use janus_secrets.Authz.Scope.{
  Resource, RoleBinding, BreakGlassGrant, active, binding_applies, grant_applies, user_allows,
}
use janus_secrets.Authz.Engine.{
  Engine, Principal, PrincipalKind, bindings_for, grants_of, grants_allow,
}
use janus_secrets.Authz.Review.{
  raise_by_binding, best_binding, role_from_bindings, raise_by_grant, best_grant, bound_role,
  effective_role, allowed_projects, allowed_kind, allowed_for_user, project_scope,
}
use janus_secrets.Authz.Roles.{role_allows_mono}

raise_by_binding-allows :
    (res : Resource) (best : Role) (b : RoleBinding) (action : Action)
    → role_allows (raise_by_binding res best b) action
      ≡ (role_allows best action || (binding_applies b res && role_allows b.role action))
unfolding raise_by_binding
raise_by_binding-allows res best b action =
    ground (arith, role_allows_mono best b.role action, role_allows_mono b.role best action)

best_binding-allows :
    (res : Resource) (best : Role) (bs : List RoleBinding) (action : Action)
    → role_allows (best_binding res best bs) action
      ≡ (role_allows best action || user_allows bs action res)
unfolding best_binding user_allows
best_binding-allows res best [] action = ground arith
best_binding-allows res best (b ∷ bs) action = ground (
  arith,
  best_binding-allows res (raise_by_binding res best b) bs action,
  raise_by_binding-allows res best b action,
)

raise_by_grant-allows :
    (res : Resource) (now : ℕ) (best : Role) (g : BreakGlassGrant) (action : Action)
    → role_allows (raise_by_grant res now best g) action ≡ (
        role_allows best action
        || (active g now && (grant_applies g res && role_allows g.elevated_role action)))
unfolding raise_by_grant
raise_by_grant-allows res now best g action = ground (
  arith,
  role_allows_mono best g.elevated_role action,
  role_allows_mono g.elevated_role best action,
)

pub best_grant-allows :
    (res : Resource) (now : ℕ) (best : Role) (gs : List BreakGlassGrant) (action : Action)
    → role_allows (best_grant res now best gs) action
      ≡ (role_allows best action || grants_allow gs now action res)
unfolding best_grant grants_allow
best_grant-allows res now best [] action = ground arith
best_grant-allows res now best (g ∷ gs) action = ground (
  arith,
  best_grant-allows res now (raise_by_grant res now best g) gs action,
  raise_by_grant-allows res now best g action,
)

-- The role held through bindings allows exactly what some applicable binding allows.
pub role_from_bindings-allows :
    (bs : List RoleBinding) (res : Resource) (action : Action)
    → role_allows (role_from_bindings bs res) action ≡ user_allows bs action res
unfolding role_from_bindings user_allows role_allows
role_from_bindings-allows bs res action = best_binding-allows res "" bs action

-- Where `EffectiveRole` returns a role, both sources have answered, and the role is the best of
-- their rows.
pub effective_role-eq_ok :
    (e : Engine) (id : String) (res : Resource) {r : Role}
    → effective_role e id res ≡ ok r
    → (bs : List RoleBinding) × (gs : List BreakGlassGrant) × (bindings_for e id ≡ ok bs)
      × (grants_of e id ≡ ok gs)
      × (r ≡ best_grant res e.now (role_from_bindings bs res) gs)
unfolding effective_role bound_role
effective_role-eq_ok e id res h = ground arith

raise_by_binding-rank :
    (res : Resource) (best : Role) (b : RoleBinding)
    → role_rank best ≤ role_rank (raise_by_binding res best b)
unfolding raise_by_binding
raise_by_binding-rank res best b = ground arith

raise_by_binding-rank_self :
    (res : Resource) (best : Role) (b : RoleBinding)
    → binding_applies b res ≡ true
    → role_rank b.role ≤ role_rank (raise_by_binding res best b)
unfolding raise_by_binding
raise_by_binding-rank_self res best b h = ground arith

best_binding-rank :
    (res : Resource) (best : Role) (bs : List RoleBinding)
    → role_rank best ≤ role_rank (best_binding res best bs)
unfolding best_binding
best_binding-rank res best [] = omega arith
best_binding-rank res best (b ∷ bs) = omega (
  arith,
  raise_by_binding-rank res best b,
  best_binding-rank res (raise_by_binding res best b) bs,
)

best_binding-rank_member :
    (res : Resource) (best : Role) (b : RoleBinding) (bs : List RoleBinding)
    → In b bs
    → binding_applies b res ≡ true
    → role_rank b.role ≤ role_rank (best_binding res best bs)
unfolding best_binding
best_binding-rank_member res best b [] m h = elim m [ ]
best_binding-rank_member res best b (c ∷ bs) (inl e) h = rw (← e) (
    omega (
      arith,
      raise_by_binding-rank_self res best b h,
      best_binding-rank res (raise_by_binding res best b) bs,
    ))
best_binding-rank_member res best b (c ∷ bs) (inr m) h =
    best_binding-rank_member res (raise_by_binding res best c) b bs m h

-- The best role of a list of bindings is the one it started from or that of an applicable binding.
abbrev pub FromBinding : Resource → Role → List RoleBinding → Role → Type 0
FromBinding res best bs r =
    (r ≡ best) ⊎ ((b : RoleBinding) × In b bs × (binding_applies b res ≡ true) × (r ≡ b.role))

raise_by_binding-from :
    (res : Resource) (best : Role) (b : RoleBinding)
    → (raise_by_binding res best b ≡ best)
      ⊎ ((binding_applies b res ≡ true) × (raise_by_binding res best b ≡ b.role))
unfolding raise_by_binding
raise_by_binding-from res best b = ground arith

FromBinding-tail :
    (res : Resource) (best : Role) (b : RoleBinding) (bs : List RoleBinding) (r : Role)
    → FromBinding res (raise_by_binding res best b) bs r
    → FromBinding res best (b ∷ bs) r
FromBinding-tail res best b bs r (inl e) = elim (raise_by_binding-from res best b) [
  | inl old ↦ inl (e ∙ old)
  | inr (h, new) ↦ inr (b, inl refl, h, e ∙ new)
]
FromBinding-tail res best b bs r (inr (c, m, h, e)) = inr (c, inr m, h, e)

best_binding-from :
    (res : Resource) (best : Role) (bs : List RoleBinding)
    → FromBinding res best bs (best_binding res best bs)
unfolding best_binding
best_binding-from res best [] = inl refl
best_binding-from res best (b ∷ bs) =
    FromBinding-tail res best b bs _ (best_binding-from res (raise_by_binding res best b) bs)

-- The role that `RoleFromBindings` returns ranks at least as high as that of every binding that
-- applies to the resource, and it is the empty role or the role of a binding that applies.
pub role_from_bindings-greatest :
    (bs : List RoleBinding) (res : Resource)
    → ((b : RoleBinding)
        → In b bs
        → binding_applies b res ≡ true
        → role_rank b.role ≤ role_rank (role_from_bindings bs res))
      × FromBinding res "" bs (role_from_bindings bs res)
unfolding role_from_bindings
role_from_bindings-greatest bs res =
    (λ b m h. best_binding-rank_member res "" b bs m h, best_binding-from res "" bs)

pub best_grant-rank :
    (res : Resource) (now : ℕ) (best : Role) (gs : List BreakGlassGrant)
    → role_rank best ≤ role_rank (best_grant res now best gs)
unfolding best_grant raise_by_grant
best_grant-rank res now best [] = omega arith
best_grant-rank res now best (g ∷ gs) =
    ground (arith, best_grant-rank res now (raise_by_grant res now best g) gs)

-- The bulk decision, by the rows that the stores answer.
pub allowed_projects-rule :
    (e : Engine) (p : Principal) (action : Action) (pids : List String) {bs : List RoleBinding}
    {gs : List BreakGlassGrant}
    → p.kind ≡ PrincipalKind.user
    → bindings_for e p.id ≡ ok bs
    → grants_of e p.id ≡ ok gs
    → allowed_projects e p action pids
      ≡ ok (
          keep
            (λ pid.
              if user_allows bs action (project_scope pid)
              then true
              else grants_allow gs e.now action (project_scope pid))
            pids)
unfolding allowed_projects allowed_kind allowed_for_user
allowed_projects-rule e p action [] k hb hg = refl
allowed_projects-rule e p action (pid ∷ pids) k hb hg = rw k (rw (hb, hg) refl)
