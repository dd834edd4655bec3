-- ===== src/Authz/Decision.antt =====
-- `Can` against the role that a user holds, and what an error of a store does to the decision.
use janus_secrets.Common.{
  String, ◌≤◌, ◌≡◌, refl, Bool, true, ◌||◌, List, [], ◌∷◌, keep, sym, ap, ◌∙◌, In, arith,
  if◌then◌else◌, Result, ok, err, is_ok, some, Option, ◌⊎◌, inl, inr, Bool-cases,
}
use janus_secrets.Authz.Actions.{Action, Role, role_rank, role_allows}
use janus_secrets.Authz.Scope.{Resource, RoleBinding, BreakGlassGrant, TokenScope, user_allows}
use janus_secrets.Authz.Engine.{
  Engine, Error, Principal, PrincipalKind, bindings_for, grants_of, grants_allow, can,
}
use janus_secrets.Authz.Review.{
  role_from_bindings, bound_role, allowed_projects, project_scope, effective_role,
}
use janus_secrets.Authz.Scope.Covers.{OnProject, binding-OnProject, grant-OnProject}
use janus_secrets.Authz.Engine.Rules.{
  can-rule, user_allows_elim, grants_allow_elim, can-bindings_err, bindings_for-err,
}
use janus_secrets.Authz.Review.Allows.{
  effective_role-eq_ok, role_from_bindings-allows, best_grant-allows, best_grant-rank,
  allowed_projects-rule,
}

-- For a user whose stores answer, so that `EffectiveRole` returns a role r, `Can` succeeds exactly
-- if role r allows the action.
pub can-effective_role :
    (e : Engine) (p : Principal) (scope : Option TokenScope) (action : Action) (res : Resource)
    (r : Role)
    → p.kind ≡ PrincipalKind.user
    → effective_role e p.id res ≡ ok r
    → is_ok (can e p scope action res) ≡ role_allows r action
can-effective_role e p scope action res r k h =
    let (bs, gs, hb, hg, best) = effective_role-eq_ok e p.id res h in
    ground (
      arith,
      can-rule e p scope action res k hb hg,
      best_grant-allows res e.now (role_from_bindings bs res) gs action,
      role_from_bindings-allows bs res action,
    )

-- If a user's bindings, direct and through groups, and grants are all on one project, `Can` allows
-- nothing on a resource outside that project.
pub can-confined :
    (e : Engine) (p : Principal) (scope : Option TokenScope) (action : Action) (res : Resource)
    (pid : String) {bs : List RoleBinding} {gs : List BreakGlassGrant}
    → p.kind ≡ PrincipalKind.user
    → bindings_for e p.id ≡ ok bs
    → grants_of e p.id ≡ ok gs
    → ((b : RoleBinding) → In b bs → OnProject pid b.scope_level b.project_id)
    → ((g : BreakGlassGrant) → In g gs → OnProject pid g.scope_level g.project_id)
    → is_ok (can e p scope action res) ≡ true
    → res.project_id ≡ pid
can-confined e p scope action res pid {bs} {gs} k hb hg ob og h =
    elim (Bool-cases (user_allows bs action res)) [
      | inl by_binding ↦
          let (b, m, applies, role) = user_allows_elim bs action res by_binding in
          binding-OnProject b res pid (ob b m) applies
      | inr none_bound ↦
          let (g, m, live, applies, role) =
            grants_allow_elim gs e.now action res
              (rw (can-rule e p scope action res k hb hg, none_bound) at h) in
          grant-OnProject g res pid (og g m) applies
    ]

keep_ext :
    {A : Type 0} (p q : A → Bool) (xs : List A) → ((x : A) → p x ≡ q x) → keep p xs ≡ keep q xs
keep_ext p q [] h = refl
keep_ext p q (x ∷ xs) h = rw (h x, keep_ext p q xs h) refl

if_true : (a b : Bool) → (if a then true else b) ≡ (a || b)
if_true a b = ground arith

-- For a user whose stores answer, `AllowedProjects` returns, in order, exactly those of the given
-- projects on which `Can` allows the action.
pub allowed_projects-eq_keep-can :
    (e : Engine) (p : Principal) (scope : Option TokenScope) (action : Action) (pids : List String)
    {bs : List RoleBinding} {gs : List BreakGlassGrant}
    → p.kind ≡ PrincipalKind.user
    → bindings_for e p.id ≡ ok bs
    → grants_of e p.id ≡ ok gs
    → allowed_projects e p action pids
      ≡ ok (keep (λ pid. is_ok (can e p scope action (project_scope pid))) pids)
allowed_projects-eq_keep-can e p scope action pids {bs} {gs} k hb hg =
    allowed_projects-rule e p action pids k hb hg
    ∙ ap ok (
        keep_ext _ _ pids (λ pid.
          if_true (user_allows bs action (project_scope pid))
            (grants_allow gs e.now action (project_scope pid))
          ∙ sym (can-rule e p scope action (project_scope pid) k hb hg)))

-- `EffectiveRole` never ranks below `BoundRole`, and it returns a role only where `BoundRole` does.
pub bound_role-le-effective_role :
    (e : Engine) (id : String) (res : Resource) {r : Role}
    → effective_role e id res ≡ ok r
    → (b : Role) × (bound_role e id res ≡ ok b) × (role_rank b ≤ role_rank r)
unfolding bound_role
bound_role-le-effective_role e id res h =
    let (bs, gs, hb, hg, best) = effective_role-eq_ok e id res h in
    (
      role_from_bindings bs res,
      rw hb refl,
      rw best (best_grant-rank res e.now (role_from_bindings bs res) gs),
    )

-- For a user, an error of the direct or of the group store makes `Can` return that error: nothing
-- is decided on the rows of one source alone.
pub can-fails_closed :
    (e : Engine) (p : Principal) (scope : Option TokenScope) (action : Action) (res : Resource)
    {x : Error}
    → p.kind ≡ PrincipalKind.user
    → (e.bindings p.id ≡ err x)
      ⊎ ((direct : List RoleBinding) × (list : String → Result Error (List RoleBinding))
          × (e.bindings p.id ≡ ok direct)
          × (e.groups ≡ some list)
          × (list p.id ≡ err x))
    → can e p scope action res ≡ err x
can-fails_closed e p scope action res k h =
    can-bindings_err e p scope action res k (bindings_for-err e p.id h)
