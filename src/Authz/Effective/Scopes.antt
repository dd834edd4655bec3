-- ===== src/Authz/Effective/Scopes.antt =====
-- The candidate resources: each row's own scope is among them, unless it is the instance.
use janus_secrets.Common.{
  ◌≡◌, refl, true, false, ◌||◌, List, [], ◌∷◌, ◌++◌, any, In, any_elim, eq_iff, arith, Option, some,
  none, inl, inr, Bool-cases,
}
use janus_secrets.Authz.Scope.{Resource, instance_scope, RoleBinding, BreakGlassGrant}
use janus_secrets.Authz.Effective.{
  resource_eq, add_scope, own_scope, add_own, scopes_of_bindings, scopes_of_grants,
  candidate_scopes,
}

resource_eq-eq : (r s : Resource) → resource_eq r s ≡ true → r ≡ s
resource_eq-eq r s h = ground (
  arith,
  eq_iff r.project_id s.project_id,
  eq_iff r.env_id s.env_id,
  eq_iff r.config_id s.config_id,
  eq_iff r.transit_key s.transit_key,
)

In-append_left : {A : Type 0} (x : A) (xs ys : List A) → In x xs → In x (xs ++ ys)
In-append_left x [] ys m = elim m [ ]
In-append_left x (y ∷ xs) ys (inl e) = inl e
In-append_left x (y ∷ xs) ys (inr m) = inr (In-append_left x xs ys m)

In-append_last : {A : Type 0} (x : A) (xs : List A) → In x (xs ++ x ∷ [])
In-append_last x [] = inl refl
In-append_last x (y ∷ xs) = inr (In-append_last x xs)

In-add_scope :
    (x : Resource) (out : List Resource) (r : Resource) → In x out → In x (add_scope out r)
unfolding add_scope
In-add_scope x out r m =
    elim (Bool-cases (resource_eq r instance_scope || any (resource_eq r) out)) [
      | inl there ↦ rw there m
      | inr new ↦ rw new (In-append_left x out (r ∷ []) m)
    ]

In-add_scope_self :
    (out : List Resource) (r : Resource)
    → resource_eq r instance_scope ≡ false
    → In r (add_scope out r)
unfolding add_scope
In-add_scope_self out r h = elim (Bool-cases (any (resource_eq r) out)) [
  | inl there ↦
      let (s, m, e) = any_elim (resource_eq r) out there in
      rw (h, there) (rw (resource_eq-eq r s e) m)
  | inr new ↦ rw (h, new) (In-append_last r out)
]

In-add_own :
    (x : Resource) (out : List Resource) (o : Option Resource) → In x out → In x (add_own out o)
In-add_own x out none m = m
In-add_own x out (some r) m = In-add_scope x out r m

In-scopes_of_bindings :
    (x : Resource) (out : List Resource) (bs : List RoleBinding)
    → In x out
    → In x (scopes_of_bindings out bs)
unfolding scopes_of_bindings
In-scopes_of_bindings x out [] m = m
In-scopes_of_bindings x out (b ∷ bs) m =
    In-scopes_of_bindings x (add_own out (own_scope b.scope_level b.project_id b.environment_id)) bs
      (In-add_own x out (own_scope b.scope_level b.project_id b.environment_id) m)

In-scopes_of_grants :
    (x : Resource) (out : List Resource) (gs : List BreakGlassGrant)
    → In x out
    → In x (scopes_of_grants out gs)
unfolding scopes_of_grants
In-scopes_of_grants x out [] m = m
In-scopes_of_grants x out (g ∷ gs) m =
    In-scopes_of_grants x (add_own out (own_scope g.scope_level g.project_id g.environment_id)) gs
      (In-add_own x out (own_scope g.scope_level g.project_id g.environment_id) m)

own-scopes_of_bindings :
    (r : Resource) (out : List Resource) (b : RoleBinding) (bs : List RoleBinding)
    → In b bs
    → own_scope b.scope_level b.project_id b.environment_id ≡ some r
    → resource_eq r instance_scope ≡ false
    → In r (scopes_of_bindings out bs)
unfolding scopes_of_bindings
own-scopes_of_bindings r out b [] m o h = elim m [ ]
own-scopes_of_bindings r out b (c ∷ bs) (inl e) o h =
    In-scopes_of_bindings r _ bs (rw (← e) (rw o (In-add_scope_self out r h)))
own-scopes_of_bindings r out b (c ∷ bs) (inr m) o h =
    own-scopes_of_bindings r (add_own out (own_scope c.scope_level c.project_id c.environment_id)) b
      bs m o h

own-scopes_of_grants :
    (r : Resource) (out : List Resource) (g : BreakGlassGrant) (gs : List BreakGlassGrant)
    → In g gs
    → own_scope g.scope_level g.project_id g.environment_id ≡ some r
    → resource_eq r instance_scope ≡ false
    → In r (scopes_of_grants out gs)
unfolding scopes_of_grants
own-scopes_of_grants r out g [] m o h = elim m [ ]
own-scopes_of_grants r out g (c ∷ gs) (inl e) o h =
    In-scopes_of_grants r _ gs (rw (← e) (rw o (In-add_scope_self out r h)))
own-scopes_of_grants r out g (c ∷ gs) (inr m) o h =
    own-scopes_of_grants r (add_own out (own_scope c.scope_level c.project_id c.environment_id)) g
      gs m o h

pub binding-candidate_scopes :
    (r : Resource) (b : RoleBinding) (bs : List RoleBinding) (gs : List BreakGlassGrant)
    → In b bs
    → own_scope b.scope_level b.project_id b.environment_id ≡ some r
    → resource_eq r instance_scope ≡ false
    → In r (candidate_scopes bs gs)
unfolding candidate_scopes
binding-candidate_scopes r b bs gs m o h =
    In-scopes_of_grants r (scopes_of_bindings [] bs) gs (own-scopes_of_bindings r [] b bs m o h)

pub grant-candidate_scopes :
    (r : Resource) (g : BreakGlassGrant) (bs : List RoleBinding) (gs : List BreakGlassGrant)
    → In g gs
    → own_scope g.scope_level g.project_id g.environment_id ≡ some r
    → resource_eq r instance_scope ≡ false
    → In r (candidate_scopes bs gs)
unfolding candidate_scopes
grant-candidate_scopes r g bs gs m o h =
    own-scopes_of_grants r (scopes_of_bindings [] bs) g gs m o h
