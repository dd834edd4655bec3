-- ===== src/Authz/Engine/Rules.antt =====
-- `Can` for a user, by the rows that the stores answer, and by their errors.
use janus_secrets.Common.{
  ℕ, String, ◌≡◌, refl, Bool, true, false, ◌&&◌, ◌||◌, List, any_intro, any_elim, In, arith, Result,
  ok, err, is_ok, some, none, Option, ◌⊎◌, inl, inr,
}
use janus_secrets.Authz.Actions.{Action, role_allows}
use janus_secrets.Authz.Scope.{
  Resource, RoleBinding, BreakGlassGrant, TokenScope, active, binding_applies, grant_applies,
  user_allows, token_allows,
}
use janus_secrets.Authz.Engine.{
  Engine, Error, Principal, PrincipalKind, bindings_for, grants_of, grants_allow, can, can_user,
  can_token, via_groups, can_kind, grant_allows,
}

-- The two searches, by the row that they find.
pub user_allows_intro :
    (b : RoleBinding) (bs : List RoleBinding) (a : Action) (res : Resource)
    → In b bs
    → binding_applies b res ≡ true
    → role_allows b.role a ≡ true
    → user_allows bs a res ≡ true
unfolding user_allows
user_allows_intro b bs a res m h k =
    any_intro (λ b. binding_applies b res && role_allows b.role a) b bs m (rw (h, k) refl)

pub user_allows_elim :
    (bs : List RoleBinding) (a : Action) (res : Resource)
    → user_allows bs a res ≡ true
    → (b : RoleBinding) × In b bs × (binding_applies b res ≡ true) × (role_allows b.role a ≡ true)
unfolding user_allows
user_allows_elim bs a res h =
    let (b, m, both) = any_elim (λ b. binding_applies b res && role_allows b.role a) bs h in
    (b, m, ground arith, ground arith)

pub grants_allow_intro :
    (g : BreakGlassGrant) (gs : List BreakGlassGrant) (now : ℕ) (a : Action) (res : Resource)
    → In g gs
    → active g now ≡ true
    → grant_applies g res ≡ true
    → role_allows g.elevated_role a ≡ true
    → grants_allow gs now a res ≡ true
unfolding grants_allow
grants_allow_intro g gs now a res m l h k =
    any_intro (λ g. active g now && (grant_applies g res && role_allows g.elevated_role a)) g gs m
      (rw (l, h, k) refl)

pub grants_allow_elim :
    (gs : List BreakGlassGrant) (now : ℕ) (a : Action) (res : Resource)
    → grants_allow gs now a res ≡ true
    → (g : BreakGlassGrant) × In g gs
      × (active g now ≡ true)
      × (grant_applies g res ≡ true)
      × (role_allows g.elevated_role a ≡ true)
unfolding grants_allow
grants_allow_elim gs now a res h =
    let (g, m, all) =
      any_elim (λ g. active g now && (grant_applies g res && role_allows g.elevated_role a)) gs h in
    (g, m, ground arith, ground arith, ground arith)

can_user-rule :
    (e : Engine) (id : String) (action : Action) (res : Resource) {bs : List RoleBinding}
    {gs : List BreakGlassGrant}
    → bindings_for e id ≡ ok bs
    → grants_of e id ≡ ok gs
    → is_ok (can_user e id action res)
      ≡ (user_allows bs action res || grants_allow gs e.now action res)
unfolding can_user grant_allows
can_user-rule e id action res hb hg = rw (hb, hg) (ground arith)

-- With stores that answer, `Can` decides as the two rules do.
pub can-rule :
    (e : Engine) (p : Principal) (scope : Option TokenScope) (action : Action) (res : Resource)
    {bs : List RoleBinding} {gs : List BreakGlassGrant}
    → p.kind ≡ PrincipalKind.user
    → bindings_for e p.id ≡ ok bs
    → grants_of e p.id ≡ ok gs
    → is_ok (can e p scope action res)
      ≡ (user_allows bs action res || grants_allow gs e.now action res)
unfolding can_kind can
can-rule e p scope action res k hb hg = rw k (can_user-rule e p.id action res hb hg)

-- `Can` grants a user nothing unless every binding source has answered: an error of the direct or
-- of the group store is never an allowance.
pub can-ok_needs_bindings :
    (e : Engine) (p : Principal) (scope : Option TokenScope) (action : Action) (res : Resource)
    → p.kind ≡ PrincipalKind.user
    → can e p scope action res ≡ ok tt
    → (bs : List RoleBinding) × (bindings_for e p.id ≡ ok bs)
unfolding can_kind can can_user
can-ok_needs_bindings e p scope action res k h = ground arith

abbrev pub token_decides : Option TokenScope → Action → Resource → Bool
token_decides none a res = false
token_decides (some scope) a res = token_allows scope a res

can_token-rule :
    (scope : Option TokenScope) (a : Action) (res : Resource)
    → is_ok (can_token scope a res) ≡ token_decides scope a res
unfolding can_token
can_token-rule none a res = refl
can_token-rule (some scope) a res = ground arith

pub can-token_rule :
    (e : Engine) (p : Principal) (scope : Option TokenScope) (a : Action) (res : Resource)
    → p.kind ≡ PrincipalKind.service_token
    → is_ok (can e p scope a res) ≡ token_decides scope a res
unfolding can_kind can
can-token_rule e p scope a res k = rw k (can_token-rule scope a res)

pub can-other_rule :
    (e : Engine) (p : Principal) (scope : Option TokenScope) (a : Action) (res : Resource)
    (kind : String)
    → p.kind ≡ PrincipalKind.other_kind kind
    → is_ok (can e p scope a res) ≡ false
unfolding can_kind can
can-other_rule e p scope a res kind k = rw k refl

-- A principal is a user, a service token, or of a kind that the engine does not know.
pub PrincipalKind-cases :
    (k : PrincipalKind)
    → (k ≡ PrincipalKind.user)
      ⊎ ((k ≡ PrincipalKind.service_token) ⊎ ((s : String) × (k ≡ PrincipalKind.other_kind s)))
PrincipalKind-cases PrincipalKind.user = inl refl
PrincipalKind-cases PrincipalKind.service_token = inr (inl refl)
PrincipalKind-cases (PrincipalKind.other_kind s) = inr (inr (s, refl))

pub bindings_for-err :
    (e : Engine) (id : String) {x : Error}
    → (e.bindings id ≡ err x)
      ⊎ ((direct : List RoleBinding) × (list : String → Result Error (List RoleBinding))
          × (e.bindings id ≡ ok direct)
          × (e.groups ≡ some list)
          × (list id ≡ err x))
    → bindings_for e id ≡ err x
unfolding bindings_for via_groups
bindings_for-err e id (inl h) = rw h refl
bindings_for-err e id (inr (direct, list, h, g, k)) = rw h (rw g (rw k refl))

pub can-bindings_err :
    (e : Engine) (p : Principal) (scope : Option TokenScope) (action : Action) (res : Resource)
    {x : Error}
    → p.kind ≡ PrincipalKind.user
    → bindings_for e p.id ≡ err x
    → can e p scope action res ≡ err x
unfolding can can_kind can_user
can-bindings_err e p scope action res k h = rw k (rw h refl)
