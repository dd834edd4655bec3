-- ===== src/Authz/Effective/Agrees.antt =====
-- The permission set agrees with `Can`: at the instance, and on some resource at all.
use janus_secrets.Common.{
  ℕ, String, ◌≡◌, refl, sym, ◌∙◌, ◌↔◌, Bool, true, false, List, any_elim, contains, arith, Option,
  some, none, inl, inr, Bool-cases, ok, is_ok,
}
use janus_secrets.Authz.Actions.{Action}
use janus_secrets.Authz.Scope.{
  Resource, instance_scope, TokenScope, RoleBinding, BreakGlassGrant, token_allows,
}
use janus_secrets.Authz.Engine.{Engine, Principal, PrincipalKind, can}
use janus_secrets.Authz.Engine.Rules.{can-rule, can-token_rule, can-other_rule, PrincipalKind-cases}
use janus_secrets.Authz.Effective.{
  Effective, effective, effective_kind, effective_user, effective_token, no_effect,
  candidate_scopes, token_resource, token_effective, user_effective,
}
use janus_secrets.Authz.Effective.Reach.{allows, allows_reach}
use janus_secrets.Authz.Effective.Members.{
  user_effective-at_instance, user_effective-anywhere, token_effective-at_instance,
  token_effective-anywhere, effective_user-eq_ok, token_allows-token_resource,
}

-- The conclusion of both theorems, for the kind of principal at hand.
abbrev Agrees : Engine → Principal → Option TokenScope → Action → Effective → Type 0
Agrees e p scope a eff =
    (contains a eff.at_instance ≡ is_ok (can e p scope a instance_scope))
    × ((contains a eff.anywhere ≡ true) ↔ ((res : Resource) × (is_ok (can e p scope a res) ≡ true)))

-- Two predicates on resources that agree hold somewhere together.
somewhere_iff :
    (p q : Resource → Bool) (b : Bool)
    → ((r : Resource) → p r ≡ q r)
    → (b ≡ true → (r : Resource) × (p r ≡ true))
    → ((r : Resource) → p r ≡ true → b ≡ true)
    → (b ≡ true) ↔ ((r : Resource) × (q r ≡ true))
somewhere_iff p q b same to from =
    (λ h. let (r, t) = to h in (r, rw (same r) at t), λ h. from h.0 (rw (same h.0) h.1))

user_somewhere :
    (bs : List RoleBinding) (gs : List BreakGlassGrant) (now : ℕ) (a : Action)
    → contains a (user_effective bs gs now).anywhere ≡ true
    → (r : Resource) × (allows bs gs now a r ≡ true)
user_somewhere bs gs now a h = elim (Bool-cases (allows bs gs now a instance_scope)) [
  | inl i ↦ (instance_scope, i)
  | inr n ↦
      let (r, m, t) =
        any_elim (allows bs gs now a) (candidate_scopes bs gs)
          (rw (user_effective-anywhere bs gs now a, n) at h) in
      (r, t)
]

user_anywhere :
    (bs : List RoleBinding) (gs : List BreakGlassGrant) (now : ℕ) (a : Action) (r : Resource)
    → allows bs gs now a r ≡ true
    → contains a (user_effective bs gs now).anywhere ≡ true
user_anywhere bs gs now a r h =
    rw (user_effective-anywhere bs gs now a)
      (elim (allows_reach bs gs now a r h) [ inl i ↦ rw i refl | inr c ↦ ground arith ])

user_Agrees :
    (e : Engine) (p : Principal) (scope : Option TokenScope) (a : Action) {eff : Effective}
    → p.kind ≡ PrincipalKind.user
    → effective e p scope ≡ ok eff
    → Agrees e p scope a eff
unfolding effective effective_kind
user_Agrees e p scope a k h =
    let h' : effective_user e p.id ≡ ok _ = rw (k, effective_kind) at h in
    let (bs, gs, hb, hg, same) = effective_user-eq_ok e p.id h' in
    let rule = λ (res : Resource). can-rule e p scope a res k hb hg in
    rw same (
      user_effective-at_instance bs gs e.now a ∙ sym (rule instance_scope),
      somewhere_iff (allows bs gs e.now a) (λ r. is_ok (can e p scope a r)) _ (λ r. sym (rule r))
          (user_somewhere bs gs e.now a) (user_anywhere bs gs e.now a),
    )

token_somewhere :
    (s : TokenScope) (a : Action)
    → contains a (token_effective s).anywhere ≡ true
    → (r : Resource) × (token_allows s a r ≡ true)
token_somewhere s a h = elim (Bool-cases (token_allows s a instance_scope)) [
  | inl i ↦ (instance_scope, i)
  | inr n ↦ (token_resource s, rw (token_effective-anywhere s a, n) at h)
]

token_anywhere :
    (s : TokenScope) (a : Action) (r : Resource)
    → token_allows s a r ≡ true
    → contains a (token_effective s).anywhere ≡ true
token_anywhere s a r h =
    ground (arith, token_effective-anywhere s a, token_allows-token_resource s a r h)

-- A principal that can do nothing has the empty set.
no_Agrees :
    (e : Engine) (p : Principal) (scope : Option TokenScope) (a : Action) {eff : Effective}
    → eff ≡ no_effect
    → ((res : Resource) → is_ok (can e p scope a res) ≡ false)
    → Agrees e p scope a eff
no_Agrees e p scope a same deny =
    rw same (rw (deny instance_scope) refl, (λ h. cc, λ h. cc (h.1, deny h.0)))

token_Agrees :
    (e : Engine) (p : Principal) (scope : Option TokenScope) (a : Action) {eff : Effective}
    → p.kind ≡ PrincipalKind.service_token
    → effective e p scope ≡ ok eff
    → Agrees e p scope a eff
unfolding effective effective_kind effective_token
token_Agrees e p none a {eff} k h =
    no_Agrees e p none a (ground arith) (λ res. can-token_rule e p none a res k)
token_Agrees e p (some s) a {eff} k h =
    let rule = λ (res : Resource). can-token_rule e p (some s) a res k in
    let same : eff ≡ token_effective s = ground arith in
    rw same (
      token_effective-at_instance s a ∙ sym (rule instance_scope),
      somewhere_iff (token_allows s a) (λ r. is_ok (can e p (some s) a r)) _ (λ r. sym (rule r))
          (token_somewhere s a) (token_anywhere s a),
    )

other_Agrees :
    (e : Engine) (p : Principal) (scope : Option TokenScope) (a : Action) {eff : Effective}
    (kind : String)
    → p.kind ≡ PrincipalKind.other_kind kind
    → effective e p scope ≡ ok eff
    → Agrees e p scope a eff
unfolding effective effective_kind
other_Agrees e p scope a kind k h =
    no_Agrees e p scope a (ground arith) (λ res. can-other_rule e p scope a res kind k)

effective-Agrees :
    (e : Engine) (p : Principal) (scope : Option TokenScope) (a : Action) {eff : Effective}
    → effective e p scope ≡ ok eff
    → Agrees e p scope a eff
effective-Agrees e p scope a h = elim (PrincipalKind-cases p.kind) [
  | inl k ↦ user_Agrees e p scope a k h
  | inr (inl k) ↦ token_Agrees e p scope a k h
  | inr (inr (kind, k)) ↦ other_Agrees e p scope a kind k h
]

-- Where `Effective` returns a permission set, for any principal, an action is in its Instance part
-- exactly if `Can` allows it on the instance-scoped resource.
pub effective-at_instance :
    (e : Engine) (p : Principal) (scope : Option TokenScope) (a : Action) {eff : Effective}
    → effective e p scope ≡ ok eff
    → contains a eff.at_instance ≡ is_ok (can e p scope a instance_scope)
effective-at_instance e p scope a h = (effective-Agrees e p scope a h).0

-- Where `Effective` returns a permission set, for any principal, an action is in its Anywhere part
-- exactly if there is some resource on which `Can` allows it.
pub effective-anywhere :
    (e : Engine) (p : Principal) (scope : Option TokenScope) (a : Action) {eff : Effective}
    → effective e p scope ≡ ok eff
    → (contains a eff.anywhere ≡ true) ↔ ((res : Resource) × (is_ok (can e p scope a res) ≡ true))
effective-anywhere e p scope a h = (effective-Agrees e p scope a h).1
