-- ===== src/Authz/Scope/Covers.antt =====
-- The scope test that a binding and a grant share, on the three columns that it reads.
use janus_secrets.Common.{
  String, ◌≡◌, Bool, true, false, Option, some, str_eq, eq_iff, arith, if◌then◌else◌,
}
use janus_secrets.Authz.Scope.{
  Resource, RoleBinding, BreakGlassGrant, names, binding_applies, grant_applies,
}

abbrev pub covers : String → Option String → Option String → Resource → Bool
covers level project_id environment_id res =
    if str_eq level "instance"
    then true
    else if str_eq level "project"
    then names project_id res.project_id
    else if str_eq level "environment"
    then names environment_id res.env_id
    else false

-- The row's scope is one project.
abbrev pub OnProject : String → String → Option String → Type 0
OnProject pid level project_id = (level ≡ "project") × (project_id ≡ some pid)

names-eq : (id pid : String) → names (some pid) id ≡ true → id ≡ pid
names-eq id pid h = ground (arith, eq_iff pid id)

covers_project :
    (level : String) (p v : Option String) (res : Resource) (pid : String)
    → OnProject pid level p
    → covers level p v res ≡ true
    → res.project_id ≡ pid
covers_project level p v res pid (l, i) h = names-eq res.project_id pid (rw (l, i) at h)

pub binding-OnProject :
    (b : RoleBinding) (res : Resource) (pid : String)
    → OnProject pid b.scope_level b.project_id
    → binding_applies b res ≡ true
    → res.project_id ≡ pid
unfolding binding_applies
binding-OnProject b res pid on h =
    covers_project b.scope_level b.project_id b.environment_id res pid on h

pub grant-OnProject :
    (g : BreakGlassGrant) (res : Resource) (pid : String)
    → OnProject pid g.scope_level g.project_id
    → grant_applies g res ≡ true
    → res.project_id ≡ pid
unfolding grant_applies
grant-OnProject g res pid on h =
    covers_project g.scope_level g.project_id g.environment_id res pid on h
