-- ===== src/Dynamic.antt =====
-- One lease of a dynamic credential (internal/dynamic/issue.go, lease.go and scheduler.go, on the row
-- updates of internal/store/dynamic.go) under several callers at once: the one that issues it, calls
-- of RevokeLease and RenewLease, and passes of the lease manager. A caller makes one call at a time
-- to the store or to the database; a call may fail, with its effect or without, and a caller that
-- never moves again has crashed. Times are in seconds.
pub mod Fits
pub mod Orphans
pub mod Ends
mod Tests
use janus_secrets.Common.{
  ℕ, zero, suc, ◌+◌, Bool, true, false, ◌&&◌, ◌||◌, List, [], ◌∷◌, ltb, leb, if◌then◌else◌,
}

pub data Status : Type 0 where
  absent creating active revoked expired revoke_failed : Status

-- The lease's row, and whether its role exists in the database.
pub record Lease : Type 0 where
  pub status : Status
  pub created_at : ℕ
  pub expires_at : ℕ
  pub max_expires_at : ℕ
  pub role_exists : Bool

-- The TTLs of the dynamic role.
pub record Ttls : Type 0 where
  pub default_ttl : ℕ
  pub max_ttl : ℕ

-- Where a caller is: in front of the call that the name says. A revocation carries the terminal
-- status that it sets, a renewal the new expiry.
pub data Stage : Type 0 where
  reserving applying activating : Stage
  revoke_reading sweep_reading renew_reading : Stage
  dropping marking : Status → Stage
  marking_failed : Stage
  altering renewing : ℕ → Stage
  returned : Bool → Stage

pub record Call : Type 0 where
  pub works : Bool
  pub in_effect : Bool
  pub now : ℕ

abbrev pub creating_grace : ℕ
creating_grace = 300

abbrev is_active : Status → Bool
is_active active = true
is_active absent = false
is_active creating = false
is_active revoked = false
is_active expired = false
is_active revoke_failed = false

-- The condition of `ClaimDue`.
abbrev pub due_status : Status → ℕ → Lease → Bool
due_status active now l = leb l.expires_at now
due_status revoke_failed now l = true
due_status creating now l = leb (l.created_at + creating_grace) now
due_status absent now l = false
due_status revoked now l = false
due_status expired now l = false

abbrev pub due : ℕ → Lease → Bool
due now l = due_status l.status now l

-- `Activate`: creating -> active, for a row in that status.
abbrev pub activate : Status → Status
activate creating = active
activate absent = absent
activate active = active
activate revoked = revoked
activate expired = expired
activate revoke_failed = revoke_failed

abbrev is_creating : Status → Bool
is_creating creating = true
is_creating absent = false
is_creating active = false
is_creating revoked = false
is_creating expired = false
is_creating revoke_failed = false

-- `Create`
abbrev pub create : Ttls → ℕ → Lease → Lease
create t now l = record {
  status = creating;
  created_at = now;
  expires_at = now + t.default_ttl;
  max_expires_at = now + t.max_ttl;
  role_exists = l.role_exists;
}

-- The expiry that `RenewLease` computes.
abbrev pub new_expiry : Ttls → ℕ → Lease → ℕ
new_expiry t now l =
    let wanted = now + t.default_ttl in
    let extended = if ltb wanted l.expires_at then l.expires_at else wanted in
    if ltb l.max_expires_at extended then l.max_expires_at else extended

-- A call with an effect on the lease, and what follows it.
abbrev pub perform : Call → Lease → (Lease → Lease) → Stage → Stage → Lease × Stage
perform c l f next failed =
    (if c.works || c.in_effect then f l else l, if c.works then next else failed)

-- What `RevokeLease` does after it has read the row; without a row there is nothing to revoke.
abbrev after_reading : Status → Stage
after_reading absent = returned false
after_reading creating = dropping revoked
after_reading active = dropping revoked
after_reading revoke_failed = dropping revoked
after_reading revoked = returned true
after_reading expired = returned true

-- The next call of a caller.
unfoldable pub act : Ttls → Stage → Call → Lease → Lease × Stage
-- `IssueCreds`: reserve, apply, commit; a failed apply is followed by a revocation.
act t reserving c l = perform c l (create t c.now) applying (returned false)
act t applying c l =
    perform c l (λ l. record l { role_exists = true }) activating (dropping revoked)
act t activating c l =
    perform c l (λ l. record l { status = activate l.status }) (returned (is_creating l.status))
      (returned false)
-- `RevokeLease`
act t revoke_reading c l = perform c l (λ l. l) (after_reading l.status) (returned false)
-- `RunDue`
act t sweep_reading c l =
    perform c l (λ l. l) (if due c.now l then dropping expired else returned true) (returned false)
-- `revoke`
act t (dropping s) c l =
    perform c l (λ l. record l { role_exists = false }) (marking s) marking_failed
act t (marking s) c l = perform c l (λ l. record l { status = s }) (returned true) (returned false)
act t marking_failed c l =
    perform c l (λ l. record l { status = revoke_failed }) (returned false) (returned false)
-- `RenewLease`
act t renew_reading c l =
    perform c l (λ l. l)
      (if is_active l.status then altering (new_expiry t c.now l) else returned false)
      (returned false)
act t (altering e) c l = perform c l (λ l. l) (renewing e) (returned false)
act t (renewing e) c l =
    perform c l (λ l. if is_active l.status then record l { expires_at = e } else l)
      (returned (is_active l.status)) (returned false)
act t (returned o) c l = (l, returned o)

-- The caller at a position makes its next call.
unfoldable pub step_at : Ttls → ℕ → Call → Lease → List Stage → Lease × List Stage
step_at t n c l [] = (l, [])
step_at t zero c l (s ∷ ss) = let after = act t s c l in (after.0, after.1 ∷ ss)
step_at t (suc n) c l (s ∷ ss) = let after = step_at t n c l ss in (after.0, s ∷ after.1)

-- Who moves: the issuer, or one of the others.
pub data Move : Type 0 where
  issuer : Call → Move
  other : ℕ → Call → Move

pub record State : Type 0 where
  pub lease : Lease
  pub issuing : Stage
  pub others : List Stage

unfoldable pub move : Ttls → Move → State → State
move t (issuer c) s =
    let after = act t s.issuing c s.lease in record s { lease = after.0; issuing = after.1 }
move t (other n c) s =
    let after = step_at t n c s.lease s.others in record s { lease = after.0; others = after.1 }

unfoldable pub run : Ttls → List Move → State → State
run t [] s = s
run t (m ∷ ms) s = run t ms (move t m s)
