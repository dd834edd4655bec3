-- ===== src/Dynamic/Ends.antt =====
-- That a lease ends, that it never outlives its ceiling, and what a hasty revocation leaves behind.
use janus_secrets.Common.{ℕ, ◌+◌, ◌≤◌, ◌≡◌, refl, ◌⊎◌, true, false, List, [], ◌∷◌, arith}
use janus_secrets.Dynamic.{
  creating, active, revoked, expired, revoke_failed, Lease, Ttls, reserving, revoke_reading,
  sweep_reading, returned, Call, due, creating_grace, act, step_at, Move, issuer, other, move, run,
}

-- Every lease ends: in whatever state callers that crashed or failed have left a lease that is not
-- over, a pass of the lease manager after its expiry and five minutes after its creation, whose
-- three calls work, drops its role and marks it as expired.
pub sweep-expires :
    (t : Ttls) (l : Lease) (c1 c2 c3 : Call)
    → (l.status ≡ creating) ⊎ ((l.status ≡ active) ⊎ (l.status ≡ revoke_failed))
    → l.expires_at ≤ c1.now
    → l.created_at + creating_grace ≤ c1.now
    → c1.works ≡ true
    → c2.works ≡ true
    → c3.works ≡ true
    → let after = act t sweep_reading c1 l in
      let dropped = act t after.1 c2 after.0 in
      act t dropped.1 c3 dropped.0
      ≡ (record l { status = expired; role_exists = false }, returned true)
unfolding act
sweep-expires t l c1 c2 c3 h e g k1 k2 k3 = ground arith

abbrev pub working : ℕ → Call
working now = record { works = true; in_effect = true; now = now }

-- `IssueCreds` reserves, `RevokeLease` runs, `IssueCreds` goes on.
abbrev pub hasty : ℕ → List Move
hasty now =
    issuer (working now)
    ∷ other 0 (working now)
    ∷ other 0 (working now)
    ∷ other 0 (working now)
    ∷ issuer (working now)
    ∷ issuer (working now)
    ∷ []

-- A revocation that runs between the reservation of a lease and the creation of its role leaves the
-- role behind for good: though every call works, `RevokeLease` reports success and `IssueCreds`
-- fails, the lease is revoked, its role exists, no pass of the lease manager will ever select the
-- lease, and a further `RevokeLease` does nothing.
pub hasty-orphans :
    (t : Ttls) (l : Lease) (now : ℕ)
    → let after =
        run t
          (hasty now)
          (record { lease = l; issuing = reserving; others = revoke_reading ∷ [] }) in
      (after.lease.role_exists ≡ true)
      × (after.lease.status ≡ revoked)
      × (after.issuing ≡ returned false)
      × (after.others ≡ returned true ∷ [])
      × ((later : ℕ) → due later after.lease ≡ false)
      × ((c : Call) → (act t revoke_reading c after.lease).0 ≡ after.lease)
unfolding run move step_at act
hasty-orphans t l now = (refl, refl, refl, refl, λ later. refl, λ c. ground arith)
