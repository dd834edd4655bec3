-- ===== src/Dynamic/Fits.antt =====
-- What a caller of a lease relies on at each of its calls, and that one call keeps it for itself and
-- for the others.
use janus_secrets.Common.{ℕ, zero, suc, ◌≡◌, Bool, true, false, List, [], ◌∷◌, arith}
use janus_secrets.Dynamic.{
  Status, absent, creating, active, revoked, expired, revoke_failed, Lease, Ttls, Stage, reserving,
  applying, activating, revoke_reading, sweep_reading, renew_reading, dropping, marking,
  marking_failed, altering, renewing, returned, Call, act, step_at,
}

-- What a caller that does not issue is at before its first call, and after its last.
abbrev pub idle : Stage → Bool
idle revoke_reading = true
idle sweep_reading = true
idle renew_reading = true
idle (returned o) = true
idle reserving = false
idle applying = false
idle activating = false
idle (dropping s) = false
idle (marking s) = false
idle marking_failed = false
idle (altering e) = false
idle (renewing e) = false

abbrev pub AllIdle : List Stage → Type 0
AllIdle [] = Unit
AllIdle (s ∷ ss) = (idle s ≡ true) × AllIdle ss

-- A revocation that is about to be recorded has dropped the role; only the issuer makes it.
abbrev pub Fits : Lease → Stage → Type 0
Fits l reserving = ⊥
Fits l applying = ⊥
Fits l activating = Unit
Fits l revoke_reading = Unit
Fits l sweep_reading = Unit
Fits l renew_reading = Unit
Fits l (dropping s) = Unit
Fits l (marking s) = l.role_exists ≡ false
Fits l marking_failed = Unit
Fits l (altering e) = Unit
Fits l (renewing e) = Unit
Fits l (returned o) = Unit

abbrev pub AllFit : Lease → List Stage → Type 0
AllFit l [] = Unit
AllFit l (s ∷ ss) = Fits l s × AllFit l ss

abbrev Ended : Status → Bool → Type 0
Ended revoked role_exists = role_exists ≡ false
Ended expired role_exists = role_exists ≡ false
Ended absent role_exists = Unit
Ended creating role_exists = Unit
Ended active role_exists = Unit
Ended revoke_failed role_exists = Unit

-- A lease whose row says that it is over has no role in the database.
abbrev pub Clean : Lease → Type 0
Clean l = Ended l.status l.role_exists

pub act-Clean :
    (t : Ttls) (s : Stage) (c : Call) (l : Lease)
    → Fits l s
    → Clean l
    → Clean (act t s c l).0
      × Fits (act t s c l).0 (act t s c l).1
      × (l.role_exists ≡ false → (act t s c l).0.role_exists ≡ false)
unfolding act
act-Clean t reserving c l f k = absurd f
act-Clean t applying c l f k = absurd f
act-Clean t activating c l f k = ground arith
act-Clean t revoke_reading c l f k = ground arith
act-Clean t sweep_reading c l f k = ground arith
act-Clean t renew_reading c l f k = ground arith
act-Clean t (dropping s) c l f k = ground arith
act-Clean t (marking s) c l f k = ground arith
act-Clean t marking_failed c l f k = ground arith
act-Clean t (altering e) c l f k = ground arith
act-Clean t (renewing e) c l f k = ground arith
act-Clean t (returned o) c l f k = ground arith

pub Fits-mono :
    (l l' : Lease) (s : Stage)
    → (l.role_exists ≡ false → l'.role_exists ≡ false)
    → Fits l s
    → Fits l' s
Fits-mono l l' reserving h f = f
Fits-mono l l' applying h f = f
Fits-mono l l' activating h f = tt
Fits-mono l l' revoke_reading h f = tt
Fits-mono l l' sweep_reading h f = tt
Fits-mono l l' renew_reading h f = tt
Fits-mono l l' (dropping s) h f = tt
Fits-mono l l' (marking s) h f = h f
Fits-mono l l' marking_failed h f = tt
Fits-mono l l' (altering e) h f = tt
Fits-mono l l' (renewing e) h f = tt
Fits-mono l l' (returned o) h f = tt

pub AllFit-mono :
    (l l' : Lease) (ss : List Stage)
    → (l.role_exists ≡ false → l'.role_exists ≡ false)
    → AllFit l ss
    → AllFit l' ss
AllFit-mono l l' [] h f = tt
AllFit-mono l l' (s ∷ ss) h f = (Fits-mono l l' s h f.0, AllFit-mono l l' ss h f.1)

idle-Fits : (l : Lease) (s : Stage) → idle s ≡ true → Fits l s
idle-Fits l reserving h = cc
idle-Fits l applying h = cc
idle-Fits l activating h = tt
idle-Fits l revoke_reading h = tt
idle-Fits l sweep_reading h = tt
idle-Fits l renew_reading h = tt
idle-Fits l (dropping s) h = tt
idle-Fits l (marking s) h = cc
idle-Fits l marking_failed h = tt
idle-Fits l (altering e) h = tt
idle-Fits l (renewing e) h = tt
idle-Fits l (returned o) h = tt

pub AllIdle-AllFit : (l : Lease) (ss : List Stage) → AllIdle ss → AllFit l ss
AllIdle-AllFit l [] h = tt
AllIdle-AllFit l (s ∷ ss) h = (idle-Fits l s h.0, AllIdle-AllFit l ss h.1)

pub step_at-Clean :
    (t : Ttls) (n : ℕ) (c : Call) (l : Lease) (ss : List Stage)
    → AllFit l ss
    → Clean l
    → Clean (step_at t n c l ss).0
      × AllFit (step_at t n c l ss).0 (step_at t n c l ss).1
      × (l.role_exists ≡ false → (step_at t n c l ss).0.role_exists ≡ false)
unfolding step_at
step_at-Clean t n c l [] f k = (k, tt, λ h. h)
step_at-Clean t zero c l (s ∷ ss) f k =
    let (k', f', h) = act-Clean t s c l f.0 k in
    (k', (f', AllFit-mono l (act t s c l).0 ss h f.1), h)
step_at-Clean t (suc n) c l (s ∷ ss) f k =
    let (k', f', h) = step_at-Clean t n c l ss f.1 k in
    (k', (Fits-mono l (step_at t n c l ss).0 s h f.0, f'), h)
