-- ===== src/Dynamic/Orphans.antt =====
-- Which database roles a lease can leave behind.
use janus_secrets.Common.{ℕ, ◌≡◌, refl, Bool, true, false, List, [], ◌∷◌, arith}
use janus_secrets.Dynamic.{
  creating, Lease, Ttls, Stage, reserving, applying, activating, revoke_reading, sweep_reading,
  renew_reading, dropping, marking, marking_failed, altering, renewing, returned, Call, act,
  step_at, Move, issuer, other, State, move, run,
}
use janus_secrets.Dynamic.Fits.{
  AllIdle, Fits, AllFit, Clean, act-Clean, Fits-mono, AllFit-mono, AllIdle-AllFit, step_at-Clean,
}

-- The issuer has not yet made its role.
abbrev pub early : Stage → Bool
early reserving = true
early applying = true
early activating = false
early revoke_reading = false
early sweep_reading = false
early renew_reading = false
early (dropping s) = false
early (marking s) = false
early marking_failed = false
early (altering e) = false
early (renewing e) = false
early (returned o) = false

abbrev IssuerFits : Lease → List Stage → Stage → Type 0
IssuerFits l ss reserving = AllIdle ss
IssuerFits l ss applying = (l.status ≡ creating) × AllIdle ss
IssuerFits l ss activating = AllFit l ss
IssuerFits l ss revoke_reading = AllFit l ss
IssuerFits l ss sweep_reading = AllFit l ss
IssuerFits l ss renew_reading = AllFit l ss
IssuerFits l ss (dropping s) = AllFit l ss
IssuerFits l ss (marking s) = (l.role_exists ≡ false) × AllFit l ss
IssuerFits l ss marking_failed = AllFit l ss
IssuerFits l ss (altering e) = AllFit l ss
IssuerFits l ss (renewing e) = AllFit l ss
IssuerFits l ss (returned o) = AllFit l ss

record Inv (s : State) : Type 0 where
  pub clean : Clean s.lease
  pub fits : IssuerFits s.lease s.others s.issuing

join : (l : Lease) (ss : List Stage) (p : Stage) → Fits l p → AllFit l ss → IssuerFits l ss p
join l ss reserving f a = absurd f
join l ss applying f a = absurd f
join l ss activating f a = a
join l ss revoke_reading f a = a
join l ss sweep_reading f a = a
join l ss renew_reading f a = a
join l ss (dropping s) f a = a
join l ss (marking s) f a = (f, a)
join l ss marking_failed f a = a
join l ss (altering e) f a = a
join l ss (renewing e) f a = a
join l ss (returned o) f a = a

split :
    (l : Lease) (ss : List Stage) (p : Stage)
    → early p ≡ false
    → IssuerFits l ss p
    → Fits l p × AllFit l ss
split l ss reserving h f = cc
split l ss applying h f = cc
split l ss activating h f = (tt, f)
split l ss revoke_reading h f = (tt, f)
split l ss sweep_reading h f = (tt, f)
split l ss renew_reading h f = (tt, f)
split l ss (dropping s) h f = (tt, f)
split l ss (marking s) h f = f
split l ss marking_failed h f = (tt, f)
split l ss (altering e) h f = (tt, f)
split l ss (renewing e) h f = (tt, f)
split l ss (returned o) h f = (tt, f)

late-Inv :
    (t : Ttls) (p : Stage) (c : Call) (l : Lease) (ss : List Stage)
    → early p ≡ false
    → IssuerFits l ss p
    → Clean l
    → Clean (act t p c l).0 × IssuerFits (act t p c l).0 ss (act t p c l).1
late-Inv t p c l ss h f k =
    let (mine, others) = split l ss p h f in
    let (k', f', drops) = act-Clean t p c l mine k in
    (k', join (act t p c l).0 ss (act t p c l).1 f' (AllFit-mono l (act t p c l).0 ss drops others))

issue-Inv :
    (t : Ttls) (p : Stage) (c : Call) (l : Lease) (ss : List Stage)
    → IssuerFits l ss p
    → Clean l
    → Clean (act t p c l).0 × IssuerFits (act t p c l).0 ss (act t p c l).1
unfolding act
issue-Inv t reserving c l ss f k = ground (arith, AllIdle-AllFit (act t reserving c l).0 ss f)
issue-Inv t applying c l ss f k = ground (arith, AllIdle-AllFit (act t applying c l).0 ss f.1)
issue-Inv t activating c l ss f k = late-Inv t activating c l ss refl f k
issue-Inv t revoke_reading c l ss f k = late-Inv t revoke_reading c l ss refl f k
issue-Inv t sweep_reading c l ss f k = late-Inv t sweep_reading c l ss refl f k
issue-Inv t renew_reading c l ss f k = late-Inv t renew_reading c l ss refl f k
issue-Inv t (dropping s) c l ss f k = late-Inv t (dropping s) c l ss refl f k
issue-Inv t (marking s) c l ss f k = late-Inv t (marking s) c l ss refl f k
issue-Inv t marking_failed c l ss f k = late-Inv t marking_failed c l ss refl f k
issue-Inv t (altering e) c l ss f k = late-Inv t (altering e) c l ss refl f k
issue-Inv t (renewing e) c l ss f k = late-Inv t (renewing e) c l ss refl f k
issue-Inv t (returned o) c l ss f k = late-Inv t (returned o) c l ss refl f k

-- Nobody else moves before the issuer has made its role.
abbrev pub Patient : Ttls → List Move → State → Type 0
Patient t [] s = Unit
Patient t (issuer c ∷ ms) s = Patient t ms (move t (issuer c) s)
Patient t (other n c ∷ ms) s = (early s.issuing ≡ false) × Patient t ms (move t (other n c) s)

move_issuer-Inv : (t : Ttls) (c : Call) (s : State) → Inv s → Inv (move t (issuer c) s)
unfolding move
move_issuer-Inv t c s i =
    let (k, f) = issue-Inv t s.issuing c s.lease s.others i.fits i.clean in
    record { clean = k; fits = f }

move_other-Inv :
    (t : Ttls) (n : ℕ) (c : Call) (s : State)
    → early s.issuing ≡ false
    → Inv s
    → Inv (move t (other n c) s)
unfolding move
move_other-Inv t n c s h i =
    let (mine, theirs) = split s.lease s.others s.issuing h i.fits in
    let (k, f, drops) = step_at-Clean t n c s.lease s.others theirs i.clean in
    let after = step_at t n c s.lease s.others in
    record {
      clean = k;
      fits = join after.0 after.1 s.issuing (Fits-mono s.lease after.0 s.issuing drops mine) f;
    }

run-Inv : (t : Ttls) (ms : List Move) (s : State) → Patient t ms s → Inv s → Inv (run t ms s)
unfolding run
run-Inv t [] s p i = i
run-Inv t (issuer c ∷ ms) s p i = run-Inv t ms (move t (issuer c) s) p (move_issuer-Inv t c s i)
run-Inv t (other n c ∷ ms) s p i =
    run-Inv t ms (move t (other n c) s) p.1 (move_other-Inv t n c s p.0 i)

-- No credential outlives its lease: let one caller issue a lease, and let any number of callers
-- revoke or renew it and let the lease manager sweep it, their calls in any order, each of which may
-- fail with or without an effect, and any of which may be its caller's last. If nobody else moves
-- before the issuer has made the database role, then a lease whose row says that it is revoked or
-- expired has no role in the database.
pub run-Clean :
    (t : Ttls) (ms : List Move) (l : Lease) (others : List Stage)
    → AllIdle others
    → Clean l
    → Patient t ms (record { lease = l; issuing = reserving; others = others })
    → Clean (run t ms (record { lease = l; issuing = reserving; others = others })).lease
run-Clean t ms l others idle_ones k p =
    let i = run-Inv t ms _ p (record { clean = k; fits = idle_ones }) in i.clean
