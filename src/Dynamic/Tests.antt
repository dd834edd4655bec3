-- ===== src/Dynamic/Tests.antt =====
-- Runs of the leases on small data, for the theorems of Dynamic.Orphans and Dynamic.Ends.
use janus_secrets.Common.{ℕ, ◌≡◌, refl, true, false, List, [], ◌∷◌}
use janus_secrets.Dynamic.{
  absent, creating, revoked, expired, Lease, Ttls, reserving, revoke_reading, sweep_reading,
  returned, Call, due, act, step_at, Move, issuer, other, State, move, run,
}
use janus_secrets.Dynamic.Fits.{Clean}
use janus_secrets.Dynamic.Orphans.{run-Clean, Patient}
use janus_secrets.Dynamic.Ends.{hasty-orphans, hasty, working}

abbrev ttls : Ttls
ttls = record { default_ttl = 3600; max_ttl = 86400 }

abbrev unissued : Lease
unissued = record {
  status = absent;
  created_at = 0;
  expires_at = 0;
  max_expires_at = 0;
  role_exists = false;
}

abbrev failing : ℕ → Call
failing now = record { works = false; in_effect = false; now = now }

abbrev answer_lost : ℕ → Call
answer_lost now = record { works = false; in_effect = true; now = now }

-- The lease is issued, the drop of a revocation has its answer lost, and the lease manager ends it.
abbrev revoked_in_trouble : List Move
revoked_in_trouble =
    issuer (working 100)
    ∷ issuer (working 100)
    ∷ issuer (working 101)
    ∷ other 0 (working 200)
    ∷ other 0 (answer_lost 200)
    ∷ other 0 (working 201)
    ∷ other 1 (working 230)
    ∷ other 1 (working 230)
    ∷ other 1 (working 231)
    ∷ []

abbrev started : State
started = record {
  lease = unissued;
  issuing = reserving;
  others = revoke_reading ∷ sweep_reading ∷ [];
}

troubled-Patient : Patient ttls revoked_in_trouble started
unfolding move step_at act
troubled-Patient = (refl, (refl, (refl, (refl, (refl, (refl, tt))))))

run-Clean_example : Clean (run ttls revoked_in_trouble started).lease
run-Clean_example =
    run-Clean ttls revoked_in_trouble unissued (revoke_reading ∷ sweep_reading ∷ [])
      (refl, (refl, tt)) tt troubled-Patient

run_in_trouble : (run ttls revoked_in_trouble started).lease.status ≡ expired
unfolding run move step_at act
run_in_trouble = refl

run_in_trouble_others :
    (run ttls revoked_in_trouble started).others ≡ returned false ∷ returned true ∷ []
unfolding run move step_at act
run_in_trouble_others = refl

abbrev orphan : Lease
orphan = record {
  status = creating;
  created_at = 100;
  expires_at = 3700;
  max_expires_at = 86500;
  role_exists = true;
}

hasty-orphans_example :
    let after =
      run ttls
        (hasty 100)
        (record { lease = unissued; issuing = reserving; others = revoke_reading ∷ [] }) in
    (after.lease.role_exists ≡ true)
    × (after.lease.status ≡ revoked)
    × (after.issuing ≡ returned false)
    × (after.others ≡ returned true ∷ [])
    × ((later : ℕ) → due later after.lease ≡ false)
    × ((c : Call) → (act ttls revoke_reading c after.lease).0 ≡ after.lease)
hasty-orphans_example = hasty-orphans ttls unissued 100
