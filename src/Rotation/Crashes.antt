-- ===== src/Rotation/Crashes.antt =====
-- What a rotation by apply keeps through failures and crashes, and what a working attempt reaches.
use janus_secrets.Common.{
  ℕ, ◌+◌, ◌≡◌, refl, ◌⊎◌, inl, Bool, true, false, none, some, List, [], ◌∷◌, arith,
}
use janus_secrets.Rotation.{
  Status, active, paused, failed, sealed, apply_failed, invalid_config, other, World, Stage,
  opening, minting, saving, applying, committing, marking, failing, returned, Thread, Call, act,
  revive, Move, tick, rotate_now, call, crash, run_move, run,
}

-- The live credential can be read: it is the secret's value, or the value that is in flight.
abbrev pub Recoverable : World → Type 0
Recoverable w = (w.target ≡ w.stored) ⊎ (w.policy.pending ≡ some w.target)

-- What an attempt knows of the world between two calls.
abbrev Fits : Stage → World → Type 0
Fits (opening pending) w = Recoverable w × (w.policy.pending ≡ pending)
Fits minting w = ⊥
Fits (saving v) w = w.target ≡ w.stored
Fits (applying v) w = Recoverable w × (w.policy.pending ≡ some v)
Fits (committing v) w = (w.target ≡ v) × (w.policy.pending ≡ some v)
Fits (marking n) w = w.target ≡ w.stored
Fits (failing e) w = Recoverable w
Fits (returned o) w = Recoverable w

record Inv (w : World) (t : Thread) : Type 0 where
  pub applier : w.policy.generates ≡ false
  pub fits : Fits t.stage w

act-Inv :
    (s : Stage) (c : Call) (w : World) (t : Thread)
    → w.policy.generates ≡ false
    → Fits s w
    → Inv (act s c w t).0 (act s c w t).1
unfolding act
act-Inv (opening none) c w t g f = ground arith
act-Inv (opening (some v)) c w t g f = ground arith
act-Inv minting c w t g f = absurd f
act-Inv (saving v) c w t g f = ground arith
act-Inv (applying v) c w t g f = ground arith
act-Inv (committing v) c w t g f = ground arith
act-Inv (marking n) c w t g f = ground arith
act-Inv (failing sealed) c w t g f = ground arith
act-Inv (failing apply_failed) c w t g f = ground arith
act-Inv (failing invalid_config) c w t g f = ground arith
act-Inv (failing other) c w t g f = ground arith
act-Inv (returned o) c w t g f = record { applier = g; fits = f }

Fits-Recoverable : (s : Stage) (w : World) → Fits s w → Recoverable w
Fits-Recoverable (opening p) w f = f.0
Fits-Recoverable minting w f = absurd f
Fits-Recoverable (saving v) w f = inl f
Fits-Recoverable (applying v) w f = f.0
Fits-Recoverable (committing v) w f = ground arith
Fits-Recoverable (marking n) w f = inl f
Fits-Recoverable (failing e) w f = f
Fits-Recoverable (returned o) w f = f

prepare_rotate_now-keeps :
    (now : ℕ) (w : World) (s : Status)
    → ((revive w.policy s).pending ≡ w.policy.pending)
      × ((revive w.policy s).generates ≡ w.policy.generates)
prepare_rotate_now-keeps now w active = (refl, refl)
prepare_rotate_now-keeps now w paused = (refl, refl)
prepare_rotate_now-keeps now w failed = (refl, refl)

run_move-Inv :
    (m : Move) (w : World) (t : Thread) → Inv w t → Inv (run_move m w t).0 (run_move m w t).1
unfolding run_move
run_move-Inv (tick now) w t i = ground (arith, Fits-Recoverable t.stage w i.fits)
run_move-Inv (rotate_now now) w t i =
    ground
      (arith, Fits-Recoverable t.stage w i.fits, prepare_rotate_now-keeps now w w.policy.status)
run_move-Inv (call c) w t i = act-Inv t.stage c w t i.applier i.fits
run_move-Inv crash w t i = record { applier = i.applier; fits = Fits-Recoverable t.stage w i.fits }

run-Inv : (ms : List Move) (w : World) (t : Thread) → Inv w t → Inv (run ms w t).0 (run ms w t).1
unfolding run
run-Inv [] w t i = i
run-Inv (m ∷ ms) w t i = run-Inv ms _ _ (run_move-Inv m w t i)

-- A rotator that applies a value of Janus never loses the live credential. Let the credential that
-- the rotated system accepts be the secret's value or the value in flight, and let no attempt run.
-- Then it is so again after any attempts, one at a time, whose calls fail with or without an effect
-- and whose process may crash between any two calls.
pub run-Recoverable :
    (ms : List Move) (w : World) (o : Bool) (seen : ℕ)
    → w.policy.generates ≡ false
    → Recoverable w
    → Recoverable (run ms w (record { stage = returned o; seen_failures = seen })).0
run-Recoverable ms w o seen g r =
    let i = run-Inv ms w _ (record { applier = g; fits = r }) in Fits-Recoverable _ _ i.fits

-- A finished rotation from the world `w`.
abbrev pub Healed : World → World → Type 0
Healed w v =
    (v.target ≡ v.stored)
    × (v.policy.pending ≡ none)
    × (v.policy.status ≡ active)
    × (v.policy.failure_count ≡ 0)
    × (v.version ≡ w.version + 1)
    × (v.policy.last_config_version ≡ some v.version)

-- Whatever attempts before have left behind, an attempt by `RotateNow` whose calls all work makes at
-- most five of them, and then the rotated system accepts the secret's new value, which stands in
-- the config's next version; nothing is in flight, the failures are forgotten, and the policy is
-- active.
pub rotate_now-Healed :
    (w : World) (o : Bool) (seen now : ℕ) (c1 c2 c3 c4 c5 : Call)
    → c1.works ≡ true
    → c2.works ≡ true
    → c3.works ≡ true
    → c4.works ≡ true
    → c5.works ≡ true
    → Healed w
        (run
          (rotate_now now ∷ call c1 ∷ call c2 ∷ call c3 ∷ call c4 ∷ call c5 ∷ [])
          w
          (record { stage = returned o; seen_failures = seen })).0
unfolding run run_move act
rotate_now-Healed w o seen now c1 c2 c3 c4 c5 k1 k2 k3 k4 k5 = ground arith
