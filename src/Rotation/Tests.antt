-- ===== src/Rotation/Tests.antt =====
-- A policy for the role of a database.
use janus_secrets.Common.{◌≡◌, refl, inl, true, false, none, some, List, [], ◌∷◌, Bytes, codes}
use janus_secrets.Rotation.{
  active, paused, apply_failed, World, returned, Call, backoff, double_capped, Move, tick, call,
  crash, run, run_both, act, run_move,
}
use janus_secrets.Rotation.Crashes.{Recoverable, run-Recoverable}
use janus_secrets.Rotation.Races.{idle, answers, overlap, overlap-loses}

abbrev old : Bytes
old = codes "old"

abbrev new : Bytes
new = codes "new"

abbrev world : World
world = record {
  policy = record {
    generates = false;
    interval_seconds = 86400;
    status = active;
    failure_count = 0;
    next_rotation_at = 100;
    last_error = none;
    last_config_version = none;
    pending = none;
  };
  stored = old;
  version = 3;
  target = old;
}

-- The role gets the new password, but the answer is lost.
abbrev lost : Call
lost = record { works = false; in_effect = true; error = apply_failed; value = new; now = 130 }

abbrev history : List Move
history = tick 120 ∷ call (answers new) ∷ call (answers new) ∷ call lost ∷ crash ∷ []

lost_answer :
    ((run history world idle).0.target ≡ new)
    × ((run history world idle).0.stored ≡ old)
    × ((run history world idle).0.policy.pending ≡ some new)
unfolding run run_move act
lost_answer = (refl, refl, refl)

run-Recoverable_example : Recoverable (run history world idle).0
run-Recoverable_example = run-Recoverable history world true 0 refl (inl refl)

abbrev paused_world : World
paused_world = record world { policy = record world.policy { status = paused } }

overlap-loses_example :
    let after = run_both (overlap new old) world idle idle in
    (after.0.target ≡ old)
    × (after.0.stored ≡ new)
    × (after.0.policy.pending ≡ none)
    × (after.1.stage ≡ returned true)
    × (after.2.stage ≡ returned true)
overlap-loses_example = overlap-loses world new old refl refl

fourth_failure : backoff 4 ≡ 480
unfolding backoff double_capped
fourth_failure = refl
