-- ===== src/AuditShip/Tests.antt =====
-- A collector that is down for a while, and uses of the theorems.
use janus_secrets.Common.{◌≡◌, refl, inl, inr, List, [], ◌∷◌, arith, codes, map}
use janus_secrets.AuditShip.{
  lost, refused, World, append_event, run_due_ship, prune_shipped, list_since, max_seq,
  perform_step, run, Step, append, ship, prune_log,
}
use janus_secrets.AuditShip.Delivery.{IsSound, PrunesShipped, run-IsSound}
use janus_secrets.AuditShip.Catchup.{working, passes, AllReceived, passes-AllReceived}

abbrev new_log : World
new_log = record { log = []; mark = 0; received = []; recorded = [] }

new_log-IsSound : IsSound new_log
new_log-IsSound = record { ascending = tt; behind = omega arith; safe = tt }

-- A send loses its answer, so that the next pass sends its events once more.
abbrev history : List Step
history =
    append (codes "a")
    ∷ append (codes "b")
    ∷ ship (record working { send = lost })
    ∷ ship working
    ∷ append (codes "c")
    ∷ prune_log 1
    ∷ ship (record working { send = refused })
    ∷ []

history-PrunesShipped : PrunesShipped history new_log
unfolding append_event run_due_ship perform_step list_since max_seq
history-PrunesShipped = (omega arith, omega arith, tt)

run-IsSound_example : IsSound (run history new_log)
run-IsSound_example = run-IsSound history new_log history-PrunesShipped new_log-IsSound

sent_twice : map (λ e. e.seq) (run history new_log).received ≡ 1 ∷ 2 ∷ 1 ∷ 2 ∷ []
unfolding run perform_step append_event run_due_ship prune_shipped list_since max_seq
sent_twice = refl

-- Before the first event is shipped, a prune is not bounded: `b` and `a` are never received.
early_prune :
    run (append (codes "a") ∷ append (codes "b") ∷ prune_log 2 ∷ ship working ∷ []) new_log
    ≡ record new_log {
      recorded = record { seq = 1; body = codes "a" } ∷ record { seq = 2; body = codes "b" } ∷ [];
    }
unfolding run perform_step append_event run_due_ship prune_shipped list_since max_seq
early_prune = refl

abbrev behind : World
behind = record {
  log = record { seq = 7; body = codes "x" } ∷ record { seq = 8; body = codes "y" } ∷ [];
  mark = 6;
  received = [];
  recorded = record { seq = 7; body = codes "x" } ∷ record { seq = 8; body = codes "y" } ∷ [];
}

behind-IsSound : IsSound behind
behind-IsSound = record {
  ascending = (omega arith, (omega arith, tt));
  behind = omega arith;
  safe = (inr (inl refl, omega arith), (inr (inr (inl refl), omega arith), tt));
}

passes-AllReceived_example : AllReceived (passes 1 behind) behind.recorded
passes-AllReceived_example = passes-AllReceived 1 behind behind-IsSound (omega arith)
