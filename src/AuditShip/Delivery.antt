-- ===== src/AuditShip/Delivery.antt =====
-- No event is lost on the way to the collector.
use janus_secrets.Common.{
  ℕ, ◌+◌, ◌≤◌, ◌<◌, refl, inl, inr, ◌&&◌, List, [], ◌∷◌, take, keep, ltb, ◌==◌, arith, Bool-cases,
  Bytes,
}
use janus_secrets.AuditShip.{
  Event, Answer, answered, lost, refused, World, Pass, ship_batch, list_since, max_seq, send_batch,
  run_due_ship, last_seq, append_event, ship_prune_ceiling, prune_shipped, Step, append, ship,
  prune_log, perform_step, run,
}
use janus_secrets.AuditShip.Order.{
  Ascending, Ascending-keep, Ascending-snoc, max_seq-le, AllLe-take, AllLe-keep, AllLe-last_seq,
  last_seq-snoc, last_seq-keep,
}
use janus_secrets.AuditShip.Safety.{
  AllSafe, AllSafe-map, AllSafe-snoc, In-append_right, advance-le, answered-Safe, lost-Safe,
  appended-Safe, pruned-Safe,
}

-- The log is in order, the mark is not past its end, and every recorded event is safe.
pub record IsSound (w : World) : Type 0 where
  pub ascending : Ascending 0 w.log
  pub behind : w.mark ≤ last_seq w.log
  pub safe : AllSafe w w.recorded

batch-le :
    (w : World) → IsSound w → max_seq w.mark (list_since w.mark ship_batch w.log) ≤ last_seq w.log
unfolding list_since
batch-le w i =
    let since = keep (λ x. ltb w.mark x.seq) w.log in
    max_seq-le w.mark (last_seq w.log) (take ship_batch since) i.behind (
      AllLe-take (last_seq w.log) ship_batch since (
        AllLe-keep (last_seq w.log) (λ x. ltb w.mark x.seq) w.log
          (AllLe-last_seq 0 w.log i.ascending)))

send_batch-IsSound :
    (s a : Answer) (w : World)
    → IsSound w
    → IsSound (send_batch s a (list_since w.mark ship_batch w.log) w)
unfolding list_since
send_batch-IsSound answered a w i =
    let events = list_since w.mark ship_batch w.log in
    record {
      ascending = i.ascending;
      behind = advance-le a (max_seq w.mark events) w.mark (last_seq w.log) (batch-le w i) i.behind;
      safe =
          AllSafe-map w (send_batch answered a events w) w.recorded
            (λ e. answered-Safe a w e i.ascending) i.safe;
    }
send_batch-IsSound lost a w i =
    let events = list_since w.mark ship_batch w.log in
    record {
      ascending = i.ascending;
      behind = i.behind;
      safe = AllSafe-map w (send_batch lost a events w) w.recorded (lost-Safe a w events) i.safe;
    }
send_batch-IsSound refused a w i = i

pub run_due_ship-IsSound : (p : Pass) (w : World) → IsSound w → IsSound (run_due_ship p w)
unfolding run_due_ship
run_due_ship-IsSound p w i = elim (Bool-cases (p.reads_mark && p.reads_log)) [
  | inl u ↦ rw u (send_batch-IsSound p.send p.advance_mark w i)
  | inr u ↦ rw u i
]

append_event-IsSound : (body : Bytes) (w : World) → IsSound w → IsSound (append_event body w)
unfolding append_event
append_event-IsSound body w i =
    let e : Event = record { seq = last_seq w.log + 1; body = body } in
    record {
      ascending = Ascending-snoc 0 e w.log i.ascending (omega arith) (omega arith);
      behind = omega (arith, i.behind, last_seq-snoc e w.log);
      safe =
          AllSafe-snoc (append_event body w) e w.recorded
            (AllSafe-map w (append_event body w) w.recorded (λ x. appended-Safe e x w) i.safe)
            (inr (In-append_right e w.log (e ∷ []) (inl refl), omega (arith, i.behind)));
    }

pruned-IsSound :
    (n : ℕ) (w : World)
    → n ≤ w.mark
    → n < last_seq w.log
    → IsSound w
    → IsSound (record w { log = keep (λ e. ltb n e.seq) w.log })
pruned-IsSound n w low short i = record {
  ascending = Ascending-keep 0 (λ x. ltb n x.seq) w.log i.ascending;
  behind = omega (arith, i.behind, last_seq-keep n w.log i.ascending short);
  safe =
      AllSafe-map w (record w { log = keep (λ e. ltb n e.seq) w.log }) w.recorded
        (λ e. pruned-Safe n w e low) i.safe;
}

prune_shipped-IsSound :
    (through : ℕ) (w : World)
    → 0 < w.mark
    → through < last_seq w.log
    → IsSound w
    → IsSound (prune_shipped through w)
unfolding prune_shipped
prune_shipped-IsSound through w shipped lt i =
    let n = ship_prune_ceiling w.mark through in
    let low : n ≤ w.mark = ground arith in
    let short : n ≤ through = ground arith in
    elim (Bool-cases (n == 0)) [
      | inl nothing ↦ rw nothing i
      | inr some_events ↦ rw some_events (pruned-IsSound n w low (omega (arith, short, lt)) i)
    ]

-- Every prune comes after something was shipped, and is not asked to delete the last event.
abbrev pub PrunesShipped : List Step → World → Type 0
PrunesShipped [] w = Unit
PrunesShipped (append body ∷ steps) w = PrunesShipped steps (perform_step (append body) w)
PrunesShipped (ship p ∷ steps) w = PrunesShipped steps (perform_step (ship p) w)
PrunesShipped (prune_log through ∷ steps) w =
    (0 < w.mark)
    × (through < last_seq w.log)
    × PrunesShipped steps (perform_step (prune_log through) w)

-- No event is lost: while events are recorded, passes run whose calls fail with or without an
-- effect, and the log is pruned, in any order, every event that was ever recorded has been received
-- by the collector, or is in the log behind the mark, for a later pass. The conditions are that no
-- prune happens while the mark is still 0, where the program does not bound the prune, and that no
-- prune is asked to delete the last event.
pub run-IsSound :
    (steps : List Step) (w : World) → PrunesShipped steps w → IsSound w → IsSound (run steps w)
unfolding run perform_step
run-IsSound [] w l i = i
run-IsSound (append body ∷ steps) w l i =
    run-IsSound steps (append_event body w) l (append_event-IsSound body w i)
run-IsSound (ship p ∷ steps) w l i =
    run-IsSound steps (run_due_ship p w) l (run_due_ship-IsSound p w i)
run-IsSound (prune_log through ∷ steps) w l i =
    run-IsSound steps (prune_shipped through w) l.2 (prune_shipped-IsSound through w l.0 l.1 i)
