-- ===== src/AuditShip/Restart.antt =====
-- What the collector gets of a log that was emptied.
use janus_secrets.Common.{
  ℕ, ◌≤◌, ◌≡◌, refl, ap, ◌∙◌, inl, inr, false, ◌&&◌, List, [], ◌∷◌, append-nil, ltb, arith,
  Bool-cases, Bytes, map,
}
use janus_secrets.AuditShip.{
  Answer, answered, lost, refused, World, Pass, ship_batch, list_since, max_seq, advance_high_water,
  send_batch, run_due_ship, append_event, ship, perform_step, run,
}

advance_same : (a : Answer) (m : ℕ) → advance_high_water a m m ≡ m
advance_same answered m = ground arith
advance_same lost m = ground arith
advance_same refused m = refl

send_nothing : (s a : Answer) (w : World) → send_batch s a [] w ≡ w
unfolding max_seq
send_nothing answered a w = rw (append-nil w.received, advance_same a w.mark) refl
send_nothing lost a w = rw (append-nil w.received) refl
send_nothing refused a w = refl

ship_nothing :
    (p : Pass) (w : World) → list_since w.mark ship_batch w.log ≡ [] → run_due_ship p w ≡ w
unfolding run_due_ship
ship_nothing p w h =
    let nothing : send_batch p.send p.advance_mark (list_since w.mark ship_batch w.log) w ≡ w =
      ap (λ xs. send_batch p.send p.advance_mark xs w) h ∙ send_nothing p.send p.advance_mark w in
    elim (Bool-cases (p.reads_mark && p.reads_log)) [ inl u ↦ rw u nothing | inr u ↦ rw u refl ]

ships_nothing :
    (ps : List Pass) (w : World) → list_since w.mark ship_batch w.log ≡ [] → run (map ship ps) w ≡ w
unfolding run perform_step
ships_nothing [] w h = refl
ships_nothing (p ∷ ps) w h = ap (run (map ship ps)) (ship_nothing p w h) ∙ ships_nothing ps w h

not_later : (m : ℕ) → 1 ≤ m → ltb m 1 ≡ false
not_later m h = ground (arith, h)

since_first :
    (m : ℕ) (body : Bytes)
    → 1 ≤ m
    → list_since m ship_batch (record { seq = 1; body = body } ∷ []) ≡ []
unfolding list_since
since_first m body h = rw (not_later m h) refl

-- An event that is recorded in an emptied log is not shipped: if the log has no events and the
-- high-water mark is not 0, the next event is numbered 1, and no pass, however its calls end, sends
-- it or moves the mark.
pub append_event-unshipped :
    (body : Bytes) (ps : List Pass) (w : World)
    → w.log ≡ []
    → 1 ≤ w.mark
    → run (map ship ps) (append_event body w) ≡ append_event body w
unfolding append_event
append_event-unshipped body ps w empty le =
    ships_nothing ps (append_event body w) (rw (empty, since_first w.mark body le) refl)
