-- ===== src/AuditShip/Catchup.antt =====
-- Passes that work catch up with the log, and what a log that was emptied does to the collector.
use janus_secrets.Common.{
  ℕ, zero, suc, ◌-◌, ◌*◌, ◌≤◌, ◌<◌, ◌≡◌, refl, sym, ap, ◌∙◌, inl, inr, true, false, List, [], ◌∷◌,
  take, drop, keep, ltb, if◌then◌else◌, arith, In, Bool-cases, lt→ltb, length,
}
use janus_secrets.AuditShip.{
  Event, answered, World, Pass, ship_batch, list_since, max_seq, run_due_ship,
}
use janus_secrets.AuditShip.Order.{Ascending, In-keep, max_seq_cons}
use janus_secrets.AuditShip.Safety.{Safe, AllSafe, Ascending-since}
use janus_secrets.AuditShip.Delivery.{IsSound, run_due_ship-IsSound}

-- The events that wait for a pass.
abbrev pub pending : ℕ → List Event → List Event
pending mark log = keep (λ e. ltb mark e.seq) log

keep_all : (m : ℕ) (log : List Event) → Ascending m log → pending m log ≡ log
keep_all m [] h = refl
keep_all m (e ∷ log) h =
    rw (lt→ltb m e.seq h.0) (ap (λ xs. e ∷ xs) (keep_all m log (lower m e.seq log h.0 h.1)))
  where
    lower : (a b : ℕ) (xs : List Event) → a < b → Ascending b xs → Ascending a xs
    lower a b [] lt h = tt
    lower a b (x ∷ xs) lt h = (omega (arith, lt, h.0), h.1)

max_seq-ge : (m : ℕ) (events : List Event) → m ≤ max_seq m events
unfolding max_seq
max_seq-ge m [] = omega arith
max_seq-ge m (e ∷ events) = ground (arith, max_seq-ge (if ltb m e.seq then e.seq else m) events)

not_later : (m s : ℕ) → s ≤ m → ltb m s ≡ false
not_later m s h = ground arith

keep-after_batch :
    (n b : ℕ) (events : List Event)
    → Ascending b events
    → pending (max_seq b (take n events)) events ≡ drop n events
unfolding max_seq
keep-after_batch zero b events h = keep_all b events h
keep-after_batch (suc n) b [] h = refl
keep-after_batch (suc n) b (e ∷ events) h =
    let top = max_seq e.seq (take n events) in
    let below : pending top (e ∷ events) ≡ pending top events =
      rw (not_later top e.seq (max_seq-ge e.seq (take n events))) refl in
    ap (λ m. pending m (e ∷ events)) (max_seq_cons b e (take n events) h.0)
    ∙ (below ∙ keep-after_batch n e.seq events h.1)

pending-pending :
    (m m' : ℕ) (log : List Event) → m ≤ m' → pending m' (pending m log) ≡ pending m' log
pending-pending m m' [] le = refl
pending-pending m m' (e ∷ log) le = elim (Bool-cases (ltb m e.seq)) [
  | inl u ↦ rw u (ground (arith, pending-pending m m' log le))
  | inr u ↦ ground (arith, u, le, pending-pending m m' log le)
]

length-drop : (n : ℕ) (events : List Event) → length (drop n events) ≤ length events - n
length-drop zero events = omega arith
length-drop (suc n) [] = omega arith
length-drop (suc n) (e ∷ events) = omega (arith, length-drop n events)

-- A pass whose calls all work.
abbrev pub working : Pass
working = record { reads_mark = true; reads_log = true; send = answered; advance_mark = answered }

working-mark :
    (w : World)
    → (run_due_ship working w).mark ≡ max_seq w.mark (list_since w.mark ship_batch w.log)
unfolding run_due_ship
working-mark w = ground (arith, max_seq-ge w.mark (list_since w.mark ship_batch w.log))

working-pending :
    (w : World)
    → IsSound w
    → length (pending (run_due_ship working w).mark w.log)
      ≤ length (pending w.mark w.log) - ship_batch
unfolding list_since
working-pending w i =
    let since = pending w.mark w.log in
    let batch = take ship_batch since in
    let after = max_seq w.mark batch in
    let here = pending-pending w.mark after w.log (max_seq-ge w.mark batch) in
    let dropped =
      keep-after_batch ship_batch w.mark since (Ascending-since 0 w.mark w.log i.ascending) in
    rw (working-mark w) (rw (sym here ∙ dropped) (length-drop ship_batch since))

working-log : (w : World) → (run_due_ship working w).log ≡ w.log
unfolding run_due_ship
working-log w = refl

-- So many passes.
unfoldable pub passes : ℕ → World → World
passes zero w = w
passes (suc k) w = passes k (run_due_ship working w)

abbrev pub AllReceived : World → List Event → Type 0
AllReceived w [] = Unit
AllReceived w (e ∷ events) = In e w.received × AllReceived w events

none_pending :
    (w : World) (e : Event) → length (pending w.mark w.log) ≤ 0 → Safe w e → In e w.received
none_pending w e h (inl got) = got
none_pending w e h (inr waits) = absurd (
    nowhere (pending w.mark w.log) h
      (In-keep (λ x. ltb w.mark x.seq) e w.log (lt→ltb w.mark e.seq waits.1) waits.0))
  where
    nowhere : (xs : List Event) → length xs ≤ 0 → In e xs → ⊥
    nowhere [] h m = m
    nowhere (x ∷ xs) h m = omega (arith, h)

all_received :
    (w : World) (events : List Event)
    → length (pending w.mark w.log) ≤ 0
    → AllSafe w events
    → AllReceived w events
all_received w [] h s = tt
all_received w (e ∷ events) h s = (none_pending w e h s.0, all_received w events h s.1)

recorded_same : (w : World) → (run_due_ship working w).recorded ≡ w.recorded
unfolding run_due_ship
recorded_same w = refl

passes-recorded : (k : ℕ) (w : World) → (passes k w).recorded ≡ w.recorded
unfolding passes
passes-recorded zero w = refl
passes-recorded (suc k) w = passes-recorded k (run_due_ship working w) ∙ recorded_same w

passes-pending :
    (k : ℕ) (w : World)
    → IsSound w
    → length (pending w.mark w.log) ≤ k * ship_batch
    → IsSound (passes k w) × (length (pending (passes k w).mark (passes k w).log) ≤ 0)
unfolding passes
passes-pending zero w i h = (i, h)
passes-pending (suc k) w i h =
    let w' = run_due_ship working w in
    let less : length (pending w'.mark w'.log) ≤ length (pending w.mark w.log) - ship_batch =
      rw (working-log w) (working-pending w i) in
    passes-pending k w' (run_due_ship-IsSound working w i) (grind (arith, less, h))

-- The collector catches up: however many events wait in a sound log, as many passes whose calls all
-- work as there are batches of 500 of them deliver every event that was ever recorded.
pub passes-AllReceived :
    (k : ℕ) (w : World)
    → IsSound w
    → length (pending w.mark w.log) ≤ k * ship_batch
    → AllReceived (passes k w) w.recorded
passes-AllReceived k w i h =
    let (sound, done) = passes-pending k w i h in
    all_received (passes k w) w.recorded done (rw (passes-recorded k w) at sound.safe)
