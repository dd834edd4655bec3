-- ===== src/AuditShip/Safety.antt =====
-- An event that is received, or still to be sent, and what each step does to it.
use janus_secrets.Common.{
  ℕ, ◌≤◌, ◌<◌, ◌⊎◌, inl, inr, List, [], ◌∷◌, ◌++◌, take, keep, ltb, arith, In, Bool-cases, ltb→lt,
  lt→ltb,
}
use janus_secrets.AuditShip.{
  Event, Answer, answered, lost, refused, World, ship_batch, list_since, max_seq,
  advance_high_water, send_batch,
}
use janus_secrets.AuditShip.Order.{Ascending, Ascending-keep, In-keep, take-or_after}

-- An event was received, or waits in the log for a later pass.
abbrev pub Safe : World → Event → Type 0
Safe w e = In e w.received ⊎ (In e w.log × (w.mark < e.seq))

abbrev pub AllSafe : World → List Event → Type 0
AllSafe w [] = Unit
AllSafe w (e ∷ events) = Safe w e × AllSafe w events

pub AllSafe-map :
    (w w' : World) (events : List Event)
    → ((e : Event) → Safe w e → Safe w' e)
    → AllSafe w events
    → AllSafe w' events
AllSafe-map w w' [] f h = tt
AllSafe-map w w' (e ∷ events) f h = (f e h.0, AllSafe-map w w' events f h.1)

pub AllSafe-snoc :
    (w : World) (e : Event) (events : List Event)
    → AllSafe w events
    → Safe w e
    → AllSafe w (events ++ e ∷ [])
AllSafe-snoc w e [] h s = (s, tt)
AllSafe-snoc w e (x ∷ events) h s = (h.0, AllSafe-snoc w e events h.1 s)

In-append_left : (e : Event) (xs ys : List Event) → In e xs → In e (xs ++ ys)
In-append_left e [] ys m = absurd m
In-append_left e (x ∷ xs) ys (inl same) = inl same
In-append_left e (x ∷ xs) ys (inr later) = inr (In-append_left e xs ys later)

pub In-append_right : (e : Event) (xs ys : List Event) → In e ys → In e (xs ++ ys)
In-append_right e [] ys m = m
In-append_right e (x ∷ xs) ys m = inr (In-append_right e xs ys m)

pub Ascending-since :
    (b m : ℕ) (log : List Event) → Ascending b log → Ascending m (keep (λ e. ltb m e.seq) log)
Ascending-since b m [] h = tt
Ascending-since b m (e ∷ log) h = elim (Bool-cases (ltb m e.seq)) [
  | inl u ↦ rw u (ltb→lt m e.seq u, Ascending-keep e.seq (λ x. ltb m x.seq) log h.1)
  | inr u ↦ rw u (Ascending-since e.seq m log h.1)
]

-- The mark after a batch: everything that was not in the batch is above it.
advance-safe :
    (a : Answer) (w : World) (e : Event)
    → Ascending 0 w.log
    → In e w.log
    → w.mark < e.seq
    → In e (list_since w.mark ship_batch w.log)
      ⊎ (advance_high_water a (max_seq w.mark (list_since w.mark ship_batch w.log)) w.mark < e.seq)
unfolding list_since
advance-safe a w e asc m lt =
    elim (take-or_after ship_batch w.mark e (keep (λ x. ltb w.mark x.seq) w.log)
      (Ascending-since 0 w.mark w.log asc)
      (In-keep (λ x. ltb w.mark x.seq) e w.log (lt→ltb w.mark e.seq lt) m)) [
        | inl early ↦ inl early
        | inr after ↦ inr (
            advanced a (max_seq w.mark (take ship_batch (keep (λ x. ltb w.mark x.seq) w.log)))
              w.mark e.seq after lt)
      ]
  where
    advanced : (a : Answer) (m mark s : ℕ) → m < s → mark < s → advance_high_water a m mark < s
    advanced answered m mark s h k = ground (arith, h, k)
    advanced lost m mark s h k = ground (arith, h, k)
    advanced refused m mark s h k = k

pub advance-le : (a : Answer) (m mark c : ℕ) → m ≤ c → mark ≤ c → advance_high_water a m mark ≤ c
advance-le answered m mark c h k = ground (arith, h, k)
advance-le lost m mark c h k = ground (arith, h, k)
advance-le refused m mark c h k = k

pub answered-Safe :
    (a : Answer) (w : World) (e : Event)
    → Ascending 0 w.log
    → Safe w e
    → Safe (send_batch answered a (list_since w.mark ship_batch w.log) w) e
answered-Safe a w e asc (inl got) =
    inl (In-append_left e w.received (list_since w.mark ship_batch w.log) got)
answered-Safe a w e asc (inr waits) = elim (advance-safe a w e asc waits.0 waits.1) [
  | inl early ↦ inl (In-append_right e w.received (list_since w.mark ship_batch w.log) early)
  | inr after ↦ inr (waits.0, after)
]

pub lost-Safe :
    (a : Answer) (w : World) (events : List Event) (e : Event)
    → Safe w e
    → Safe (send_batch lost a events w) e
lost-Safe a w events e (inl got) = inl (In-append_left e w.received events got)
lost-Safe a w events e (inr waits) = inr waits

pub appended-Safe :
    (e x : Event) (w : World) → Safe w x → Safe (record w { log = w.log ++ e ∷ [] }) x
appended-Safe e x w (inl got) = inl got
appended-Safe e x w (inr waits) = inr (In-append_left x w.log (e ∷ []) waits.0, waits.1)

pub pruned-Safe :
    (n : ℕ) (w : World) (e : Event)
    → n ≤ w.mark
    → Safe w e
    → Safe (record w { log = keep (λ x. ltb n x.seq) w.log }) e
pruned-Safe n w e le (inl got) = inl got
pruned-Safe n w e le (inr waits) = inr (
  In-keep (λ x. ltb n x.seq) e w.log (lt→ltb n e.seq (omega (arith, le, waits.1))) waits.0,
  waits.1,
)
