-- ===== src/AuditShip/Order.antt =====
-- A log in ascending order, and the batches that are read off it.
use janus_secrets.Common.{
  ℕ, zero, suc, ◌≤◌, ◌<◌, ◌≡◌, refl, ◌⊎◌, inl, inr, Bool, true, List, [], ◌∷◌, ◌++◌, take, keep,
  ltb, if◌then◌else◌, arith, In, Bool-cases, lt→ltb,
}
use janus_secrets.AuditShip.{Event, max_seq, last_seq}

-- The numbers ascend strictly, from above a bound.
abbrev pub Ascending : ℕ → List Event → Type 0
Ascending b [] = Unit
Ascending b (e ∷ log) = (b < e.seq) × Ascending e.seq log

pub Ascending-lower : (a b : ℕ) (log : List Event) → a ≤ b → Ascending b log → Ascending a log
Ascending-lower a b [] le h = tt
Ascending-lower a b (e ∷ log) le h = (omega (arith, le, h.0), h.1)

pub Ascending-In : (b : ℕ) (e : Event) (log : List Event) → Ascending b log → In e log → b < e.seq
Ascending-In b e [] h m = absurd m
Ascending-In b e (x ∷ log) h (inl same) = rw same h.0
Ascending-In b e (x ∷ log) h (inr later) = omega (arith, h.0, Ascending-In x.seq e log h.1 later)

pub Ascending-keep :
    (b : ℕ) (p : Event → Bool) (log : List Event) → Ascending b log → Ascending b (keep p log)
Ascending-keep b p [] h = tt
Ascending-keep b p (e ∷ log) h = elim (Bool-cases (p e)) [
  | inl u ↦ rw u (h.0, Ascending-keep e.seq p log h.1)
  | inr u ↦ rw u (Ascending-keep b p log (Ascending-lower b e.seq log (omega (arith, h.0)) h.1))
]

pub In-keep :
    (p : Event → Bool) (e : Event) (log : List Event) → p e ≡ true → In e log → In e (keep p log)
In-keep p e [] h m = absurd m
In-keep p e (x ∷ log) h (inl same) = let kept : p x ≡ true = rw same at h in rw kept (inl same)
In-keep p e (x ∷ log) h (inr later) = elim (Bool-cases (p x)) [
  | inl u ↦ rw u (inr (In-keep p e log h later))
  | inr u ↦ rw u (In-keep p e log h later)
]

pub max_seq_cons :
    (b : ℕ) (x : Event) (events : List Event)
    → b < x.seq
    → max_seq b (x ∷ events) ≡ max_seq x.seq events
unfolding max_seq
max_seq_cons b x events h = rw (lt→ltb b x.seq h) refl

-- An event of an ascending list is in its first part, or comes after all of it.
pub take-or_after :
    (n b : ℕ) (e : Event) (log : List Event)
    → Ascending b log
    → In e log
    → In e (take n log) ⊎ (max_seq b (take n log) < e.seq)
unfolding max_seq
take-or_after zero b e log h m = inr (Ascending-In b e log h m)
take-or_after (suc n) b e [] h m = absurd m
take-or_after (suc n) b e (x ∷ log) h (inl same) = inl (inl same)
take-or_after (suc n) b e (x ∷ log) h (inr later) = elim (take-or_after n x.seq e log h.1 later) [
  | inl early ↦ inl (inr early)
  | inr after ↦ inr (omega (arith, after, max_seq_cons b x (take n log) h.0))
]

pub last_seq-bounds :
    (b : ℕ) (e : Event) (log : List Event) → Ascending b log → In e log → e.seq ≤ last_seq log
last_seq-bounds b e [] h m = absurd m
last_seq-bounds b e (x ∷ []) h (inl same) = rw same (omega arith)
last_seq-bounds b e (x ∷ []) h (inr later) = absurd later
last_seq-bounds b e (x ∷ y ∷ log) h (inl same) =
    rw same (omega (arith, h.1.0, last_seq-bounds x.seq y (y ∷ log) h.1 (inl refl)))
last_seq-bounds b e (x ∷ y ∷ log) h (inr later) = last_seq-bounds x.seq e (y ∷ log) h.1 later

pub Ascending-snoc :
    (b : ℕ) (e : Event) (log : List Event)
    → Ascending b log
    → b < e.seq
    → last_seq log < e.seq
    → Ascending b (log ++ e ∷ [])
Ascending-snoc b e [] h low last = (low, tt)
Ascending-snoc b e (x ∷ []) h low last = (h.0, (last, tt))
Ascending-snoc b e (x ∷ y ∷ log) h low last = (
  h.0,
  Ascending-snoc x.seq e (y ∷ log) h.1
      (omega (arith, last, last_seq-bounds b x (x ∷ y ∷ log) h (inl refl))) last,
)

-- Every number is at most a bound.
abbrev pub AllLe : ℕ → List Event → Type 0
AllLe c [] = Unit
AllLe c (e ∷ log) = (e.seq ≤ c) × AllLe c log

pub max_seq-le : (m c : ℕ) (events : List Event) → m ≤ c → AllLe c events → max_seq m events ≤ c
unfolding max_seq
max_seq-le m c [] le h = le
max_seq-le m c (e ∷ events) le h =
    max_seq-le (if ltb m e.seq then e.seq else m) c events (ground (arith, le, h.0)) h.1

pub AllLe-take : (c n : ℕ) (log : List Event) → AllLe c log → AllLe c (take n log)
AllLe-take c zero log h = tt
AllLe-take c (suc n) [] h = tt
AllLe-take c (suc n) (e ∷ log) h = (h.0, AllLe-take c n log h.1)

pub AllLe-keep : (c : ℕ) (p : Event → Bool) (log : List Event) → AllLe c log → AllLe c (keep p log)
AllLe-keep c p [] h = tt
AllLe-keep c p (e ∷ log) h = elim (Bool-cases (p e)) [
  | inl u ↦ rw u (h.0, AllLe-keep c p log h.1)
  | inr u ↦ rw u (AllLe-keep c p log h.1)
]

AllLe-upper : (c d : ℕ) (log : List Event) → c ≤ d → AllLe c log → AllLe d log
AllLe-upper c d [] le h = tt
AllLe-upper c d (e ∷ log) le h = (omega (arith, le, h.0), AllLe-upper c d log le h.1)

pub AllLe-last_seq : (b : ℕ) (log : List Event) → Ascending b log → AllLe (last_seq log) log
AllLe-last_seq b [] h = tt
AllLe-last_seq b (e ∷ []) h = (omega arith, tt)
AllLe-last_seq b (e ∷ x ∷ log) h =
    (last_seq-bounds b e (e ∷ x ∷ log) h (inl refl), AllLe-last_seq e.seq (x ∷ log) h.1)

pub last_seq-snoc : (e : Event) (log : List Event) → last_seq (log ++ e ∷ []) ≡ e.seq
last_seq-snoc e [] = refl
last_seq-snoc e (x ∷ []) = refl
last_seq-snoc e (x ∷ y ∷ log) = last_seq-snoc e (y ∷ log)

-- The last event of a log that has one.
last_event :
    (n : ℕ) (log : List Event) → n < last_seq log → (e : Event) × In e log × (e.seq ≡ last_seq log)
last_event n [] h = absurd (omega (arith, h))
last_event n (e ∷ []) h = (e, inl refl, refl)
last_event n (e ∷ x ∷ log) h =
    let (last, there, same) = last_event n (x ∷ log) h in (last, inr there, same)

-- Deleting a beginning of the log leaves its end.
pub last_seq-keep :
    (n : ℕ) (log : List Event)
    → Ascending 0 log
    → n < last_seq log
    → last_seq log ≤ last_seq (keep (λ e. ltb n e.seq) log)
last_seq-keep n log asc h =
    let (e, there, same) = last_event n log h in
    let kept = In-keep (λ x. ltb n x.seq) e log (lt→ltb n e.seq (omega (arith, same, h))) there in
    omega (
      arith,
      same,
      last_seq-bounds 0 e (keep (λ x. ltb n x.seq) log)
          (Ascending-keep 0 (λ x. ltb n x.seq) log asc) kept,
    )
