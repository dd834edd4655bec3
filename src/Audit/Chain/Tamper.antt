-- ===== src/Audit/Chain/Tamper.antt =====
-- Two chains of one length that end in one hash hold the same events, or SHA-256 has a collision
-- that can be read off them.
use janus_secrets.Common.{
  Bytes, bytes_eq, bytes_eq-eq, bytes_eq_refl, ℕ, ◌+◌, ◌≡◌, ◌≢◌, sym, ◌∙◌, ap, ◌⊎◌, inl, inr, List,
  [], ◌∷◌, length, arith, Bool-cases,
}
use janus_secrets.Audit.Encoding.{AuditRow, compute_hash, event_bytes}
use janus_secrets.Audit.Encoding.Injective.{IsInRange, SameEvent, event_bytes_inj}
use janus_secrets.Audit.Chain.Linked.{IsLink, Linked, end_hash}

abbrev pub Collision : (Bytes → Bytes) → Type 0
Collision hash = (x : Bytes) × (y : Bytes) × (x ≢ y) × (hash x ≡ hash y)

abbrev pub AllInRange : List AuditRow → Type 0
AllInRange [] = Unit
AllInRange (r ∷ rs) = IsInRange r × AllInRange rs

-- The lists agree row by row in all that the hash covers, and in the hashes themselves.
abbrev pub SameEvents : List AuditRow → List AuditRow → Type 0
SameEvents [] [] = Unit
SameEvents [] (s ∷ ss) = ⊥
SameEvents (r ∷ rs) [] = ⊥
SameEvents (r ∷ rs) (s ∷ ss) = SameEvent r s × (r.hash ≡ s.hash) × SameEvents rs ss

bytes_cases : (x y : Bytes) → (x ≡ y) ⊎ (x ≢ y)
bytes_cases x y = elim (Bool-cases (bytes_eq x y)) [
  | inl same ↦ inl (bytes_eq-eq x y same)
  | inr other ↦ inr (λ e. cc (other, bytes_eq_refl x, ap (bytes_eq x) e))
]

module _ (sha256 : Bytes → Bytes) (length-sha256 : (x : Bytes) → length (sha256 x) ≡ 32) where
  -- One link: equal hashes come from equal events after equal hashes.
  same_link :
      (p q : Bytes) (k l : ℕ) (r s : AuditRow)
      → length p ≡ length q
      → IsInRange r
      → IsInRange s
      → IsLink sha256 p k r
      → IsLink sha256 q l s
      → r.hash ≡ s.hash
      → Collision sha256 ⊎ ((p ≡ q) × SameEvent r s)
  unfolding compute_hash
  same_link p q k l r s n hr hs lr ls e = elim (bytes_cases (event_bytes p r) (event_bytes q s)) [
    | inl same ↦ inr (event_bytes_inj p q r s n hr hs same)
    | inr other ↦ inl (event_bytes p r, event_bytes q s, other, sym lr.2 ∙ e ∙ ls.2)
  ]

  length-link : (p : Bytes) (k : ℕ) (r : AuditRow) → IsLink sha256 p k r → length r.hash ≡ 32
  unfolding compute_hash
  length-link p k r h = ap length h.2 ∙ length-sha256 (event_bytes p r)

  pub same_chain :
      (p q : Bytes) (k l : ℕ) (rs ss : List AuditRow)
      → length p ≡ length q
      → length rs ≡ length ss
      → AllInRange rs
      → AllInRange ss
      → Linked sha256 p k rs
      → Linked sha256 q l ss
      → end_hash p rs ≡ end_hash q ss
      → Collision sha256 ⊎ ((p ≡ q) × SameEvents rs ss)
  same_chain p q k l [] [] n m hr hs lr ls e = inr (e, tt)
  same_chain p q k l [] (s ∷ ss) n m hr hs lr ls e = absurd (omega arith)
  same_chain p q k l (r ∷ rs) [] n m hr hs lr ls e = absurd (omega arith)
  same_chain p q k l (r ∷ rs) (s ∷ ss) n m hr hs lr ls e =
      let lengths = length-link p k r lr.0 ∙ sym (length-link q l s ls.0) in
      elim (same_chain r.hash s.hash (k + 1) (l + 1) rs ss lengths (omega arith) hr.1 hs.1 lr.1 ls.1
        e) [
          | inl c ↦ inl c
          | inr (hashes, rest) ↦ elim (same_link p q k l r s n hr.0 hs.0 lr.0 ls.0 hashes) [
            | inl c ↦ inl c
            | inr (before, here) ↦ inr (before, (here, hashes, rest))
          ]
        ]
