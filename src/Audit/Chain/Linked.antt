-- ===== src/Audit/Chain/Linked.antt =====
-- What a chain is, apart from the walk that checks it: each row carries the next sequence number,
-- the hash before it, and its own hash. The walk accepts exactly the chains.
use janus_secrets.Common.{
  Bytes, bytes_eq-eq, bytes_eq_refl, ℕ, ◌+◌, ◌≡◌, refl, ◌∙◌, inl, inr, none, some, List, [], ◌∷◌,
  leb, length, arith, Option-cases, Bool-cases, ◌<◌, ◌≤◌, leb→le, lt→ltb,
}
use janus_secrets.Audit.Encoding.{AuditRow, compute_hash}
use janus_secrets.Audit.Chain.{Walk, Break, check_row, advance, walk_chain}

-- `IsLink sha256 prev seq row`: the row stands at `seq` and follows the hash `prev`.
abbrev pub IsLink : (Bytes → Bytes) → Bytes → ℕ → AuditRow → Type 0
IsLink sha256 prev seq row =
    (row.seq ≡ seq) × (row.prev_hash ≡ prev) × (row.hash ≡ compute_hash sha256 prev row)

abbrev pub Linked : (Bytes → Bytes) → Bytes → ℕ → List AuditRow → Type 0
Linked sha256 prev seq [] = Unit
Linked sha256 prev seq (row ∷ rows) =
    IsLink sha256 prev seq row × Linked sha256 row.hash (seq + 1) rows

-- The hash after the rows.
abbrev pub end_hash : Bytes → List AuditRow → Bytes
end_hash prev [] = prev
end_hash prev (row ∷ rows) = end_hash row.hash rows

check_row-none :
    (sha256 : Bytes → Bytes) (row : AuditRow) (w : Walk)
    → check_row sha256 row w ≡ none
    → IsLink sha256 w.prev w.expect_seq row
unfolding check_row
check_row-none sha256 row w h =
    ground (
      arith,
      bytes_eq-eq row.prev_hash w.prev,
      bytes_eq-eq row.hash (compute_hash sha256 w.prev row),
    )

pub IsLink-check_row :
    (sha256 : Bytes → Bytes) (row : AuditRow) (w : Walk)
    → IsLink sha256 w.prev w.expect_seq row
    → check_row sha256 row w ≡ none
unfolding check_row
IsLink-check_row sha256 row w h =
    ground (arith, bytes_eq_refl row.prev_hash, bytes_eq_refl row.hash)

abbrev pub end_seq : ℕ → List AuditRow → ℕ
end_seq seq [] = seq
end_seq seq (row ∷ rows) = end_seq row.seq rows

-- The walk after rows that all validate.
abbrev pub walked : List AuditRow → Walk → Walk
walked rows w = record w {
  prev = end_hash w.prev rows;
  expect_seq = w.expect_seq + length rows;
  count = w.count + length rows;
  head_seq = end_seq w.head_seq rows;
  head_hash = end_hash w.head_hash rows;
}

walked-advance :
    (row : AuditRow) (rows : List AuditRow) (w : Walk)
    → walked rows (advance row w) ≡ walked (row ∷ rows) w
unfolding advance
walked-advance row rows w = ground arith

walk_chain_step :
    (sha256 : Bytes → Bytes) (row : AuditRow) (rows : List AuditRow) (w : Walk)
    → check_row sha256 row w ≡ none
    → walk_chain sha256 0 (row ∷ rows) w ≡ walk_chain sha256 0 rows (advance row w)
unfolding walk_chain
walk_chain_step sha256 row rows w h = rw (h, walk_chain) refl

-- A chain is walked to its end.
pub walk_chain-Linked :
    (sha256 : Bytes → Bytes) (rows : List AuditRow) (w : Walk)
    → Linked sha256 w.prev w.expect_seq rows
    → walk_chain sha256 0 rows w ≡ walked rows w
unfolding advance
walk_chain-Linked sha256 [] w h = unfold walk_chain in ground arith
walk_chain-Linked sha256 (row ∷ rows) w h =
    walk_chain_step sha256 row rows w (IsLink-check_row sha256 row w h.0)
    ∙ walk_chain-Linked sha256 rows (advance row w) h.1
    ∙ walked-advance row rows w

walk_chain_stop :
    (sha256 : Bytes → Bytes) (row : AuditRow) (rows : List AuditRow) (w : Walk) (b : Break)
    → check_row sha256 row w ≡ some b
    → (walk_chain sha256 0 (row ∷ rows) w).broken ≡ some b
unfolding walk_chain
walk_chain_stop sha256 row rows w b h = rw (h, walk_chain) refl

pub Linked-walk_chain :
    (sha256 : Bytes → Bytes) (rows : List AuditRow) (w : Walk)
    → (walk_chain sha256 0 rows w).broken ≡ none
    → Linked sha256 w.prev w.expect_seq rows
unfolding advance
Linked-walk_chain sha256 [] w h = tt
Linked-walk_chain sha256 (row ∷ rows) w h = elim (Option-cases (check_row sha256 row w)) [
  | inl fits ↦ (
    check_row-none sha256 row w fits,
    Linked-walk_chain sha256 rows (advance row w) (rw (← walk_chain_step sha256 row rows w fits) h),
  )
  | inr (b, stop) ↦ cc (h, walk_chain_stop sha256 row rows w b stop)
]

-- Rows in strictly ascending order, all above `seq`; and rows none of which is above `seq`.
abbrev pub IsAscending : ℕ → List AuditRow → Type 0
IsAscending seq [] = Unit
IsAscending seq (row ∷ rows) = (seq < row.seq) × IsAscending row.seq rows

abbrev pub AllUpTo : ℕ → List AuditRow → Type 0
AllUpTo seq [] = Unit
AllUpTo seq (row ∷ rows) = (row.seq ≤ seq) × AllUpTo seq rows

no_rows :
    (low high : ℕ) (rows : List AuditRow)
    → high ≤ low
    → IsAscending low rows
    → AllUpTo high rows
    → rows ≡ []
no_rows low high [] h a u = refl
no_rows low high (row ∷ rows) h a u = absurd (omega arith)

-- A walk that is bounded by the last row is the whole walk.
pub walk_chain_bounded :
    (sha256 : Bytes → Bytes) (through low : ℕ) (rows : List AuditRow) (w : Walk)
    → 0 < through
    → IsAscending low rows
    → AllUpTo through rows
    → walk_chain sha256 through rows w ≡ walk_chain sha256 0 rows w
unfolding walk_chain
walk_chain_bounded sha256 through low [] w p a u = refl
walk_chain_bounded sha256 through low (row ∷ rows) w p a u =
    elim (Option-cases (check_row sha256 row w)) [
      | inr (b, stop) ↦ rw (stop, walk_chain) refl
      | inl fits ↦ elim (Bool-cases (leb through row.seq)) [
        | inl last ↦
            let none_left = no_rows row.seq through rows (leb→le through row.seq last) a.1 u.1 in
            rw (fits, last, lt→ltb 0 through p, none_left, walk_chain) refl
        | inr before ↦
            rw (fits, before, lt→ltb 0 through p, walk_chain)
              (walk_chain_bounded sha256 through row.seq rows (advance row w) p a.1 u.1)
      ]
    ]
