-- ===== src/Resolve/Parse/Escape.antt =====
-- A text in which every `$` is doubled has no reference in it, and spells itself.
use janus_secrets.Common.{
  ◌≡◌, refl, inl, inr, Bool-cases, List, [], ◌∷◌, ◌++◌, ◌==◌, if◌then◌else◌, Bytes, ok, ==_iff,
  append_assoc,
}
use janus_secrets.Resolve.Parse.{
  Segment, literal, reference, in_text, dollar, flush, scan, parse_segments,
}

unfoldable pub escape : Bytes → Bytes
escape [] = []
escape (c ∷ s) = let rest = escape s in if c == dollar then dollar ∷ dollar ∷ rest else c ∷ rest

-- The segments are literals, and a given text when put together.
abbrev pub Spells : List Segment → Bytes → Type 0
Spells [] v = v ≡ []
Spells (literal s ∷ segs) v = (w : Bytes) × (v ≡ s ++ w) × Spells segs w
Spells (reference r ∷ segs) v = ⊥

flush-Spells :
    (acc : Bytes) (segs : List Segment) (v : Bytes)
    → Spells segs v
    → Spells (flush acc segs) (acc ++ v)
flush-Spells [] segs v h = h
flush-Spells (c ∷ acc) segs v h = (v, refl, h)

scan-escape :
    (acc v : Bytes)
    → (segs : List Segment) × (scan (in_text acc) (escape v) ≡ ok segs) × Spells segs (acc ++ v)
unfolding escape scan
scan-escape acc [] = (flush acc [], refl, flush-Spells acc [] [] refl)
scan-escape acc (c ∷ s) = elim (Bool-cases (c == dollar)) [
  | inl t ↦
      let (segs, e, spells) = scan-escape [] s in
      let same : c ≡ dollar = (==_iff _ _).0 t in
      (
        flush acc (literal (dollar ∷ []) ∷ segs),
        rw (t, e) refl,
        rw same (flush-Spells acc (literal (dollar ∷ []) ∷ segs) (dollar ∷ s) (s, refl, spells)),
      )
  | inr f ↦
      let (segs, e, spells) = scan-escape (acc ++ c ∷ []) s in
      (segs, rw (f, f, e) refl, rw (append_assoc acc (c ∷ []) s) at spells)
]

pub parse_segments-escape :
    (v : Bytes) → (segs : List Segment) × (parse_segments (escape v) ≡ ok segs) × Spells segs v
unfolding parse_segments
parse_segments-escape v = scan-escape [] v
