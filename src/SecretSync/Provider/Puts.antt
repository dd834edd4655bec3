-- ===== src/SecretSync/Provider/Puts.antt =====
-- What the loop that puts the desired values leaves at the destination.
use janus_secrets.Common.{
  ◌≡◌, refl, inl, inr, true, false, ◌&&◌, ◌||◌, Option, none, some, [], ◌∷◌, ◌++◌, any-append,
  if◌then◌else◌, Bytes, bytes_eq, bytes_eq-eq, bytes_eq_refl, Values, lookup, put, arith,
  Bool-cases,
}
use janus_secrets.SecretSync.Provider.{
  Answer, answered, lost, refused, Network, Progress, member, stored_name, put_answer, put_key,
  put_all, valid_name,
}
use janus_secrets.SecretSync.Provider.Untouched.{
  wanted, wanted_name, member_name, put_key-other, put_all-other,
}

-- The keys of a map, as a list of entries, are all different.
abbrev pub Distinct : Values → Type 0
Distinct [] = Unit
Distinct (e ∷ m) = (wanted e.0 m ≡ false) × Distinct m

-- The names at the destination of the keys of a map are all different.
abbrev pub DistinctNames : Values → Type 0
DistinctNames [] = Unit
DistinctNames (e ∷ m) = (wanted_name (stored_name e.0) m ≡ false) × DistinctNames m

-- The value that is desired for a name at the destination, by a key that is valid.
unfoldable pub lookup_name : Bytes → Values → Option Bytes
lookup_name k [] = none
lookup_name k (e ∷ m) =
    if bytes_eq k (stored_name e.0) && valid_name e.0 then some e.1 else lookup_name k m

lookup_name-none : (k : Bytes) (m : Values) → wanted_name k m ≡ false → lookup_name k m ≡ none
unfolding lookup_name
lookup_name-none k [] h = refl
lookup_name-none k (e ∷ m) h = ground (arith, h, lookup_name-none k m)

put_answer-going :
    (a : Answer) (e : Bytes × Bytes) (p : Progress)
    → (put_answer a e p).going ≡ true
    → (lookup (stored_name e.0) (put_answer a e p).destination ≡ some e.1)
      × ((put_answer a e p).applied ≡ p.applied ++ e.0 ∷ [])
unfolding lookup put
put_answer-going answered e p g = ground (arith, bytes_eq_refl (stored_name e.0))
put_answer-going lost e p g = cc
put_answer-going refused e p g = cc

put_key-going :
    (net : Network) (e : Bytes × Bytes) (p : Progress)
    → (put_key net e p).going ≡ true
    → p.going ≡ true
unfolding put_key
put_key-going net e p g = ground (arith, g)

put_all-going :
    (net : Network) (desired : Values) (p : Progress)
    → (put_all net desired p).going ≡ true
    → p.going ≡ true
unfolding put_all
put_all-going net [] p g = g
put_all-going net (e ∷ desired) p g =
    put_key-going net e p (put_all-going net desired (put_key net e p) g)

put_key-puts :
    (net : Network) (e : Bytes × Bytes) (p : Progress)
    → (put_key net e p).going ≡ true
    → lookup (stored_name e.0) (put_key net e p).destination
      ≡ (if valid_name e.0 then some e.1 else lookup (stored_name e.0) p.destination)
unfolding put_key
put_key-puts net e p g =
    ground (arith, g, put_key-going net e p, put_answer-going (net.put_secret e.0) e p)

-- The value of a name after a put of what is desired for it.
abbrev pub mirrored : Option Bytes → Option Bytes → Option Bytes
mirrored (some v) old = some v
mirrored none old = old

pub put_all-mirrored :
    (net : Network) (desired : Values) (p : Progress) (k : Bytes)
    → DistinctNames desired
    → (put_all net desired p).going ≡ true
    → lookup k (put_all net desired p).destination
      ≡ mirrored (lookup_name k desired) (lookup k p.destination)
unfolding put_all lookup_name
put_all-mirrored net [] p k d g = refl
put_all-mirrored net (e ∷ desired) p k d g = elim (Bool-cases (bytes_eq k (stored_name e.0))) [
  | inl u ↦
      let same = bytes_eq-eq k (stored_name e.0) u in
      let now = put_key-puts net e p (put_all-going net desired (put_key net e p) g) in
      let there : lookup k (put_key net e p).destination
          ≡ (if valid_name e.0 then some e.1 else lookup k p.destination) =
        rw same now in
      let unwanted : wanted_name k desired ≡ false = rw same d.0 in
      let kept = put_all-other net k desired (put_key net e p) unwanted in
      rw (u, kept, there, lookup_name-none k desired unwanted)
        (elim (Bool-cases (valid_name e.0)) [ inl v ↦ rw v refl | inr v ↦ rw v refl ])
  | inr u ↦ rw u (
      ground
        (arith, put_key-other net k e p u, put_all-mirrored net desired (put_key net e p) k d.1 g))
]

put_key-applied :
    (net : Network) (e : Bytes × Bytes) (p : Progress) (k : Bytes)
    → (put_key net e p).going ≡ true
    → member k (put_key net e p).applied
      ≡ (member k p.applied || (bytes_eq k e.0 && valid_name e.0))
unfolding put_key
put_key-applied net e p k g = ground (
  arith,
  g,
  put_key-going net e p,
  put_answer-going (net.put_secret e.0) e p,
  any-append (bytes_eq k) p.applied (e.0 ∷ []),
)

pub put_all-applied :
    (net : Network) (desired : Values) (p : Progress) (k : Bytes)
    → (put_all net desired p).going ≡ true
    → member k (put_all net desired p).applied
      ≡ (member k p.applied || (wanted k desired && valid_name k))
unfolding put_all
put_all-applied net [] p k g = ground arith
put_all-applied net (e ∷ desired) p k g = elim (Bool-cases (bytes_eq k e.0)) [
  | inl u ↦
      let now = put_key-applied net e p k (put_all-going net desired (put_key net e p) g) in
      let here : member k (put_key net e p).applied
          ≡ (member k p.applied || (bytes_eq k e.0 && valid_name k)) =
        rw (bytes_eq-eq k e.0 u) (rw (bytes_eq-eq k e.0 u) at now) in
      ground (arith, u, here, put_all-applied net desired (put_key net e p) k g)
  | inr u ↦ ground (
    arith,
    u,
    put_key-applied net e p k (put_all-going net desired (put_key net e p) g),
    put_all-applied net desired (put_key net e p) k g,
  )
]

-- A name of no desired key is not the name of a key that was put.
pub put_key-unapplied :
    (net : Network) (k : Bytes) (e : Bytes × Bytes) (p : Progress)
    → bytes_eq k (stored_name e.0) ≡ false
    → member_name k p.applied ≡ false
    → member_name k (put_key net e p).applied ≡ false
unfolding put_key
put_key-unapplied net k e p d m = ground (arith, d, m, answer-unapplied (net.put_secret e.0))
  where
    answer-unapplied : (a : Answer) → member_name k (put_answer a e p).applied ≡ false
    answer-unapplied answered =
        rw (any-append (λ x. bytes_eq k (stored_name x)) p.applied (e.0 ∷ []))
          (ground (arith, d, m))
    answer-unapplied lost = m
    answer-unapplied refused = m

pub put_all-unapplied :
    (net : Network) (k : Bytes) (desired : Values) (p : Progress)
    → wanted_name k desired ≡ false
    → member_name k p.applied ≡ false
    → member_name k (put_all net desired p).applied ≡ false
unfolding put_all
put_all-unapplied net k [] p d m = m
put_all-unapplied net k (e ∷ desired) p d m =
    put_all-unapplied net k desired (put_key net e p) (ground (arith, d))
      (put_key-unapplied net k e p (ground (arith, d)) m)
