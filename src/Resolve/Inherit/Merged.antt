-- ===== src/Resolve/Inherit/Merged.antt =====
-- What inheritance merges: the chain of bases, and which of them gives a key its value.
use janus_secrets.Common.{
  Values, lookup, ℕ, zero, suc, ◌≡◌, refl, ◌∙◌, inl, inr, Bool-cases, Option-cases, any, Option,
  none, some, List, [], ◌∷◌, ◌++◌, Bytes, bytes_eq, ok, ◌>>=◌, >>=-eq-ok, arith, length,
}
use janus_secrets.Resolve.Inherit.{
  RawConfig, Reader, merge_chain, read_link, next_id, merged_of, walk_chain_from, resolve_merged,
}

-- The configs from a given one up to one without a base, as the reader returns them.
abbrev pub IsChain : Reader → Bytes → List RawConfig → Type 0
IsChain reader id [] = id ≡ []
IsChain reader id (rc ∷ chain) =
    (reader.read_raw_by_id id ≡ ok rc) × IsChain reader (next_id rc.inherits_from) chain

-- The value of the first config of the chain that has the key.
abbrev pub first_value : Bytes → List RawConfig → Option Bytes
first_value k [] = none
first_value k (rc ∷ chain) =
    let rest = first_value k chain in
    elim (lookup k rc.own_values) [ none ↦ rest | some v ↦ some v ]

lookup-append :
    (k : Bytes) (m m' : Values)
    → lookup k (m ++ m') ≡ elim (lookup k m) [ none ↦ lookup k m' | some v ↦ some v ]
unfolding lookup
lookup-append k [] m' = refl
lookup-append k (e ∷ m) m' = elim (Bool-cases (bytes_eq k e.0)) [
  | inl t ↦ rw t refl
  | inr f ↦ rw f (lookup-append k m m')
]

pub lookup-merge_chain :
    (k : Bytes) (chain : List RawConfig) → lookup k (merge_chain chain) ≡ first_value k chain
unfolding merge_chain lookup
lookup-merge_chain k [] = refl
lookup-merge_chain k (rc ∷ chain) =
    lookup-append k rc.own_values (merge_chain chain)
    ∙ elim (Option-cases (lookup k rc.own_values)) [
      | inl absent ↦ rw (absent, first_value) (lookup-merge_chain k chain)
      | inr (v, present) ↦ rw (present, first_value) refl
    ]

read_link-eq_ok :
    (reader : Reader) (seen : List Bytes) (id : Bytes) (rc : RawConfig)
    → read_link reader seen id ≡ ok rc
    → reader.read_raw_by_id id ≡ ok rc
read_link-eq_ok reader seen id rc h = ground arith

walk_chain_from-IsChain :
    (n : ℕ) (reader : Reader) (seen : List Bytes) (id : Bytes) (chain : List RawConfig)
    → walk_chain_from n reader seen id ≡ ok chain
    → IsChain reader id chain
unfolding walk_chain_from
walk_chain_from-IsChain n reader seen [] chain h = ground arith
walk_chain_from-IsChain zero reader seen (b ∷ id) chain h = cc
walk_chain_from-IsChain (suc n) reader seen (b ∷ id) chain h =
    elim (Bool-cases (any (bytes_eq (b ∷ id)) seen)) [
      | inl t ↦ cc
      | inr f ↦
          let onward = λ (rc : RawConfig).
            walk_chain_from n reader ((b ∷ id) ∷ seen) (next_id rc.inherits_from) in
          let (rc, read, rest) =
            >>=-eq-ok (read_link reader seen (b ∷ id))
              (λ rc. onward rc >>= λ chain. ok (rc ∷ chain)) (rw f at h) in
          let (chain', walked, same) = >>=-eq-ok (onward rc) (λ chain. ok (rc ∷ chain)) rest in
          let ih =
            walk_chain_from-IsChain n reader ((b ∷ id) ∷ seen) (next_id rc.inherits_from) chain'
              walked in
          let eq : chain ≡ rc ∷ chain' = cc in
          rw eq (read_link-eq_ok reader seen (b ∷ id) rc read, ih)
    ]

merged_of-IsChain :
    (reader : Reader) (id : Bytes) (merged : Values) (self : RawConfig) (chain : List RawConfig)
    → IsChain reader id chain
    → merged_of chain ≡ ok (merged, self)
    → (bases : List RawConfig) × IsChain reader id (self ∷ bases)
      × ((k : Bytes) → lookup k merged ≡ first_value k (self ∷ bases))
merged_of-IsChain reader id merged self [] is e = cc
merged_of-IsChain reader id merged self (rc ∷ chain) is e =
    let same : rc ≡ self = cc in
    let values : merged ≡ merge_chain (rc ∷ chain) = cc in
    (chain, rw (← same) is, λ k. rw (values, ← same) (lookup-merge_chain k (rc ∷ chain)))

-- Whenever `resolveMerged` succeeds there is a chain of configs that starts at the one asked for,
-- follows `InheritsFrom`, and ends at one without a base; the config returned is the first of the
-- chain, and each key has the value of the first config of the chain that has the key.
pub resolve_merged-IsChain :
    (reader : Reader) (id : Bytes) (merged : Values) (self : RawConfig)
    → resolve_merged reader id ≡ ok (merged, self)
    → (bases : List RawConfig) × IsChain reader id (self ∷ bases)
      × ((k : Bytes) → lookup k merged ≡ first_value k (self ∷ bases))
unfolding resolve_merged
resolve_merged-IsChain reader id merged self h =
    let (chain, walked, rest) =
      >>=-eq-ok (walk_chain_from (suc (length reader.known)) reader [] id) merged_of h in
    merged_of-IsChain reader id merged self chain
      (walk_chain_from-IsChain (suc (length reader.known)) reader [] id chain walked) rest
