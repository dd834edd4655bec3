-- ===== src/Resolve/Inherit/Ends.antt =====
-- The walk up the chain of bases ends: it never sees a config twice.
use janus_secrets.Common.{
  ℕ, zero, suc, ◌+◌, ◌≤◌, ◌<◌, ◌≡◌, refl, inl, inr, Bool-cases, false, not, any, keep, List, [],
  ◌∷◌, Bytes, bytes_eq, bytes_eq_refl, ok, ◌>>=◌, arith, length, In,
}
use janus_secrets.Resolve.Parse.Ends.{Ends, >>=-Ends}
use janus_secrets.Resolve.Inherit.{
  RawConfig, Reader, read_link, next_id, merged_of, walk_chain_from, resolve_merged,
}

-- The store holds only the configs of the list `known`.
abbrev pub IsFinite : Reader → Type 0
IsFinite reader =
    (id : Bytes) (rc : RawConfig) → reader.read_raw_by_id id ≡ ok rc → In id reader.known

abbrev AllIn : List Bytes → List Bytes → Type 0
AllIn [] ys = Unit
AllIn (x ∷ xs) ys = In x ys × AllIn xs ys

abbrev Distinct : List Bytes → Type 0
Distinct [] = Unit
Distinct (x ∷ xs) = (any (bytes_eq x) xs ≡ false) × Distinct xs

abbrev without : Bytes → List Bytes → List Bytes
without x ys = keep (λ y. not (bytes_eq x y)) ys

length-without : (x : Bytes) (ys : List Bytes) → length (without x ys) ≤ length ys
length-without x [] = omega arith
length-without x (y ∷ ys) = ground (arith, length-without x ys)

length-without_member : (x : Bytes) (ys : List Bytes) → In x ys → length (without x ys) < length ys
length-without_member x [] m = absurd m
length-without_member x (y ∷ ys) (inl e) =
    rw (← e) (rw (bytes_eq_refl x) (omega (arith, length-without x ys)))
length-without_member x (y ∷ ys) (inr m) = ground (arith, length-without_member x ys m)

In-without : (x z : Bytes) (ys : List Bytes) → In z ys → bytes_eq x z ≡ false → In z (without x ys)
In-without x z [] m f = absurd m
In-without x z (y ∷ ys) (inl e) f = rw (← e) (rw f (inl refl))
In-without x z (y ∷ ys) (inr m) f = elim (Bool-cases (bytes_eq x y)) [
  | inl t ↦ rw t (In-without x z ys m f)
  | inr g ↦ rw g (inr (In-without x z ys m f))
]

AllIn-without :
    (x : Bytes) (xs ys : List Bytes)
    → AllIn xs ys
    → any (bytes_eq x) xs ≡ false
    → AllIn xs (without x ys)
AllIn-without x [] ys h f = tt
AllIn-without x (z ∷ xs) ys h f =
    (In-without x z ys h.0 (ground arith), AllIn-without x xs ys h.1 (ground arith))

-- Distinct members of a list are no more than its length.
length-Distinct : (xs ys : List Bytes) → Distinct xs → AllIn xs ys → length xs ≤ length ys
length-Distinct [] ys d h = omega arith
length-Distinct (x ∷ xs) ys d h = omega (
  arith,
  length-without_member x ys h.0,
  length-Distinct xs (without x ys) d.1 (AllIn-without x xs ys h.1 d.0),
)

read_link-Ends :
    (reader : Reader) (seen : List Bytes) (id : Bytes) → Ends (read_link reader seen id)
read_link-Ends reader seen id = ground arith

read_link-In :
    (reader : Reader) (seen : List Bytes) (id : Bytes) (rc : RawConfig)
    → IsFinite reader
    → read_link reader seen id ≡ ok rc
    → In id reader.known
read_link-In reader seen id rc f h = f id rc (ground arith)

walk_chain_from-Ends :
    (n : ℕ) (reader : Reader) (seen : List Bytes) (id : Bytes)
    → IsFinite reader
    → Distinct seen
    → AllIn seen reader.known
    → length reader.known < n + length seen
    → Ends (walk_chain_from n reader seen id)
unfolding walk_chain_from
walk_chain_from-Ends n reader seen [] f d a l = λ e. cc
walk_chain_from-Ends zero reader seen (b ∷ id) f d a l =
    λ e. absurd (omega (arith, length-Distinct seen reader.known d a))
walk_chain_from-Ends (suc n) reader seen (b ∷ id) f d a l =
    elim (Bool-cases (any (bytes_eq (b ∷ id)) seen)) [
      | inl t ↦ rw t (λ e. cc)
      | inr g ↦
          let onward = λ (rc : RawConfig).
            walk_chain_from n reader ((b ∷ id) ∷ seen) (next_id rc.inherits_from) in
          rw g (
            >>=-Ends (read_link reader seen (b ∷ id)) (λ rc. onward rc >>= λ chain. ok (rc ∷ chain))
              (read_link-Ends reader seen (b ∷ id))
              (λ rc read.
                >>=-Ends (onward rc) (λ chain. ok (rc ∷ chain))
                  (walk_chain_from-Ends n reader ((b ∷ id) ∷ seen) (next_id rc.inherits_from) f
                    (g, d) (read_link-In reader seen (b ∷ id) rc f read, a) (omega arith))
                  (λ chain walked e. cc)))
    ]

merged_of-Ends : (chain : List RawConfig) → Ends (merged_of chain)
merged_of-Ends [] = λ e. cc
merged_of-Ends (rc ∷ chain) = λ e. cc

pub resolve_merged-Ends :
    (reader : Reader) (id : Bytes) → IsFinite reader → Ends (resolve_merged reader id)
unfolding resolve_merged
resolve_merged-Ends reader id f =
    >>=-Ends (walk_chain_from (suc (length reader.known)) reader [] id) merged_of
      (walk_chain_from-Ends (suc (length reader.known)) reader [] id f tt tt (omega arith))
      (λ chain walked. merged_of-Ends chain)
