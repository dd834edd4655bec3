-- ===== src/Resolve/Expand/Cycles.antt =====
-- A cycle of references has no value.
use janus_secrets.Common.{
  Values, lookup, ℕ, zero, suc, ◌≡◌, ◌≢◌, any, some, List, [], ◌∷◌, Bytes, ok, In, length, leb,
  reject_if-eq_ok,
}
use janus_secrets.Resolve.Parse.{local, reference_depth, reference_cycle, unresolved_reference}
use janus_secrets.Resolve.Parse.Print.{IsToken, print_ref, parse_segments-print_ref}
use janus_secrets.Resolve.Inherit.{RawConfig, resolve_merged}
use janus_secrets.Resolve.Expand.{
  Resolver, Frame, frame_of, frame_eq, Provenance, max_depth, resolve_ref, expand_value,
  resolve_key_from, resolve_root, resolve_key,
}

-- The value of each of the keys is exactly a reference to one of the keys.
abbrev pub IsClosed : List Bytes → Values → Type 0
IsClosed keys merged =
    (k : Bytes)
    → In k keys
    → (next : Bytes) × In next keys
      × IsToken next
      × (lookup k merged ≡ some (print_ref (local next)))

resolve_key_from-cycle :
    (n : ℕ) (rv : Resolver) (cfg : RawConfig) (keys : List Bytes) (merged : Values) (key : Bytes)
    (stack : List Frame) (prov : List Provenance) (r : Bytes × List Provenance)
    → IsClosed keys merged
    → In key keys
    → resolve_key_from n rv cfg merged key stack prov ≢ ok r
unfolding resolve_key_from expand_value resolve_ref
resolve_key_from-cycle zero rv cfg keys merged key stack prov r c m h = cc
resolve_key_from-cycle (suc n) rv cfg keys merged key stack prov r c m h =
    let (_, rest) = reject_if-eq_ok (leb max_depth (length stack)) reference_depth _ h in
    let (_, go) =
      reject_if-eq_ok (any (λ s. frame_eq s (frame_of cfg key)) stack) reference_cycle _ rest in
    let (next, m', token, at) = c key m in
    resolve_key_from-cycle n rv cfg keys merged next (frame_of cfg key ∷ stack) prov r c m'
      (rw (at, parse_segments-print_ref (local next) token) at go)

-- If, in a config's merged values, each key of a list has exactly a reference to a key of that list
-- as its value, then `ResolveKey` returns an error for each of them.
pub resolve_key-cycle :
    (rv : Resolver) (id key : Bytes) (keys : List Bytes) (merged : Values) (self : RawConfig)
    (r : Bytes × List Provenance)
    → resolve_merged rv.reader id ≡ ok (merged, self)
    → IsClosed keys merged
    → In key keys
    → resolve_key rv id key ≢ ok r
unfolding resolve_key resolve_root
resolve_key-cycle rv id key keys merged self r e c m h =
    let (_, go) = reject_if-eq_ok _ unresolved_reference _ (rw e at h) in
    resolve_key_from-cycle (suc max_depth) rv self keys merged key [] [] r c m go
