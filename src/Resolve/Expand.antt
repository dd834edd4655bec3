-- ===== src/Resolve/Expand.antt =====
-- The expansion of references (internal/resolve/resolve.go). Zeroizing is left out: no result
-- depends on it. A map is visited in the order of its entries.
pub mod Literal
pub mod Ends
pub mod Permitted
pub mod Cycles
use janus_secrets.Common.{
  Values, lookup, ℕ, zero, suc, ◌+◌, Bool, true, false, ◌&&◌, not, Option, none, some, List, [],
  ◌∷◌, ◌++◌, any, keep, length, leb, if◌then◌else◌, Bytes, bytes_eq, Result, ok, err, ◌>>=◌, ◌>>◌,
  reject_if,
}
use janus_secrets.Resolve.Parse.{
  Error, Coord, Ref, Segment, literal, reference, local, absolute, parse_segments, reference_cycle,
  unresolved_reference, forbidden_reference, reference_depth, out_of_fuel,
}
use janus_secrets.Resolve.Inherit.{RawConfig, Reader, resolve_merged}

-- `Authorizer`: whether the caller may read a target. `none` is a trusted caller.
abbrev pub Authorizer : Type 0
Authorizer = Option (RawConfig → Bool)

pub record Resolver : Type 0 where
  pub reader : Reader
  pub authz : Authorizer

abbrev pub max_depth : ℕ
max_depth = 32

pub record Frame : Type 0 where
  pub config_id : Bytes
  pub key : Bytes

abbrev pub frame_eq : Frame → Frame → Bool
frame_eq f g = bytes_eq f.config_id g.config_id && bytes_eq f.key g.key

-- A config read via a reference; its names are left in the config.
pub record Provenance : Type 0 where
  pub project_id : Bytes
  pub env_id : Bytes
  pub config_id : Bytes
  pub path : Bytes × Bytes × Bytes

unfoldable pub provenance_of : RawConfig → Provenance
provenance_of rc = record {
  project_id = rc.project_id;
  env_id = rc.env_id;
  config_id = rc.config_id;
  path = (rc.project, rc.env, rc.config);
}

-- `st.prov[id] = p`
unfoldable pub record_prov : Provenance → List Provenance → List Provenance
record_prov p prov = p ∷ keep (λ q. not (bytes_eq q.config_id p.config_id)) prov

abbrev pub Run : Type 0
Run = List Provenance → Result Error (Bytes × List Provenance)

-- `resolveKey` in the context of a config, with the stack and the provenance so far.
abbrev pub KeyStep : Type 0
KeyStep = RawConfig → Values → Bytes → List Frame → Run

abbrev pub permitted : Authorizer → RawConfig → Bool
permitted none target = true
permitted (some can_read) target = can_read target

abbrev pub found : Option Bytes → Bool
found none = false
found (some v) = true

abbrev pub read_target : Reader → Coord → Result Error RawConfig
read_target reader coord = elim (reader.read_raw coord) [
  | ok target ↦ ok target
  | err e ↦ err unresolved_reference
]

-- The key in the target's merged values.
unfoldable pub follow :
    KeyStep
    → Bytes
    → List Frame
    → List Provenance
    → Values × RawConfig
    → Result Error (Bytes × List Provenance)
follow step key stack prov inherited =
    reject_if (not (found (lookup key inherited.0))) unresolved_reference
    >> step inherited.1 inherited.0 key stack (record_prov (provenance_of inherited.1) prov)

-- The check of the target, and its inheritance.
unfoldable pub enter :
    Resolver
    → KeyStep
    → Bytes
    → List Frame
    → List Provenance
    → RawConfig
    → Result Error (Bytes × List Provenance)
enter rv step key stack prov target =
    reject_if (not (permitted rv.authz target)) forbidden_reference
    >> (resolve_merged rv.reader target.config_id >>= follow step key stack prov)

-- `resolveRef`, over the `resolveKey` that it calls.
unfoldable pub resolve_ref : Resolver → KeyStep → RawConfig → Values → Ref → List Frame → Run
resolve_ref rv step cfg merged (local key) stack prov = step cfg merged key stack prov
resolve_ref rv step cfg merged (absolute coord key) stack prov =
    read_target rv.reader coord >>= enter rv step key stack prov

-- The loop over the segments.
unfoldable pub splice :
    Resolver → KeyStep → RawConfig → Values → List Frame → List Segment → Bytes → Run
splice rv step cfg merged stack [] buf prov = ok (buf, prov)
splice rv step cfg merged stack (literal s ∷ segs) buf prov =
    splice rv step cfg merged stack segs (buf ++ s) prov
splice rv step cfg merged stack (reference rf ∷ segs) buf prov =
    resolve_ref rv step cfg merged rf stack prov >>= λ r.
    splice rv step cfg merged stack segs (buf ++ r.0) r.1

abbrev pub expand : Resolver → KeyStep → RawConfig → Values → List Frame → List Segment → Run
expand rv step cfg merged stack (reference rf ∷ []) prov =
    resolve_ref rv step cfg merged rf stack prov
expand rv step cfg merged stack segs prov = splice rv step cfg merged stack segs [] prov

abbrev pub frame_of : RawConfig → Bytes → Frame
frame_of cfg key = record { config_id = cfg.config_id; key = key }

-- The value of a key, if it is there.
abbrev pub value_of : Option Bytes → Result Error Bytes
value_of none = err unresolved_reference
value_of (some raw) = ok raw

-- The value of a key, parsed and expanded one frame deeper.
unfoldable pub expand_value : Resolver → KeyStep → RawConfig → Values → Bytes → List Frame → Run
expand_value rv step cfg merged key stack prov = do
  raw ← value_of (lookup key merged)
  segs ← parse_segments raw
  expand rv step cfg merged (frame_of cfg key ∷ stack) segs prov

-- `resolveKey`, with fuel: the depth cap ends it before `max_depth + 1` runs out.
unfoldable pub resolve_key_from : ℕ → Resolver → KeyStep
unfolding splice
resolve_key_from zero rv cfg merged key stack prov = err out_of_fuel
resolve_key_from (suc n) rv cfg merged key stack prov =
    let step = resolve_key_from n rv in
    reject_if (leb max_depth (length stack)) reference_depth
    >> (reject_if (any (λ s. frame_eq s (frame_of cfg key)) stack) reference_cycle
        >> expand_value rv step cfg merged key stack prov)

-- The loop of `Resolve` over the keys.
unfoldable pub resolve_all :
    Resolver
    → RawConfig
    → Values
    → Values
    → List Provenance
    → Result Error (Values × List Provenance)
resolve_all rv self merged [] prov = ok ([], prov)
resolve_all rv self merged (e ∷ es) prov =
    resolve_key_from (suc max_depth) rv self merged e.0 [] prov >>= λ r.
    resolve_all rv self merged es r.1 >>= λ rest. ok ((e.0, r.0) ∷ rest.0, rest.1)

-- The entries of a map: an entry that another of its key hides is none.
unfoldable pub visible : Values → Values
visible [] = []
visible (e ∷ m) = e ∷ keep (λ f. not (bytes_eq f.0 e.0)) (visible m)

unfoldable pub resolve_values :
    Resolver → Values × RawConfig → Result Error (Values × List Provenance)
resolve_values rv inherited = resolve_all rv inherited.1 inherited.0 (visible inherited.0) []

-- `Resolve`
unfoldable pub resolve : Resolver → Bytes → Result Error (Values × List Provenance)
resolve rv root_config_id = resolve_merged rv.reader root_config_id >>= resolve_values rv

unfoldable pub resolve_root :
    Resolver → Bytes → Values × RawConfig → Result Error (Bytes × List Provenance)
resolve_root rv key inherited =
    reject_if (not (found (lookup key inherited.0))) unresolved_reference
    >> resolve_key_from (suc max_depth) rv inherited.1 inherited.0 key [] []

-- `ResolveKey`
unfoldable pub resolve_key : Resolver → Bytes → Bytes → Result Error (Bytes × List Provenance)
resolve_key rv root_config_id key = resolve_merged rv.reader root_config_id >>= resolve_root rv key
