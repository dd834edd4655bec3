-- ===== src/Resolve/Inherit.antt =====
-- Inheritance (internal/resolve/inherit.go) over the reader of raw configs
-- (internal/resolve/types.go). A map is the list of its entries.
pub mod Merged
pub mod Ends
use janus_secrets.Common.{
  Values, ℕ, zero, suc, Bool, true, false, Option, none, some, List, [], ◌∷◌, ◌++◌, any, length,
  if◌then◌else◌, Bytes, bytes_eq, Result, ok, err, ◌>>=◌,
}
use janus_secrets.Resolve.Parse.{
  Error, read_failed, Coord, inheritance_cycle, broken_inheritance, out_of_fuel, index_panic,
}

pub record RawConfig : Type 0 where
  pub project_id : Bytes
  pub env_id : Bytes
  pub config_id : Bytes
  pub project : Bytes
  pub env : Bytes
  pub config : Bytes
  pub inherits_from : Option Bytes
  pub own_values : Values

-- `RawReader`; `known` are the ids of the configs that the store holds.
pub record Reader : Type 0 where
  pub read_raw : Coord → Result Bytes RawConfig
  pub read_raw_by_id : Bytes → Result Bytes RawConfig
  pub known : List Bytes

-- `merged[k] = v` for the entries of one config of the chain, over those of its ancestors: an entry
-- in front hides one of the same key behind it.
unfoldable pub merge_chain : List RawConfig → Values
merge_chain [] = []
merge_chain (c ∷ chain) = c.own_values ++ merge_chain chain

-- The error of a base is `ErrBrokenInheritance`; that of the config asked for is passed on.
abbrev pub link_error : List Bytes → Error → Error
link_error [] e = e
link_error (s ∷ seen) e = broken_inheritance

abbrev pub read_link : Reader → List Bytes → Bytes → Result Error RawConfig
read_link reader seen id = elim (reader.read_raw_by_id id) [
  | ok rc ↦ ok rc
  | err e ↦ err (link_error seen (read_failed e))
]

abbrev pub next_id : Option Bytes → Bytes
next_id none = []
next_id (some id) = id

-- The loop that follows `InheritsFrom`, from the config asked for on; the empty id ends it.
unfoldable pub walk_chain_from : ℕ → Reader → List Bytes → Bytes → Result Error (List RawConfig)
walk_chain_from n reader seen [] = ok []
walk_chain_from zero reader seen (b ∷ id) = err out_of_fuel
walk_chain_from (suc n) reader seen (b ∷ id) =
    let onward =
      λ (rc : RawConfig). walk_chain_from n reader ((b ∷ id) ∷ seen) (next_id rc.inherits_from) in
    if any (bytes_eq (b ∷ id)) seen
    then err inheritance_cycle
    else read_link reader seen (b ∷ id) >>= λ rc. onward rc >>= λ chain. ok (rc ∷ chain)

-- `chain[0]`, which panics where the id asked for is empty.
abbrev pub head_config : List RawConfig → Result Error RawConfig
head_config [] = err index_panic
head_config (rc ∷ chain) = ok rc

-- What is done with the chain: it is merged, and its first config is returned with it.
abbrev pub merged_of : List RawConfig → Result Error (Values × RawConfig)
merged_of chain = head_config chain >>= λ self. ok (merge_chain chain, self)

-- `resolveMerged`: the merged values, and the requested config's own.
unfoldable pub resolve_merged : Reader → Bytes → Result Error (Values × RawConfig)
unfolding walk_chain_from
resolve_merged reader config_id =
    walk_chain_from (suc (length reader.known)) reader [] config_id >>= merged_of
