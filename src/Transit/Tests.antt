-- ===== src/Transit/Tests.antt =====
-- A key that is rotated and trimmed, with a toy AEAD, and uses of the theorems.
use janus_secrets.Common.{◌≡◌, refl, true, false, Option, none, some, List, [], ◌∷◌, Bytes, codes}
use janus_secrets.Transit.{
  TransitKey, Op, rotating, configuring, trimming, create_key, rotate, update_config, trim,
  material_for, run_ops,
}
use janus_secrets.Transit.Keeps.{IsSound, create_key-IsSound, run_ops-IsSound}

abbrev toy_seal : Bytes → Bytes → Bytes → Bytes
toy_seal m p a = p

abbrev toy_open : Bytes → Bytes → Bytes → Option Bytes
toy_open m c a = some c

abbrev key : TransitKey
key = create_key true (codes "k1")

abbrev ops : List Op
ops = rotating false (codes "k2") ∷ configuring (some 2) none ∷ trimming 2 ∷ trimming 9 ∷ []

trimmed_key : material_for 1 (run_ops ops key).versions ≡ none
unfolding run_ops create_key rotate update_config trim material_for
trimmed_key = refl

run_ops-IsSound_example : IsSound (run_ops ops key)
run_ops-IsSound_example = run_ops-IsSound ops key (create_key-IsSound true (codes "k1"))
