-- ===== src/Common/Maps.antt =====
-- A map from texts to texts as the list of its entries: the first of a key is its value.
use mathlib.Core.Path.{◌≡◌, refl}
use mathlib.Core.Logic.{inl, inr}
use mathlib.Core.Bool.{Bool, true, false, not}
use mathlib.Core.Option.{Option, none, some}
use mathlib.Core.List.{List, [], ◌∷◌}
use janus_secrets.Common.Tests.{if◌then◌else◌, Bool-cases}
use janus_secrets.Common.Lists.{keep}
use janus_secrets.Common.ByteStrings.{Bytes, bytes_eq, bytes_eq-eq}

abbrev pub Values : Type 0
Values = List (Bytes × Bytes)

-- `m[k]` with its `ok`.
unfoldable pub lookup : Bytes → Values → Option Bytes
lookup k [] = none
lookup k (e ∷ m) = let rest = lookup k m in if bytes_eq k e.0 then some e.1 else rest

-- `delete(m, k)`
unfoldable pub delete : Bytes → Values → Values
delete k m = keep (λ e. not (bytes_eq k e.0)) m

-- `m[k] = v`
unfoldable pub put : Bytes → Bytes → Values → Values
put k v m = (k, v) ∷ delete k m

pub lookup-delete : (k : Bytes) (m : Values) → lookup k (delete k m) ≡ none
unfolding lookup delete
lookup-delete k [] = refl
lookup-delete k (e ∷ m) = elim (Bool-cases (bytes_eq k e.0)) [
  | inl t ↦ rw t (lookup-delete k m)
  | inr f ↦ rw (f, f) (lookup-delete k m)
]

pub lookup-delete_other :
    (k x : Bytes) (m : Values) → bytes_eq k x ≡ false → lookup k (delete x m) ≡ lookup k m
unfolding lookup delete
lookup-delete_other k x [] d = refl
lookup-delete_other k x (e ∷ m) d = elim (Bool-cases (bytes_eq x e.0)) [
  | inl t ↦
      let other : bytes_eq k e.0 ≡ false = rw (bytes_eq-eq x e.0 t) at d in
      rw (t, other) (lookup-delete_other k x m d)
  | inr f ↦ rw f (rw (lookup-delete_other k x m d) refl)
]

-- Whether a key is there.
abbrev pub present : Option Bytes → Bool
present none = false
present (some v) = true
