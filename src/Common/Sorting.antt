-- ===== src/Common/Sorting.antt =====
-- `slices.Sort` on strings: an insertion sort by byte order. UTF-8 keeps the order of code points,
-- by which `compare` goes.
use Prim.Native.Nat.{Ordering}
use Prim.Native.String.{String, compare}
use mathlib.Core.Path.{◌≡◌, refl}
use mathlib.Core.Bool.{Bool, true, false}
use mathlib.Core.List.{List, [], ◌∷◌}
use native.Mathlib.Omega.{arith}
use janus_secrets.Common.Tests.{if◌then◌else◌}
use janus_secrets.Common.Lists.{contains}

abbrev pub str_leb : String → String → Bool
str_leb a b = elim (compare a b) [ Ordering.gt ↦ false | _ ↦ true ]

sort_insert : String → List String → List String
sort_insert a [] = a ∷ []
sort_insert a (x ∷ xs) = let rest = sort_insert a xs in if str_leb a x then a ∷ x ∷ xs else x ∷ rest

unfoldable pub sort_strings : List String → List String
unfolding sort_insert
sort_strings [] = []
sort_strings (x ∷ xs) = sort_insert x (sort_strings xs)

contains-sort_insert :
    (b a : String) (xs : List String) → contains b (sort_insert a xs) ≡ contains b (a ∷ xs)
unfolding sort_insert
contains-sort_insert b a [] = refl
contains-sort_insert b a (x ∷ xs) = ground (arith, contains-sort_insert b a xs)

-- Sorting keeps the members.
pub contains-sort_strings :
    (b : String) (xs : List String) → contains b (sort_strings xs) ≡ contains b xs
unfolding sort_strings
contains-sort_strings b [] = refl
contains-sort_strings b (x ∷ xs) =
    ground (arith, contains-sort_insert b x (sort_strings xs), contains-sort_strings b xs)
