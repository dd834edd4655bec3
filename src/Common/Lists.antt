-- ===== src/Common/Lists.antt =====
-- Lists over the native numbers, Boolean searches in a list, and membership by recursion.
use Prim.Native.Nat.{ℕ, zero, suc, ◌+◌}
use Prim.Native.String.{String}
use mathlib.Core.Path.{◌≡◌, refl}
use mathlib.Core.Logic.{◌⊎◌, inl, inr}
use mathlib.Core.Bool.{Bool, true, false, ◌||◌, ◌&&◌, not}
use mathlib.Core.List.{List, [], ◌∷◌, ◌++◌}
use native.Mathlib.Omega.{arith}
use text.Mathlib.Text.{◌==◌ as str_eq}
use text.Mathlib.TextEquality.{eq_iff}
use janus_secrets.Common.Tests.{if◌then◌else◌, Bool-cases}

module _ {ℓ} {A : Type ℓ} where
  abbrev pub length : List A → ℕ
  length [] = 0
  length (x ∷ xs) = suc (length xs)

  -- A loop that returns true at the first element that passes.
  abbrev pub any : (A → Bool) → List A → Bool
  any p [] = false
  any p (x ∷ xs) = p x || any p xs

  -- A loop that keeps the elements that pass, in order.
  abbrev pub keep : (A → Bool) → List A → List A
  keep p [] = []
  keep p (x ∷ xs) = let rest = keep p xs in if p x then x ∷ rest else rest

  abbrev pub take : ℕ → List A → List A
  take zero xs = []
  take (suc n) [] = []
  take (suc n) (x ∷ xs) = x ∷ take n xs

  abbrev pub drop : ℕ → List A → List A
  drop zero xs = xs
  drop (suc n) [] = []
  drop (suc n) (x ∷ xs) = drop n xs

  pub take-append : (xs ys : List A) → take (length xs) (xs ++ ys) ≡ xs
  take-append [] ys = refl
  take-append (x ∷ xs) ys = rw (take-append xs ys)

  pub drop-append : (xs ys : List A) → drop (length xs) (xs ++ ys) ≡ ys
  drop-append [] ys = refl
  drop-append (x ∷ xs) ys = drop-append xs ys

  pub length-append : (xs ys : List A) → length (xs ++ ys) ≡ length xs + length ys
  length-append [] ys = omega arith
  length-append (x ∷ xs) ys = omega (arith, length-append xs ys)

module _ {A : Type 0} where
  -- Membership by recursion, which the tactics take apart.
  abbrev pub In : A → List A → Type 0
  In a [] = ⊥
  In a (x ∷ xs) = (a ≡ x) ⊎ In a xs

module _ {ℓ} {A : Type ℓ} (p : A → Bool) where
  pub any-append : (xs ys : List A) → any p (xs ++ ys) ≡ (any p xs || any p ys)
  any-append [] ys = refl
  any-append (x ∷ xs) ys = ground (arith, any-append xs ys)

-- A text that equals one of two different texts does not equal the other.
pub str_eq-distinct : (r a b : String) → str_eq a b ≡ false → str_eq r a ≡ true → str_eq r b ≡ false
str_eq-distinct r a b d h = rw ((eq_iff r a).0 h) d

pub any_ext :
    {A : Type 0} (p q : A → Bool) (xs : List A) → ((x : A) → p x ≡ q x) → any p xs ≡ any q xs
any_ext p q [] h = refl
any_ext p q (x ∷ xs) h = rw (h x, any_ext p q xs h) refl

-- Membership of a text in a list of texts.
abbrev pub contains : String → List String → Bool
contains a xs = any (str_eq a) xs

module _ {A : Type 0} (p : A → Bool) where
  pub any_intro : (x : A) (xs : List A) → In x xs → p x ≡ true → any p xs ≡ true
  any_intro x [] m h = elim m [ ]
  any_intro x (y ∷ xs) (inl e) h = rw (← e) (rw h refl)
  any_intro x (y ∷ xs) (inr m) h = ground (arith, any_intro x xs m h)

  pub any_elim : (xs : List A) → any p xs ≡ true → (x : A) × In x xs × (p x ≡ true)
  any_elim [] h = cc
  any_elim (y ∷ xs) h = elim (Bool-cases (p y)) [
    | inl found ↦ (y, inl refl, found)
    | inr not_here ↦ let (x, m, found) = any_elim xs (rw not_here at h) in (x, inr m, found)
  ]

pub contains-keep :
    (a : String) (p : String → Bool) (xs : List String)
    → contains a (keep p xs) ≡ (contains a xs && p a)
contains-keep a p [] = refl
contains-keep a p (x ∷ xs) = ground (arith, eq_iff a x, contains-keep a p xs)

-- A list whose texts all stand in another.
pub contains_of_subset :
    (a : String) (s t : List String)
    → any (λ x. not (contains x t)) s ≡ false
    → contains a s ≡ true
    → contains a t ≡ true
contains_of_subset a [] t d h = cc
contains_of_subset a (x ∷ s) t d h = ground (arith, eq_iff a x, contains_of_subset a s t)

-- A list whose texts all are missing from another.
pub not-contains_of_disjoint :
    (a : String) (s t : List String)
    → any (λ x. contains x t) s ≡ false
    → contains a s ≡ true
    → contains a t ≡ false
not-contains_of_disjoint a [] t d h = cc
not-contains_of_disjoint a (x ∷ s) t d h =
    ground (arith, eq_iff a x, not-contains_of_disjoint a s t)
