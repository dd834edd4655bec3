-- ===== src/Common/Results.antt =====
-- The pair `(value, error)` that a Go function returns, as a sum, with its `if err != nil` chain.
use mathlib.Core.Path.{◌≡◌, refl}
use mathlib.Core.Logic.{◌⊎◌, inl, inr}
use mathlib.Core.Bool.{Bool, true, false}

pub data Result (E A : Type 0) : Type 0 where
  ok : A → Result E A
  err : E → Result E A

-- `if err != nil { return err }`: the error of a step is the error of the whole.
infixl 5 ◌>>=◌
abbrev pub ◌>>=◌ : {E A B : Type 0} (step : Result E A) (next : A → Result E B) → Result E B
err failure >>= next = err failure
ok value >>= next = next value

-- `if bad { return e }`
abbrev pub reject_if : {E : Type 0} → Bool → E → Result E (Unit {0})
reject_if true failure = err failure
reject_if false failure = ok tt

infixl 5 ◌>>◌
abbrev pub ◌>>◌ : {E B : Type 0} (test : Result E (Unit {0})) (rest : Result E B) → Result E B
test >> rest = test >>= λ passed. rest

abbrev pub is_ok : {E A : Type 0} → Result E A → Bool
is_ok (err failure) = false
is_ok (ok value) = true

-- A chain that succeeds has passed its first test.
pub reject_if-eq_ok :
    {E B : Type 0} (bad : Bool) (failure : E) (rest : Result E B) {value : B}
    → (reject_if bad failure >> rest) ≡ ok value
    → (bad ≡ false) × (rest ≡ ok value)
reject_if-eq_ok false failure rest h = (refl, h)
reject_if-eq_ok true failure rest h = cc

-- A chain that succeeds has succeeded in its first step.
pub >>=-eq-ok :
    {E A B : Type 0} (step : Result E A) (next : A → Result E B) {value : B}
    → (step >>= next) ≡ ok value
    → (a : A) × (step ≡ ok a) × (next a ≡ ok value)
>>=-eq-ok (err failure) next h = cc
>>=-eq-ok (ok value) next h = (value, refl, h)

pub Result-cases :
    {E A : Type 0} (r : Result E A) → ((a : A) × (r ≡ ok a)) ⊎ ((failure : E) × (r ≡ err failure))
Result-cases (ok a) = inl (a, refl)
Result-cases (err failure) = inr (failure, refl)
