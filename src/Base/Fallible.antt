-- ===== src/Base/Fallible.antt =====
-- What a Go function gives that returns a value and an error: one of the two.
use mathlib.Core.Path.{◌≡◌, refl}
use mathlib.Core.Logic.{◌⊎◌, inl, inr}

pub data Result {ℓ μ} (Failure : Type μ) (Value : Type ℓ) : Type (ℓ ⊔ μ) where
  err : Failure → Result Failure Value
  ok : Value → Result Failure Value

infixl 5 ◌>>=◌
-- `if err != nil { return err }` between two calls.
abbrev pub ◌>>=◌ {ℓ μ ν} :
    {Failure : Type μ} {Value : Type ℓ} {Next : Type ν}
    → Result Failure Value
    → (Value → Result Failure Next)
    → Result Failure Next
err failure >>= next = err failure
ok value >>= next = next value

pub ok-injective {ℓ μ} :
    {Failure : Type μ} {Value : Type ℓ} {x y : Value}
    → ◌≡◌ {A = Result Failure Value} (ok x) (ok y)
    → x ≡ y
ok-injective e = cc

pub Result-cases {ℓ μ} :
    {Failure : Type μ} {Value : Type ℓ} (r : Result Failure Value)
    → ((value : Value) × (r ≡ ok value)) ⊎ ((failure : Failure) × (r ≡ err failure))
Result-cases (err failure) = inr (failure, refl)
Result-cases (ok value) = inl (value, refl)
