-- ===== src/Base/Results.antt =====
-- What a `Result` of the source holds, and the `?` that passes an error on.
use mathlib.Core.Bool.{Bool, true, false}
use mathlib.Core.Path.{◌≡◌, refl}

pub data Result {ε α} (Failure : Type ε) (Value : Type α) : Type (ε ⊔ α) where
  err : Failure → Result Failure Value
  ok : Value → Result Failure Value

-- `ensure!`.
abbrev pub ensure {ε} : {Failure : Type ε} → Bool → Failure → Result Failure (Unit {0})
ensure false failure = err failure
ensure true failure = ok tt

infixl 5 ◌>>=◌ ◌>>◌
abbrev pub ◌>>=◌ {ε α β} :
    {Failure : Type ε} {Value : Type α} {Next : Type β}
    → Result Failure Value
    → (Value → Result Failure Next)
    → Result Failure Next
err failure >>= next = err failure
ok value >>= next = next value

abbrev pub ◌>>◌ {ε α β} :
    {Failure : Type ε} {Value : Type α} {Next : Type β}
    → Result Failure Value
    → Result Failure Next
    → Result Failure Next
first >> second = first >>= λ _. second

-- The parts of a chain that succeeds.
pub >>=-eq-ok {ε α β} :
    {Failure : Type ε} {Value : Type α} {Next : Type β} (first : Result Failure Value)
    (next : Value → Result Failure Next) {last : Next}
    → (first >>= next) ≡ ok last
    → (value : Value) × (first ≡ ok value) × (next value ≡ ok last)
>>=-eq-ok (err failure) next h = cc
>>=-eq-ok (ok value) next h = (value, refl, h)

pub ensure-eq-ok {ε α} :
    {Failure : Type ε} {Value : Type α} (test : Bool) (failure : Failure)
    (second : Result Failure Value) {last : Value}
    → (ensure test failure >> second) ≡ ok last
    → (test ≡ true) × (second ≡ ok last)
ensure-eq-ok false failure second h = cc
ensure-eq-ok true failure second h = (refl, h)

pub ok-inj {ε α} :
    {Failure : Type ε} {Value : Type α} {a b : Value}
    → Path (Result Failure Value) (ok a) (ok b)
    → a ≡ b
ok-inj h = cc
