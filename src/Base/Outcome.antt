-- ===== src/Base/Outcome.antt =====
-- How a call of the C++ code ends (except.h): with a value, with one of the two exception
-- classes, by a failed `assert`, with a read or write outside of a buffer (`overrun`), or with the use of
-- a null pointer (`null_used`); C++ leaves these two undefined.
use mathlib.Core.Path.{◌≡◌, refl}
use mathlib.Core.Bool.{Bool, true, false}

-- `invalid` is class error_invalid, `failed` any other class error.
pub data Error : Type 0 where
  invalid failed aborted overrun null_used : Error

pub data Result {ℓ} (X : Type ℓ) : Type ℓ where
  err : (thrown : Error) → Result X
  ok : (returned : X) → Result X

-- `if (bad) throw e;`
abbrev pub throw_if : Bool → Error → Result (Unit {0})
throw_if false _ = ok tt
throw_if true e = err e

-- What follows a call: it is left out where the call has thrown.
infixl 5 ◌>>=◌
abbrev pub ◌>>=◌ {ℓ κ} : {X : Type ℓ} {Y : Type κ} → Result X → (X → Result Y) → Result Y
err thrown >>= then_do = err thrown
ok x >>= then_do = then_do x

infixl 5 ◌>>◌
abbrev pub ◌>>◌ {ℓ} : {Y : Type ℓ} → Result (Unit {0}) → Result Y → Result Y
call >> after = call >>= λ done. after

pub >>=-eq-ok {ℓ κ} :
    {X : Type ℓ} {Y : Type κ} (call : Result X) (then_do : X → Result Y) {y : Y}
    → (call >>= then_do) ≡ ok y
    → (x : X) × (call ≡ ok x) × (then_do x ≡ ok y)
>>=-eq-ok (err thrown) then_do returns = cc
>>=-eq-ok (ok x) then_do returns = (x, refl, returns)
