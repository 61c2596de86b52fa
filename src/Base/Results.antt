-- ===== src/Base/Results.antt =====
-- The outcome of a function that may throw. A message is given without the values that the source
-- interpolates into it.
use Prim.Native.String.{String}
use mathlib.Core.Path.{◌≡◌, refl, ap}
use mathlib.Core.Bool.{Bool, true, false}
use mathlib.Core.Option.{Option, none, some}

pub data Result {ℓ} (T : Type ℓ) : Type ℓ where
  err : String → Result T
  ok : T → Result T

-- A part that throws ends the function.
infixl 5 ◌>>=◌ ◌>>◌
abbrev pub ◌>>=◌ {ℓ κ} : {T : Type ℓ} {U : Type κ} → Result T → (T → Result U) → Result U
err message >>= next = err message
ok value >>= next = next value

abbrev pub ◌>>◌ {κ} : {U : Type κ} → Result (Unit {0}) → Result U → Result U
checked >> next = checked >>= λ u. next

-- `if (!test) throw new Error(message)`
abbrev pub guard : Bool → String → Result (Unit {0})
guard false message = err message
guard true message = ok tt

-- `if (!value) throw new Error(message)`, with the value
abbrev pub or_throw {ℓ} : {T : Type ℓ} → Option T → String → Result T
or_throw (some value) message = ok value
or_throw none message = err message

pub ok-injective {ℓ} : {T : Type ℓ} {x y : T} → ok x ≡ ok y → x ≡ y
ok-injective e = cc

-- A sequence that returned: each of its parts returned.
pub >>=-eq-ok {ℓ κ} :
    {T : Type ℓ} {U : Type κ} (first : Result T) (next : T → Result U) {u : U}
    → (first >>= next) ≡ ok u
    → (t : T) × (first ≡ ok t) × (next t ≡ ok u)
>>=-eq-ok (err message) next e = cc
>>=-eq-ok (ok t) next e = (t, refl, e)

pub guard-ok {κ} :
    {U : Type κ} (test : Bool) (message : String) (next : Result U) {u : U}
    → (guard test message >> next) ≡ ok u
    → (test ≡ true) × (next ≡ ok u)
guard-ok false message next e = cc
guard-ok true message next e = (refl, e)

pub or_throw-ok {ℓ} :
    {A : Type ℓ} (o : Option A) (message : String) {a : A} → or_throw o message ≡ ok a → o ≡ some a
or_throw-ok none message e = cc
or_throw-ok (some b) message e = ap some (ok-injective e)
