-- ===== src/Prelude/Result.antt =====
-- What a Python call gives that may raise. A `ToolError` (core/errors.py) is known by its code; a
-- `ValueError` by its message, and SQLite's IntegrityError is one error.
use mathlib.Core.Path.{◌≡◌, refl}
use mathlib.Core.Bool.{Bool, true, false}
use mathlib.Core.Option.{Option, none, some}
use mathlib.Core.Logic.{◌⊎◌, inl, inr}
use computerpilot_mcp.Prelude.{String}

pub data Error : Type 0 where
  tool_error : String → Error
  value_error : String → Error
  integrity_error : Error

pub data Result {ℓ} (A : Type ℓ) : Type ℓ where
  ok : A → Result A
  err : Error → Result A

-- raise ToolError(code, ...)
abbrev pub raise {ℓ} : {A : Type ℓ} → String → Result A
raise code = err (tool_error code)

infixl 5 ◌>>=◌ ◌>>◌
abbrev pub ◌>>=◌ {κ ℓ} : {B : Type κ} {A : Type ℓ} → Result A → (A → Result B) → Result B
err raised >>= rest = err raised
ok value >>= rest = rest value

abbrev pub ◌>>◌ {κ} : {B : Type κ} → Result (Unit {0}) → Result B → Result B
call >> after = call >>= λ nothing. after

-- if not b: raise ToolError(code, ...)
abbrev pub require : Bool → String → Result (Unit {0})
require true code = ok tt
require false code = raise code

-- a value that may be None: if it is, raise ToolError(code, ...)
abbrev pub or_raise {ℓ} : {A : Type ℓ} → Option A → String → Result A
or_raise none code = raise code
or_raise (some a) code = ok a

-- Inversion of a successful bind and of a passed test.
pub >>=-eq-ok {κ ℓ} :
    {B : Type κ} {A : Type ℓ} (call : Result A) (rest : A → Result B) {answer : B}
    → (call >>= rest) ≡ ok answer
    → (value : A) × (call ≡ ok value) × (rest value ≡ ok answer)
>>=-eq-ok (err raised) rest returned = cc
>>=-eq-ok (ok value) rest returned = (value, refl, returned)

pub require-eq-ok {ℓ} :
    {B : Type ℓ} (b : Bool) (code : String) (k : Result B) {x : B}
    → (require b code >> k) ≡ ok x
    → (b ≡ true) × (k ≡ ok x)
require-eq-ok true code k h = (refl, h)
require-eq-ok false code k h = cc

pub ok-injective {ℓ} : {A : Type ℓ} {a b : A} → ok a ≡ ok b → a ≡ b
ok-injective h = cc

pub err-ne-ok {ℓ} : {A : Type ℓ} {e : Error} {a : A} → err e ≡ ok a → ⊥
err-ne-ok h = cc

pub or_raise-eq-ok {ℓ} :
    {A : Type ℓ} (o : Option A) (code : String) {a : A} → or_raise o code ≡ ok a → o ≡ some a
or_raise-eq-ok none code h = cc
or_raise-eq-ok (some b) code h = cc

-- To split on the result of a call.
pub Result-cases {ℓ} :
    {A : Type ℓ} (m : Result A) → ((e : Error) × (m ≡ err e)) ⊎ ((a : A) × (m ≡ ok a))
Result-cases (err e) = inl (e, refl)
Result-cases (ok a) = inr (a, refl)
