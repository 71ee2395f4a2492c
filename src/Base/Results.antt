-- ===== src/Base/Results.antt =====
-- Python exceptions as values. Their texts are not modelled; their classes are.
use mathlib.Core.Path.{◌≡◌, refl}
use mathlib.Core.Bool.{Bool, true, false}

pub data Error : Type 0 where
  value_error type_error attribute_error overflow_error runtime_error os_error : Error
  session_request_error session_not_found sandbox_failure worker_protocol_error : Error
  cancelled_error key_error config_error : Error

-- A value, or the exception that was raised in its place.
pub data Result {u} (T : Type u) : Type u where
  err : (raised : Error) → Result T
  ok : (value : T) → Result T

infixl 5 ◌>>=◌ ◌>>◌
-- What follows a statement runs only if it raised nothing.
abbrev pub ◌>>=◌ {u v} : {T : Type u} {S : Type v} (first : Result T) → (T → Result S) → Result S
err raised >>= after = err raised
ok value >>= after = after value

-- `if not test: raise raised`
abbrev pub require : Bool → Error → Result (Unit {0})
require false raised = err raised
require true raised = ok tt

abbrev pub ◌>>◌ {u} : {S : Type u} → Result (Unit {0}) → Result S → Result S
first >> after = first >>= λ done. after

-- A chain that ends well went well at its first statement.
pub >>=-eq-ok {u v} :
    {T : Type u} {S : Type v} (first : Result T) (after : T → Result S) {s : S}
    → (first >>= after) ≡ ok s
    → (t : T) × (first ≡ ok t) × (after t ≡ ok s)
>>=-eq-ok (err raised) after h = cc
>>=-eq-ok (ok t) after h = (t, refl, h)

pub ok_same {u} : {T : Type u} (a b : T) → ok a ≡ ok b → a ≡ b
ok_same a b h = cc
