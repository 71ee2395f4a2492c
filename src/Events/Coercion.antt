-- ===== src/Events/Coercion.antt =====
-- Coercion: what is created is always well formed, and the set of warned values stays bounded.
use agent_collab.Base.{◌≤◌, String, ◌≡◌, refl, true, false, Option, arith, length, eq_iff}
use agent_collab.Base.Values.{Value}
use agent_collab.Events.{
  is_source, is_type, Warned, warned_cap, warn_coercion, coerce_source, coerce_type, create,
}

warn_coercion-le_cap :
    (w : Warned) (name value : String)
    → length w ≤ warned_cap
    → length (warn_coercion w name value).0 ≤ warned_cap
unfolding warn_coercion
warn_coercion-le_cap w name value h = ground arith

error_is_source : is_source "error" ≡ true
unfolding is_source
error_is_source = refl

status_is_type : is_type "status" ≡ true
unfolding is_type
status_is_type = refl

coerce_source_bounds :
    (w : Warned) (source : String)
    → length w ≤ warned_cap
    → (is_source (coerce_source w source).0 ≡ true)
      × (length (coerce_source w source).1 ≤ warned_cap)
unfolding coerce_source
coerce_source_bounds w source h =
    (ground (arith, error_is_source), ground (arith, warn_coercion-le_cap w "source" source))

coerce_type_bounds :
    (w : Warned) (type : String)
    → length w ≤ warned_cap
    → (is_type (coerce_type w type).0 ≡ true) × (length (coerce_type w type).1 ≤ warned_cap)
unfolding coerce_type
coerce_type_bounds w type h =
    (ground (arith, status_is_type), ground (arith, warn_coercion-le_cap w "type" type))

-- Whatever source and type a backend gives, the event that is created has a valid source and a valid
-- type, keeps the text, payload and agent that it was given, and leaves at most 64 warned values.
pub create_valid :
    (w : Warned) (now source type text : String) (raw : Value) (agent_id : Option String)
    → length w ≤ warned_cap
    → (is_source (create w now source type text raw agent_id).0.source ≡ true)
      × (is_type (create w now source type text raw agent_id).0.type ≡ true)
      × ((create w now source type text raw agent_id).0.text ≡ text)
      × ((create w now source type text raw agent_id).0.raw ≡ raw)
      × ((create w now source type text raw agent_id).0.agent_id ≡ agent_id)
      × (length (create w now source type text raw agent_id).1 ≤ warned_cap)
unfolding create
create_valid w now source type text raw agent_id h =
    let (s, hs) = coerce_source_bounds w source h in
    let (t, ht) = coerce_type_bounds (coerce_source w source).1 type hs in
    (s, t, refl, refl, refl, ht)

-- Coercing the same value again right away logs nothing and changes nothing.
pub warn_coercion_again :
    (w : Warned) (name value : String)
    → warn_coercion (warn_coercion w name value).0 name value
      ≡ ((warn_coercion w name value).0, false)
unfolding warn_coercion
warn_coercion_again w name value = ground (arith, eq_iff name name, eq_iff value value)
