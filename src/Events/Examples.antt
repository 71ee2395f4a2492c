-- ===== src/Events/Examples.antt =====
-- The theorems on event coercion, at a malformed event.
use agent_collab.Base.{◌≡◌, ◌≤◌, some, true, [], arith, length}
use agent_collab.Base.Values.{null}
use agent_collab.Events.{is_source, is_type, warned_cap, create}
use agent_collab.Events.Coercion.{create_valid}

create_valid_example :
    (is_source (create [] "12:00" "robot" "speech" "hello" null (some "a")).0.source ≡ true)
    × (is_type (create [] "12:00" "robot" "speech" "hello" null (some "a")).0.type ≡ true)
    × ((create [] "12:00" "robot" "speech" "hello" null (some "a")).0.text ≡ "hello")
    × ((create [] "12:00" "robot" "speech" "hello" null (some "a")).0.raw ≡ null)
    × ((create [] "12:00" "robot" "speech" "hello" null (some "a")).0.agent_id ≡ some "a")
    × (length (create [] "12:00" "robot" "speech" "hello" null (some "a")).1 ≤ warned_cap)
create_valid_example =
    create_valid [] "12:00" "robot" "speech" "hello" null (some "a") (omega arith)
