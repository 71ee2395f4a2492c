-- ===== src/Index/Examples.antt =====
-- The theorem on the index file, at a concrete one.
use agent_collab.Base.{String, ◌≡◌, refl, Option, none, some, List, [], ◌∷◌}
use agent_collab.Base.Dict.{Dict, get}
use agent_collab.Base.Values.{Value, str, Fields, end, field}
use agent_collab.Index.{File, load}
use agent_collab.Index.Entries.{
  IndexRequest, store, forget, serve_all, told_all, serve_all-told_all,
}

abbrev state_of : String → String → Fields
state_of id status = field "session_id" (str id) (field "status" (str status) end)

abbrev requests : List IndexRequest
requests =
    store (state_of "s1" "running")
    ∷ store (state_of "s2" "running")
    ∷ store (state_of "s1" "done")
    ∷ forget ("s2" ∷ "s9" ∷ [])
    ∷ []

abbrev as_is : Dict Fields → Dict Fields
as_is d = d

abbrev shown_value : Value → String
shown_value v = "value"

abbrev missing : File
missing = none

kept_last :
    get (load (serve_all as_is shown_value missing requests)) "s1" ≡ some (state_of "s1" "done")
unfolding get load serve_all agent_collab.Base.Dict.put
kept_last = refl

serve_all-told_all_example :
    get (load (serve_all as_is shown_value missing requests)) "s2"
    ≡ told_all as_is shown_value (λ k. get (load missing) k) requests "s2"
serve_all-told_all_example =
    serve_all-told_all as_is shown_value missing requests "s2" (λ d k. refl)
