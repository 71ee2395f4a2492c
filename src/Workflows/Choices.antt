-- ===== src/Workflows/Choices.antt =====
-- What a selection of members gathers, and that a substitution keeps a workflow's shape.
use agent_collab.Base.{
  String, false, Option, none, some, List, [], ◌∷◌, map, length, suc, ◌≡◌, refl, sym, ap, arith, ok,
}
use agent_collab.Base.Text.{member}
use agent_collab.Base.Dict.{Dict, get, put, get-put}
use agent_collab.Base.Values.{Value, Fields, end, field}
use agent_collab.Workflows.{
  CollaborationConfig, distinct_from, MemberState, usable, disabled, unknown, workflow_member_state,
  shaped_group, shaped_sequence,
}
use agent_collab.Workflows.Selection.{
  Detail, Choice, wrong, chosen, Gathered, fill, agent_name, choose_agent, choose_named, choose,
  take_choice, gather, taken_slot, repeated_members, with_detail,
}

-- All agents of a mapping are enabled.
abbrev pub IsUsable : CollaborationConfig → Dict String → Type 0
IsUsable config mapping =
    (slot agent : String)
    → get mapping slot ≡ some agent
    → workflow_member_state config agent ≡ usable

module _ (repr : String → String) (config : CollaborationConfig) (workflow_id : String) where
  choose_agent-chosen :
      (slot agent : String) (state : MemberState) (a : String)
      → choose_agent repr config workflow_id slot agent state ≡ chosen a
      → (state ≡ usable) × (agent ≡ a)
  choose_agent-chosen slot agent usable a h = (refl, cc)
  choose_agent-chosen slot agent disabled a h = cc
  choose_agent-chosen slot agent unknown a h = cc

  choose_named-chosen :
      (slot : String) (name : Option String) (a : String)
      → choose_named repr config workflow_id slot name ≡ chosen a
      → workflow_member_state config a ≡ usable
  choose_named-chosen slot none a h = cc
  choose_named-chosen slot (some agent) a h =
      let (s, e) = choose_agent-chosen slot agent (workflow_member_state config agent) a h in
      rw (sym e) s

  choose-chosen :
      (slots : List String) (slot : String) (v : Value) (a : String)
      → choose repr config workflow_id slots slot v ≡ chosen a
      → workflow_member_state config a ≡ usable
  unfolding choose
  choose-chosen slots slot v a h = ground (arith, choose_named-chosen slot (agent_name v) a)

  put-IsUsable :
      (mapping : Dict String) (slot a : String)
      → IsUsable config mapping
      → workflow_member_state config a ≡ usable
      → IsUsable config (put mapping slot a)
  put-IsUsable mapping slot a h u m b e = ground (arith, get-put mapping slot m a, h m b)

  take_choice-IsUsable :
      (g : Gathered) (slot : String) (c : Choice)
      → IsUsable config g.mapping
      → ((a : String) → c ≡ chosen a → workflow_member_state config a ≡ usable)
      → IsUsable config (take_choice repr config workflow_id g slot c).mapping
  take_choice-IsUsable g slot (wrong d) h u = h
  take_choice-IsUsable g slot (chosen a) h u = put-IsUsable g.mapping slot a h (u a refl)

  pub gather-IsUsable :
      (slots : List String) (g : Gathered) (fields : Fields)
      → IsUsable config g.mapping
      → IsUsable config (gather repr config workflow_id slots g fields).mapping
  unfolding gather
  gather-IsUsable slots g end h = h
  gather-IsUsable slots g (field slot v rest) h =
      let c = choose repr config workflow_id slots slot v in
      gather-IsUsable slots (take_choice repr config workflow_id g slot c) rest
        (take_choice-IsUsable g slot c h (λ a. choose-chosen slots slot v a))

  abbrev pub Covers : Dict String → List String → Type 0
  Covers seen names = (a : String) → get seen a ≡ none → member a names ≡ false

  put-Covers :
      (seen : Dict String) (names : List String) (agent slot : String)
      → Covers seen names
      → Covers (put seen agent slot) (agent ∷ names)
  put-Covers seen names agent slot h a e = ground (arith, get-put seen agent a slot, h a)

  with_detail-none :
      (slot agent : String) (o : Option String) (fresh known : List Detail)
      → with_detail repr config workflow_id
          (taken_slot repr config workflow_id slot agent o)
          fresh
          known
        ≡ []
      → (o ≡ none) × (fresh ≡ [])
  with_detail-none slot agent none fresh known e = (refl, e)
  with_detail-none slot agent (some other) fresh known e = cc

  -- Members that are not refused as repeated are distinct.
  pub repeated_members-distinct_from :
      (mapping seen : Dict String) (names ms : List String)
      → Covers seen names
      → repeated_members repr config workflow_id mapping seen ms ≡ []
      → length (distinct_from names (map (fill mapping) ms)) ≡ length ms
  unfolding repeated_members distinct_from
  repeated_members-distinct_from mapping seen names [] h e = refl
  repeated_members-distinct_from mapping seen names (m ∷ ms) h e =
      let agent = fill mapping m in
      let (unseen, fresh) =
        with_detail-none m agent (get seen agent)
          (repeated_members repr config workflow_id mapping (put seen agent m) ms)
          (repeated_members repr config workflow_id mapping seen ms) e in
      let rest =
        repeated_members-distinct_from mapping (put seen agent m) (agent ∷ names) ms
          (put-Covers seen names agent m h) fresh in
      rw (h agent unseen) (ap suc rest)

pub length-map : (f : String → String) (ms : List String) → length (map f ms) ≡ length ms
length-map f [] = refl
length-map f (m ∷ ms) = ap suc (length-map f ms)

-- A group of another group's length and shape.
pub shaped_group-map :
    (f : String → String) (s p q : List String)
    → shaped_group s p ≡ ok q
    → length (distinct_from [] (map f p)) ≡ length p
    → shaped_group [] (map f p) ≡ ok (map f p)
unfolding shaped_group
shaped_group-map f s p q h e = ground (arith, length-map f p)

pub shaped_group_same : (s p q : List String) → shaped_group s p ≡ ok q → p ≡ q
unfolding shaped_group
shaped_group_same s p q h = ground arith

pub shaped_sequence-map :
    (f : String → String) (s q : List String)
    → shaped_sequence s ≡ ok q
    → (s ≡ q) × (shaped_sequence (map f s) ≡ ok (map f s))
shaped_sequence-map f s q h = (ground arith, ground (arith, length-map f s))
