-- ===== src/Sessions/Addressees.antt =====
-- To whom a message goes: `_resolve_message_target` of agent_collab/daemon.py.
use agent_collab.Base.{
  String, ◌≡◌, refl, subst, inl, inr, Bool, true, Option, none, some, List, [], ◌∷◌, select, arith,
  ◌==◌, eq_refl, ◌&&◌, ok, Bool-cases,
}
use agent_collab.Base.Text.{is_truthy, strip, member}
use agent_collab.Base.Dict.{Dict}
use agent_collab.Base.Values.{Value, null, str}
use agent_collab.Sessions.Messages.{ids, only_match, match_id, resolve_message_target}

-- The agent that a message goes to, if any, is one of the session's agents.
abbrev pub IsAgentOf : Dict String → Option String → Type 0
IsAgentOf agents none = Unit
IsAgentOf agents (some a) = member a (ids agents) ≡ true

member-select :
    (p : String × String → Bool) (agents : Dict String) (a : String)
    → member a (ids (select p agents)) ≡ true
    → member a (ids agents) ≡ true
member-select p [] a h = h
member-select p (e ∷ agents) a h = elim (Bool-cases (p e)) [
  | inl y ↦ ground (arith, member-select p agents a)
  | inr n ↦ ground (arith, member-select p agents a)
]

first_member : (a : String) (l m : List String) → l ≡ a ∷ m → member a l ≡ true
first_member a l m h = rw h (ground (arith, eq_refl a))

module _ (lower : String → String) where
  match_id-IsAgentOf :
      (selector : String) (p q : String × String → Bool) (agents : Dict String) (x y : List String)
      (named : Option String × Option String)
      → ids (select p agents) ≡ x
      → ids (select q agents) ≡ y
      → match_id selector x y ≡ ok named
      → IsAgentOf agents named.1
  unfolding match_id only_match
  match_id-IsAgentOf selector p q agents (a ∷ x) y named hx hy h =
      let same : (some selector, some a) ≡ named = cc in
      subst (λ (n : Option String × Option String). IsAgentOf agents n.1) same
        (member-select p agents a (first_member a (ids (select p agents)) x hx))
  match_id-IsAgentOf selector p q agents [] (a ∷ []) named hx hy h =
      let same : (some selector, some a) ≡ named = cc in
      subst (λ (n : Option String × Option String). IsAgentOf agents n.1) same
        (member-select q agents a (first_member a (ids (select q agents)) [] hy))
  match_id-IsAgentOf selector p q agents [] [] named hx hy h = cc
  match_id-IsAgentOf selector p q agents [] (a ∷ b ∷ y) named hx hy h = cc

  -- Every target that is accepted, and every agent that an untargeted message goes to, is an agent of
  -- the session.
  pub resolve_message_target-IsAgentOf :
      (agents : Dict String) (target : Value) (named : Option String × Option String)
      → resolve_message_target lower agents target ≡ ok named
      → IsAgentOf agents named.1
  unfolding resolve_message_target
  resolve_message_target-IsAgentOf agents null named h = untargeted agents named h
    where
      untargeted :
          (l : Dict String) (named : Option String × Option String)
          → ok (none, elim (ids l) [ a ∷ [] ↦ some a | _ ↦ none ]) ≡ ok named
          → IsAgentOf l named.1
      untargeted [] named k =
          let same : (none, none) ≡ named = cc in
          subst (λ (n : Option String × Option String). IsAgentOf [] n.1) same tt
      untargeted (e ∷ []) named k =
          let same : (none, some e.0) ≡ named = cc in
          subst (λ (n : Option String × Option String). IsAgentOf (e ∷ []) n.1) same
            (ground (arith, eq_refl e.0))
      untargeted (e ∷ f ∷ l) named k =
          let same : (none, none) ≡ named = cc in
          subst (λ (n : Option String × Option String). IsAgentOf (e ∷ f ∷ l) n.1) same tt
  resolve_message_target-IsAgentOf agents (str target) named h =
      let needle = lower (strip target) in
      elim (Bool-cases (is_truthy (strip target))) [
        | inl e ↦
            match_id-IsAgentOf (strip target) (λ e. lower e.0 == needle)
              (λ e. (lower e.1 == needle) && is_truthy e.1) agents _ _ named refl refl (rw e at h)
        | inr e ↦ absurd (ground arith)
      ]
  resolve_message_target-IsAgentOf agents _ named h = cc
