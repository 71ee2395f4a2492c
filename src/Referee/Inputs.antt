-- ===== src/Referee/Inputs.antt =====
-- Follow-up messages: each does the turn that it asks for, and is reported done.
use Prim.Native.Char.{Char, code}
use Prim.Native.String.{◌++◌ as ◌<>◌}
use agent_collab.Base.{
  ℕ, suc, String, ◌≡◌, refl, Bool, true, false, ◌&&◌, Option, none, some, List, [], ◌∷◌, ◌++◌, All,
  arith, leb,
}
use agent_collab.Base.Values.{float, obj, end, field, Float}
use agent_collab.Referee.Progress.{Progress, going, Setup, log_posts}
use agent_collab.Events.{Event}
use agent_collab.Referee.Logging.{IsPosted}
use agent_collab.Referee.Prompts.{directed_role, directed_prompt_for}
use agent_collab.Referee.Interaction.{
  Directed, directed_turn, process_input_item, handle_input, process_pending_inputs, await_one,
  await_interactive_input, end_wait, get_input, accept_input, take_one, report_done,
}
use agent_collab.Referee.Records.{IsParty}
use agent_collab.Referee.Plans.{asked, target_of, plan_of_inputs, plan_of_waits, IsDirectable}
use agent_collab.Referee.Invariant.{
  in_turn-Follows, nothing-Follows, IsSteady, IsHalted, Follows, finally-Follows, cancelled-Follows,
  going-Follows,
}
use agent_collab.Referee.Closing.{IsFair}
use agent_collab.Referee.Turning.{required_turn-Follows}
use agent_collab.Referee.Asides.{
  log_event-turns, closing_unmarked, log_status-IsSteady, log_posts-Follows,
}

module _ (upper : String → String) (is_digit : Char → Bool)
    (ascii : (c : Char) → (leb 48 (code c) && leb (code c) 57) ≡ true → is_digit c ≡ true)
    (setup : Setup) (task : String) (members : List String) where
  directed_turn-Follows :
      (k : ℕ) (plan : List String) (p : Progress) (d : Directed) (target : Option String)
      → Follows is_digit k plan (going p)
      → ((agent : String) → target ≡ some agent → IsParty setup agent)
      → IsFair d.1
      → Follows is_digit k
          (plan ++ asked target)
          (directed_turn upper is_digit setup task members p d target)
  unfolding directed_turn
  directed_turn-Follows k plan p (item, turn) none h known fair =
      nothing-Follows is_digit k plan (going p) h
  directed_turn-Follows k plan p (item, turn) (some agent) h known fair =
      required_turn-Follows is_digit ascii setup upper k plan p ("directed turn: " <> agent) agent
        directed_role (directed_prompt_for upper task item.event.text) (some item.event.text)
        (λ n. n) turn h (known agent refl) (omega (arith, h.0.next)) fair

  take_one-Follows :
      (k : ℕ) (plan : List String) (p : Progress)
      → Follows is_digit k plan (going p)
      → Follows is_digit (suc k) plan (going (take_one p))
  take_one-Follows k plan p (h, done, all) = (
    record {
      numbered = h.numbered;
      next = h.next;
      made = h.made;
      counted = h.counted;
      idle = h.idle;
      queue = omega (arith, h.queue);
      quiet = h.quiet;
    },
    done,
    all,
  )

  report_done-IsHalted :
      (k : ℕ) (p : Progress) → IsHalted is_digit (suc k) p → IsHalted is_digit k (report_done p)
  report_done-IsHalted k p h = record {
    numbered = h.numbered;
    made = h.made;
    counted = h.counted;
    idle = h.idle;
    queue = omega (arith, h.queue);
    steps = h.steps;
  }

  report_done-IsSteady :
      (k : ℕ) (p : Progress) → IsSteady is_digit (suc k) p → IsSteady is_digit k (report_done p)
  report_done-IsSteady k p h = record {
    numbered = h.numbered;
    next = h.next;
    made = h.made;
    counted = h.counted;
    idle = h.idle;
    queue = omega (arith, h.queue);
    quiet = h.quiet;
  }

  handle_input-Follows :
      (k : ℕ) (plan : List String) (p : Progress) (d : Directed)
      → Follows is_digit k plan (going p)
      → IsDirectable setup members d
      → Follows is_digit k
          (plan ++ asked (target_of members d))
          (handle_input upper is_digit setup task members p d)
  unfolding handle_input process_input_item
  handle_input-Follows k plan p d h (known, fair) =
      finally-Follows is_digit (suc k) k (plan ++ asked (target_of members d)) _ report_done
        (λ q. refl) (report_done-IsSteady k) (report_done-IsHalted k)
        (directed_turn-Follows (suc k) plan (get_input upper is_digit setup task members p d) d
          (target_of members d)
          (take_one-Follows k plan (log_posts p d.1.before)
            (log_posts-Follows is_digit k plan p d.1.before fair.posts h))
          known fair)

  pub process_pending_inputs-Follows :
      (k : ℕ) (plan : List String) (p : Progress) (ds : List Directed)
      → Follows is_digit k plan (going p)
      → All (IsDirectable setup members) ds
      → Follows is_digit k
          (plan ++ plan_of_inputs members ds)
          (process_pending_inputs upper is_digit setup task members p ds)
  unfolding process_pending_inputs
  process_pending_inputs-Follows k plan p [] h ok = nothing-Follows is_digit k plan (going p) h
  process_pending_inputs-Follows k plan p (d ∷ ds) h (ok, oks) =
      in_turn-Follows is_digit k plan (asked (target_of members d)) (plan_of_inputs members ds) _ _
        (handle_input-Follows k plan p d h ok)
        (λ q g. process_pending_inputs-Follows k (plan ++ asked (target_of members d)) q ds g oks)

  end_wait-Follows :
      (timed_out : Bool) (k : ℕ) (plan : List String) (p : Progress) (now closing : String)
      (timeout : Float) (late : List Event)
      → Follows is_digit k plan (going p)
      → All IsPosted late
      → Follows is_digit k
          (plan ++ [])
          (end_wait upper is_digit setup task members timed_out p now closing timeout late)
  unfolding end_wait
  end_wait-Follows true k plan p now closing timeout late h posts =
      let q = log_posts p late in
      let h' = log_posts-Follows is_digit k plan p late posts h in
      going-Follows is_digit k (plan ++ []) q _
        (log_event-turns (accept_input false q) now "referee" "status" closing
          (obj (field "interactive_idle_timeout" (float timeout) end)) none)
        (log_status-IsSteady is_digit k q false now "referee" closing _ none
          (closing_unmarked timeout) h'.0)
        (nothing-Follows is_digit k plan (going q) h')
  end_wait-Follows false k plan p now closing timeout late h posts =
      cancelled-Follows is_digit k plan [] (log_posts p late)
        (log_posts-Follows is_digit k plan p late posts h)

  pub await_interactive_input-Follows :
      (timed_out : Bool) (k : ℕ) (plan : List String) (p : Progress) (now closing : String)
      (timeout : Float) (late : List Event) (ws : List (Directed × List Directed))
      → Follows is_digit k plan (going p)
      → All IsPosted late
      → All (λ w. IsDirectable setup members w.0 × All (IsDirectable setup members) w.1) ws
      → Follows is_digit k (plan ++ plan_of_waits members ws) (
          await_interactive_input upper is_digit setup task members timed_out p now closing timeout
            late ws)
  unfolding await_interactive_input await_one
  await_interactive_input-Follows timed_out k plan p now closing timeout late [] h posts ok =
      end_wait-Follows timed_out k plan p now closing timeout late h posts
  await_interactive_input-Follows timed_out k plan p now closing timeout late ((d, ds) ∷ ws) h posts
        ((one, more), oks) =
      in_turn-Follows is_digit k plan (plan_of_inputs members (d ∷ ds)) (plan_of_waits members ws) _
        _
        (in_turn-Follows is_digit k plan (asked (target_of members d)) (plan_of_inputs members ds) _
          _ (handle_input-Follows k plan p d h one)
          (λ q g.
            process_pending_inputs-Follows k (plan ++ asked (target_of members d)) q ds g more))
        (λ q g.
          await_interactive_input-Follows timed_out k (plan ++ plan_of_inputs members (d ∷ ds)) q
            now closing timeout late ws g posts oks)
