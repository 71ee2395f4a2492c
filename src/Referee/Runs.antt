-- ===== src/Referee/Runs.antt =====
-- A whole run of a referee: it does what its stages and inputs ask for, turn by turn, or a turn stops
-- it; and it never breaks otherwise.
use Prim.Native.Char.{Char, code}
use Prim.Native.String.{◌++◌ as ◌<>◌}
use mathlib.Core.List.{append_assoc, append-nil}
use agent_collab.Base.{
  ℕ, suc, ◌≤◌, String, ◌≡◌, refl, sym, subst, ap, Bool, true, false, ◌&&◌, none, List, [], ◌∷◌,
  ◌++◌, All, length, arith, leb,
}
use agent_collab.Base.Text.{decimal}
use agent_collab.Base.Values.{null, str, obj, end, field, Float}
use agent_collab.Referee.Progress.{
  Progress, fresh, going, halted, cancelled, Setup, log_event, log_posts, emit_posts,
}
use agent_collab.Referee.Prompts.{stage_role, prompt_for}
use agent_collab.Referee.Interaction.{
  StageRun, Meeting, run_stage, run_each_stage, emit_final_summary, converse, conclude,
  after_stages, with_appender, run_stages, accept_input, drop_appender,
}
use agent_collab.Referee.Logging.{null_unmarked, no_turns-IsQuiet, emit_posts-IsQuiet}
use agent_collab.Referee.Plans.{
  plan_of_inputs, plan_of_waits, plan_of_stages, plan_of, IsStageable, IsMeeting,
}
use agent_collab.Referee.Invariant.{
  in_turn-Follows, nothing-Follows, after-Follows, IsSteady, Follows, finally-Follows,
  cancelled-Follows, going-Follows,
}
use agent_collab.Referee.Turning.{required_turn-Follows}
use agent_collab.Referee.Asides.{
  log_event-turns, log_posts-Follows, log_posts-IsHalted, task_unmarked, aside-IsSteady,
  log_status-IsSteady, log_plain-IsSteady,
}
use agent_collab.Referee.Inputs.{process_pending_inputs-Follows, await_interactive_input-Follows}

module _ (upper : String → String) (is_digit : Char → Bool)
    (ascii : (c : Char) → (leb 48 (code c) && leb (code c) 57) ≡ true → is_digit c ≡ true)
    (setup : Setup) (task : String) (members : List String) where
  run_stage-Follows :
      (k : ℕ) (plan : List String) (p : Progress) (turn : ℕ) (s : StageRun)
      → Follows is_digit k plan (going p)
      → 1 ≤ turn
      → IsStageable setup members s
      → Follows is_digit k
          (plan ++ s.agent ∷ [])
          (run_stage upper is_digit setup task members p turn s)
  unfolding run_stage
  run_stage-Follows k plan p turn s h positive (pending, party, fair) =
      required_turn-Follows is_digit ascii setup upper k plan (log_posts p s.turn.before)
        ("turn " <> (decimal turn <> (": " <> s.agent))) s.agent (stage_role turn)
        (prompt_for upper task turn) none (λ n. turn) s.turn
        (log_posts-Follows is_digit k plan p s.turn.before fair.posts h) party positive fair

  run_each_stage-Follows :
      (interactive : Bool) (k : ℕ) (plan : List String) (p : Progress) (turn : ℕ)
      (ss : List StageRun)
      → Follows is_digit k plan (going p)
      → 1 ≤ turn
      → All (IsStageable setup members) ss
      → Follows is_digit k
          (plan ++ plan_of_stages members interactive ss)
          (run_each_stage upper is_digit setup task members interactive p turn ss)
  unfolding run_each_stage
  run_each_stage-Follows interactive k plan p turn [] h positive ok =
      nothing-Follows is_digit k plan (going p) h
  run_each_stage-Follows true k plan p turn (s ∷ ss) h positive (ok, oks) =
      subst
        (λ l.
          Follows is_digit k l
            (run_each_stage upper is_digit setup task members true p turn (s ∷ ss)))
        (ap (λ l. plan ++ l)
          (sym (
            append_assoc (plan_of_inputs members s.pending) (s.agent ∷ [])
              (plan_of_stages members true ss))))
        (in_turn-Follows is_digit k plan (plan_of_inputs members s.pending)
          (s.agent ∷ plan_of_stages members true ss) _ _
          (process_pending_inputs-Follows upper is_digit ascii setup task members k plan p s.pending
            h ok.0)
          (λ q g.
            in_turn-Follows is_digit k (plan ++ plan_of_inputs members s.pending) (s.agent ∷ [])
              (plan_of_stages members true ss) _ _
              (run_stage-Follows k (plan ++ plan_of_inputs members s.pending) q turn s g positive
                ok)
              (λ r f.
                run_each_stage-Follows true k
                  ((plan ++ plan_of_inputs members s.pending) ++ s.agent ∷ []) r (suc turn) ss f
                  (omega arith) oks)))
  run_each_stage-Follows false k plan p turn (s ∷ ss) h positive (ok, oks) =
      in_turn-Follows is_digit k plan (s.agent ∷ []) (plan_of_stages members false ss) _ _
        (run_stage-Follows k plan p turn s h positive ok)
        (λ q g.
          run_each_stage-Follows false k (plan ++ s.agent ∷ []) q (suc turn) ss g (omega arith) oks)

  summary-Follows :
      (k : ℕ) (plan : List String) (p : Progress) (announced : List String) (now logs : String)
      (n : ℕ)
      → Follows is_digit k plan (going p)
      → Follows is_digit k plan (
          going (record (emit_final_summary upper is_digit setup task members now logs n p) {
            announced = announced;
          }))
  unfolding emit_final_summary
  summary-Follows k plan p announced now logs n h =
      let text =
        "final summary: completed " <> (decimal n <> (" supervised turn(s). Logs: " <> logs)) in
      going-Follows is_digit k plan p _ (log_event-turns p now "referee" "message" text null none)
        (log_plain-IsSteady is_digit k p announced now "referee" "message" text null null_unmarked
          h.0)
        h

  stopped-Follows :
      (k : ℕ) (plan : List String) (p : Progress)
      → Follows is_digit k plan (going p)
      → Follows is_digit k plan (halted p cancelled)
  stopped-Follows k plan p h =
      subst (λ l. Follows is_digit k l (halted p cancelled)) (append-nil plan)
        (cancelled-Follows is_digit k plan [] p h)

  -- The end of a run, which may be cancelled before its summary or after it.
  conclude-Follows :
      (cut_summary cut_end : Bool) (k : ℕ) (plan : List String) (p q : Progress)
      → Follows is_digit k plan (going p)
      → Follows is_digit k plan (going q)
      → Follows is_digit k plan (conclude upper is_digit setup task members cut_summary cut_end p q)
  unfolding conclude
  conclude-Follows true cut_end k plan p q h g = stopped-Follows k plan p h
  conclude-Follows false true k plan p q h g = stopped-Follows k plan q g
  conclude-Follows false false k plan p q h g = g

  converse-Follows :
      (k : ℕ) (plan : List String) (p : Progress) (closing logs : String) (timeout : Float)
      (m : Meeting)
      → Follows is_digit k plan (going p)
      → IsMeeting setup members m
      → Follows is_digit k
          (plan ++ (plan_of_inputs members m.pending ++ plan_of_waits members m.inputs))
          (converse upper is_digit setup task members p closing logs timeout m)
  unfolding converse emit_posts
  converse-Follows k plan p closing logs timeout m h ok =
      let before = plan ++ plan_of_inputs members m.pending in
      in_turn-Follows is_digit k plan (plan_of_inputs members m.pending)
        (plan_of_waits members m.inputs) _ _
        (process_pending_inputs-Follows upper is_digit ascii setup task members k plan p m.pending h
          ok.pending)
        (λ q g.
          after-Follows is_digit k (before ++ plan_of_waits members m.inputs) _ _
            (finally-Follows is_digit k k (before ++ plan_of_waits members m.inputs) _
              (accept_input false) (λ r. refl)
              (λ r s. aside-IsSteady is_digit k r r.trace false r.appender r.announced s.quiet s)
              (λ r s. log_posts-IsHalted is_digit k r false r.appender [] tt s)
              (await_interactive_input-Follows upper is_digit ascii setup task members m.timed_out k
                before _ m.now closing timeout m.late m.inputs
                (
                  aside-IsSteady is_digit k q q.trace true q.appender
                      (q.announced ++ "awaiting_input" ∷ []) g.0.quiet g.0,
                  g.1,
                  g.2,
                )
                ok.late ok.inputs))
            (λ r f.
              conclude-Follows m.cut_summary m.cut_end k (before ++ plan_of_waits members m.inputs)
                r _ f
                (summary-Follows k (before ++ plan_of_waits members m.inputs) r
                  (r.announced ++ "done" ∷ []) m.now logs (length m.stages) f)))

  fresh-IsSteady : IsSteady is_digit 0 fresh
  fresh-IsSteady = record {
    numbered = tt;
    next = refl;
    made = tt;
    counted = tt;
    idle = refl;
    queue = omega arith;
    quiet = no_turns-IsQuiet;
  }

  -- The two events that open a run.
  abbrev pub opened : (interactive : Bool) (now workflow : String) → Progress
  opened interactive now workflow = with_appender upper is_digit setup task members interactive (
      log_event
        (log_event fresh now "human" "message" task (obj (field "task" (str task) end)) none) now
        "referee" "status" workflow null none)

  pub told-IsSteady : (now workflow : String) → IsSteady is_digit 0 (opened false now workflow)
  unfolding log_event
  told-IsSteady now workflow =
      let told =
        log_event fresh now "human" "message" task (obj (field "task" (str task) end)) none in
      log_status-IsSteady is_digit 0 told false now "referee" workflow null none null_unmarked (
        log_plain-IsSteady is_digit 0 fresh [] now "human" "message" task _ (task_unmarked task)
          fresh-IsSteady)

  opened-Follows :
      (interactive : Bool) (now workflow : String)
      → Follows is_digit 0 [] (going (opened interactive now workflow))
  unfolding log_event
  opened-Follows false now workflow = (told-IsSteady now workflow, refl, tt)
  opened-Follows true now workflow =
      let p = opened false now workflow in
      let s = told-IsSteady now workflow in
      (aside-IsSteady is_digit 0 p p.trace p.accepting true p.announced s.quiet s, refl, tt)

  stages-Follows :
      (interactive : Bool) (now workflow : String) (ss : List StageRun)
      → All (IsStageable setup members) ss
      → Follows is_digit 0 (plan_of_stages members interactive ss) (
          run_each_stage upper is_digit setup task members interactive
            (opened interactive now workflow)
            1
            ss)
  stages-Follows interactive now workflow ss ok =
      run_each_stage-Follows interactive 0 [] (opened interactive now workflow) 1 ss
        (opened-Follows interactive now workflow) (omega arith) ok

  pub run_stages-Follows :
      (interactive : Bool) (workflow closing logs : String) (timeout : Float) (m : Meeting)
      → IsMeeting setup members m
      → Follows is_digit 0
          (plan_of members interactive m)
          (run_stages upper is_digit setup task members interactive workflow closing logs timeout m)
  unfolding run_stages after_stages
  run_stages-Follows true workflow closing logs timeout m ok =
      finally-Follows is_digit 0 0 (plan_of members true m) _
        (λ p. drop_appender (log_posts p m.last)) (λ p. refl)
        (λ p s.
          aside-IsSteady is_digit 0 p (emit_posts p.trace m.last) p.accepting false p.announced
            (emit_posts-IsQuiet m.last p.trace ok.last s.quiet) s)
        (λ p s. log_posts-IsHalted is_digit 0 p p.accepting false m.last ok.last s)
        (in_turn-Follows is_digit 0 [] (plan_of_stages members true m.stages)
          (plan_of_inputs members m.pending ++ plan_of_waits members m.inputs) _ _
          (stages-Follows true m.now workflow m.stages ok.stages)
          (λ p h.
            converse-Follows 0 (plan_of_stages members true m.stages) p closing logs timeout m h
              ok))
  run_stages-Follows false workflow closing logs timeout m ok =
      finally-Follows is_digit 0 0 (plan_of members false m) _ (λ p. p) (λ p. refl) (λ p s. s)
        (λ p s. s)
        (after-Follows is_digit 0 (plan_of members false m) _ _
          (stages-Follows false m.now workflow m.stages ok.stages)
          (λ p h. conclude-Follows m.cut_summary m.cut_end 0 (plan_of members false m) p _ h (
            summary-Follows 0 (plan_of members false m) p p.announced m.now logs (length m.stages)
              h)))
