-- ===== src/Referee/Asides.antt =====
-- What the referee's invariant does not read: the log between turns, and what is reported.
use Prim.Native.Char.{Char}
use agent_collab.Base.{ℕ, String, ◌≡◌, refl, Bool, Option, none, List, All}
use agent_collab.Events.{Event}
use agent_collab.Base.Values.{Value, str, float, get_field, obj, end, field, Float}
use agent_collab.Referee.Progress.{Progress, going, log_event, emit_posts, log_posts}
use agent_collab.Referee.Interaction.{accept_input}
use agent_collab.Sessions.Answers.{raw_outcome}
use agent_collab.Sessions.Turns.{Trace}
use agent_collab.Referee.Logging.{
  IsQuiet, IsPosted, emit_posts-IsQuiet, emit_posts-TurnReach, log_status-IsQuiet,
  log_plain-IsQuiet,
}
use agent_collab.Referee.Invariant.{IsSteady, IsHalted, Follows}

pub log_event-turns :
    (p : Progress) (now source type text : String) (raw : Value) (agent : Option String)
    → (log_event p now source type text raw agent).turns ≡ p.turns
unfolding log_event
log_event-turns p now source type text raw agent = refl

pub closing_unmarked :
    (timeout : Float)
    → raw_outcome (obj (field "interactive_idle_timeout" (float timeout) end)) ≡ none
unfolding raw_outcome get_field
closing_unmarked timeout = refl

pub task_unmarked : (task : String) → raw_outcome (obj (field "task" (str task) end)) ≡ none
unfolding raw_outcome get_field
task_unmarked task = refl

module _ (is_digit : Char → Bool) where
  -- What the invariant does not read.
  pub aside-IsSteady :
      (k : ℕ) (p : Progress) (t : Trace) (accepting appender : Bool) (announced : List String)
      → IsQuiet t
      → IsSteady is_digit k p
      → IsSteady is_digit k (record p {
        trace = t;
        accepting = accepting;
        appender = appender;
        announced = announced;
      })
  aside-IsSteady k p t accepting appender announced quiet h = record {
    numbered = h.numbered;
    next = h.next;
    made = h.made;
    counted = h.counted;
    idle = h.idle;
    queue = h.queue;
    quiet = quiet;
  }

  pub log_status-IsSteady :
      (k : ℕ) (p : Progress) (accepting : Bool) (now source text : String) (raw : Value)
      (agent : Option String)
      → raw_outcome raw ≡ none
      → IsSteady is_digit k p
      → IsSteady is_digit k
          (log_event (accept_input accepting p) now source "status" text raw agent)
  unfolding log_event
  log_status-IsSteady k p accepting now source text raw agent mark h =
      aside-IsSteady k p _ accepting p.appender p.announced
        (log_status-IsQuiet p now source text raw agent mark h.quiet) h

  pub log_plain-IsSteady :
      (k : ℕ) (p : Progress) (announced : List String) (now source type text : String) (raw : Value)
      → raw_outcome raw ≡ none
      → IsSteady is_digit k p
      → IsSteady is_digit k
          (record (log_event p now source type text raw none) { announced = announced })
  unfolding log_event
  log_plain-IsSteady k p announced now source type text raw mark h =
      aside-IsSteady k p _ p.accepting p.appender announced
        (log_plain-IsQuiet p now source type text raw mark h.quiet) h

  -- Posted messages between turns.
  pub log_posts-Follows :
      (k : ℕ) (plan : List String) (p : Progress) (es : List Event)
      → All IsPosted es
      → Follows is_digit k plan (going p)
      → Follows is_digit k plan (going (log_posts p es))
  log_posts-Follows k plan p es posts (steady, done, all) = (
    aside-IsSteady k p (emit_posts p.trace es) p.accepting p.appender p.announced
        (emit_posts-IsQuiet es p.trace posts steady.quiet) steady,
    done,
    all,
  )

  -- The same when the run stopped.
  pub log_posts-IsHalted :
      (k : ℕ) (p : Progress) (accepting appender : Bool) (es : List Event)
      → All IsPosted es
      → IsHalted is_digit k p
      → IsHalted is_digit k
          (record p { trace = emit_posts p.trace es; accepting = accepting; appender = appender })
  log_posts-IsHalted k p accepting appender es posts h = record {
    numbered = h.numbered;
    made = h.made;
    counted = h.counted;
    idle = h.idle;
    queue = h.queue;
    steps = emit_posts-TurnReach es p.trace posts h.steps;
  }
