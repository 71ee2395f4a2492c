-- ===== src/Lib.antt =====
-- A model of the core of agent_collab: the daemon runs sessions in which several coding agents
-- work on one task under a referee. Each turn of an agent ends in one outcome; the session keeps
-- its events, its outcomes and the last answer of each agent, and persists its state in an index.
--
-- Parts, files and sources (paths from the root of the repository):
-- Base: Python values, texts, dicts and exceptions. Numbers are native naturals and ints are an
--   integer type over them; a float is an exact binary fraction, an infinity or not a number. An
--   exception is a value `err e`; its text is not modelled.
-- Outcomes: agent_collab/outcomes.py. Codes is the vocabulary, Fields the checks of single fields,
--   Turn `TurnOutcome`, Records `TurnOutcomeRecord` and `SessionFailure`, Evidence
--   `TerminalEvidence` and its accumulator. The constructors take arbitrary wire values, as
--   `from_dict` passes them on. `str.isdigit` is the parameter `is_digit`.
-- Events: agent_collab/events.py. The set of warned coercions is passed on explicitly.
-- Sessions: agent_collab/daemon.py, for one session and its entry in the index. A `World` is a
--   `_ManagedSession` with the index. Lifecycle has `_transition_state` and `_set_status`,
--   Recording the callbacks of the referee, Ending the end of `_run_session` and `stop_session`,
--   Reads `read_events`, Messages `post_message` and the input queue, Results `_build_result`,
--   Restore `_restore_from_index`, Opening `start_session`, Answers the answers of
--   agent_collab/referee.py (`_find_turn_answer`) and their reconstruction after a restart, and
--   Turns how the referee logs turns. Coroutines run between two awaits without interruption, so an
--   operation between two awaits is one step. Steps is the relation of those on a live session, with
--   the input queue, posts and what other sessions write to the index; the outcome of each index
--   write and the current time are arguments. Delivery is about `post_message` as such steps.
-- Index: agent_collab/session_index.py. A file is what JSON reads from it, and is written whole;
--   the order of its keys is a parameter.
-- Referee: agent_collab/referee.py. Prompts builds the prompts and keeps the watermarks,
--   Arbitration decides how a turn ended, Progress is the state of a running referee and the end of
--   its coroutines, Supervision has `_run_agent_turn` and `_commit_outcome`, Interaction the stages
--   and the follow-up messages up to `_run_stages`, Parallel has `_run_parallel_stage`, Joined the
--   run around it, and Endings how `_run_session` of agent_collab/daemon.py takes the end of a run.
--   What runners, the deadline, stops and users do is the argument of a run: the `Meeting`, with the
--   messages that are posted into its log and the awaits at which it is cancelled. What
--   the referee reports to the daemon by a callback is the last value reported. The members of a
--   parallel stage are tasks that overlap: a list of their steps, in any order, is an argument.
--   `str.upper` is a parameter.
-- Retention: agent_collab/retention.py and agent_collab/durations.py. Durations parses durations,
--   Selection has `select_expired_sessions`, Transcripts `classify_transcript_paths`. Parsing an
--   ISO date, and the equality and joining of paths, are parameters.
-- Sandbox: agent_collab/sandbox. Policy is agent_collab/sandbox/policy.py. Frames and Payloads are
--   agent_collab/sandbox/worker_codec.py: a channel is the bytes that are still to come, and how
--   many of them each read or write moves is given by a function. JSON, `sanitize_error_text` and
--   `str` are parameters. The loops of reads and writes run on as many rounds as there are bytes,
--   which is enough, as each round moves at least one.
-- Workflows: the workflows of agent_collab/config.py. Selection is `resolve_workflow_members` of
--   agent_collab/options.py, Starting the part of `_prepare_session_start` of
--   agent_collab/daemon.py that uses it. `repr` is a parameter.
-- UsageWindows: agent_collab/usage_windows.py. A `datetime` is a wall time in whole microseconds
--   with a zone, whose offsets are an argument; `isoformat`, `fromisoformat` and the random source
--   are parameters. Anchors has the anchors of a schedule, Planning and Futures new plans, Targets
--   `plan_target`, Bookkeeping what the scheduler writes to an entry. A schedule stands for its
--   fingerprint and effective settings.
--
-- All functions are structural recursions over their input; no fuel is used but for the loops
-- of reads and writes, for the printing of numbers, where a number is more than its count of
-- digits, for the search of a local time, which the code bounds itself, and for the anchors of a day,
-- which are at most one more than the intervals that fit between its ends.
--
-- Not modelled: asyncio scheduling within a step, the file system, JSON texts, subprocesses and the
-- interfaces to users. The rest of the configuration and of the options, the tasks of the scheduler of
-- usage windows, and the management of the daemon's process are left out. In a read, the projection
-- of one event is an argument.
pub mod Base
pub mod Outcomes
pub mod Events
pub mod Sessions
pub mod Index
pub mod Referee
pub mod Retention
pub mod Sandbox
pub mod UsageWindows
pub mod Workflows
