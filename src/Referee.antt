-- ===== src/Referee.antt =====
-- agent_collab/referee.py: the referee of a session. It builds the prompts, runs the turns of the
-- agents in stages, decides how each turn ended, and feeds the follow-up messages to them.
pub mod Prompts
pub mod Watermarks
pub mod Arbitration
pub mod Verdicts
pub mod Progress
pub mod Supervision
pub mod Interaction
pub mod Numbering
pub mod Records
pub mod Logging
pub mod Invariant
pub mod Closing
pub mod Turning
pub mod Plans
pub mod Asides
pub mod Inputs
pub mod Runs
pub mod Endings
pub mod Parallel
pub mod Members
pub mod Commits
pub mod Overlaps
pub mod Occurrences
pub mod Acceptance
pub mod Reviews
pub mod Joined
pub mod Examples
mod ParallelExamples
