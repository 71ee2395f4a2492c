-- ===== src/Outcomes.antt =====
-- agent_collab/outcomes.py: the outcomes of turns, their records and failures, and the evidence for them.
pub mod Codes
pub mod Fields
pub mod Turn
pub mod Records
pub mod Evidence
pub mod Canonical
pub mod Coherence
pub mod Reload
pub mod Failures
pub mod Resolution
pub mod Totality
mod Examples
