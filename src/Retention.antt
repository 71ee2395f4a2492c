-- ===== src/Retention.antt =====
-- agent_collab/retention.py and agent_collab/durations.py: which terminal sessions expire, and which
-- of their transcripts may be deleted. An instant is the microseconds since `datetime.min`.
pub mod Durations
pub mod Selection
pub mod Transcripts
pub mod Bounds
pub mod Expiry
pub mod Ownership
mod Examples
