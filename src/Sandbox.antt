-- ===== src/Sandbox.antt =====
-- agent_collab/sandbox: the outer sandbox. Its policy, agent_collab/sandbox/policy.py, and the frames
-- and payloads of its workers, agent_collab/sandbox/worker_codec.py.
pub mod Policy
pub mod Precedence
pub mod Frames
pub mod Transport
pub mod Payloads
pub mod Wire
mod Examples
mod CodecExamples
