-- ===== src/Agent.antt =====
-- The agent on a user's machine: crates/stackhour-agent.
pub mod Queue
pub mod Tick
pub mod Tail
