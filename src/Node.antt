-- ===== src/Node.antt =====
-- The node's connection runtime: crates/stackhour-node/src.
pub mod Backoff
pub mod Cli
pub mod Delivery
pub mod Outbox
pub mod Process
pub mod Supervisor
