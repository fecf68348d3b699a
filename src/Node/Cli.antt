-- ===== src/Node/Cli.antt =====
-- The engine that runs the installed Claude and Codex programs: `CliEngine`, of
-- crates/stackhour-node/src/engine.rs.
pub mod State
pub mod Dispatch
pub mod Tasks
pub mod Machine
pub mod Once
pub mod Due
pub mod Outcome
pub mod Interrupts
