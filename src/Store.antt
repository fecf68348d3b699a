-- ===== src/Store.antt =====
-- crates/stackhour-domain/src/store.rs: the durable store of the control plane.
pub mod Rows
pub mod Db
pub mod Tables
pub mod Append
pub mod Reads
pub mod Entities
pub mod Dispatch
pub mod Wakes
pub mod Approvals
pub mod Settings
pub mod Migrations
pub mod Log
pub mod Machine
pub mod Atomic
pub mod Idempotent
pub mod Progress
pub mod Ownership
pub mod NodeEvents
