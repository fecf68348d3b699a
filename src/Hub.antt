-- ===== src/Hub.antt =====
-- The hub's server: crates/stackhour-hub/src/lib.rs.
pub mod Table
pub mod State
pub mod Checks
pub mod Publish
pub mod Commands
pub mod Act
pub mod Worker
pub mod NodeLink
pub mod ClientLink
pub mod Reaches
pub mod Started
pub mod Cases
pub mod Retry
pub mod Durable
pub mod Binding
pub mod Coherent
pub mod Broadcast
pub mod Machine
pub mod Sound
pub mod Accepts
pub mod Eligible
pub mod Acknowledged
pub mod Registry
pub mod Admission
