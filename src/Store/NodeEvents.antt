-- ===== src/Store/NodeEvents.antt =====
-- Events from nodes: `append_node_event` of crates/stackhour-domain/src/store.rs.
pub mod Retry
pub mod Terminal
pub mod Settle
