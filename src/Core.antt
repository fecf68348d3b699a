-- ===== src/Core.antt =====
-- What the node uses of crates/stackhour-core/src.
pub mod Text
pub mod Engine
