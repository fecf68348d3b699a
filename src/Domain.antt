-- ===== src/Domain.antt =====
-- crates/stackhour-domain/src: the entities, the event vocabulary, the wire messages and the texts
-- that the store writes.
pub mod ConnectionStatus
pub mod TaskStatus
pub mod AccessPolicy
pub mod RunStatus
pub mod Decision
pub mod EventKind
pub mod Ids
pub mod Json
pub mod Event
pub mod Entities
pub mod Protocol
pub mod Handshake
pub mod Codec
