-- ===== src/Examples.antt =====
-- Concrete runs: a codec with unary texts, a small database, and the theorems applied to them.
pub mod Unary
pub mod World
pub mod Commands
pub mod NodeEvents
pub mod Queues
pub mod Values
pub mod Hub
pub mod HubCommands
pub mod Sessions
pub mod Agent
pub mod Tail
pub mod Node
pub mod Engine
