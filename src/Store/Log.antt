-- ===== src/Store/Log.antt =====
-- How each append changes the log: the rows of `events` and of `command_receipts`.
pub mod Frame
pub mod Effect
pub mod Change
pub mod Invariant
pub mod Growth
pub mod Tail
