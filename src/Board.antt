-- ===== src/Board.antt =====
-- src/board: delivery of messages between agents, and the rules of their manual removal.
pub mod Path
pub mod Cleanup
pub mod Execution
pub mod Planning
pub mod Lock
pub mod Polling
pub mod Entries
pub mod Cycle
mod Tests
