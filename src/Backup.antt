-- ===== src/Backup.antt =====
-- src/backup: the backup of a session's entries, its manifest and its verification.
pub mod Json
pub mod Chunker
pub mod Verify
pub mod Capture
mod Tests
