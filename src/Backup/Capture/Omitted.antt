-- ===== src/Backup/Capture/Omitted.antt =====
-- src/backup: a capture that omits an entry, and the verification of what it has enqueued.
use pi_kiwifs_memory.Backup.Capture.{Capture}
