-- ===== src/Backup/Capture/Verified.antt =====
-- src/backup: the verification of what a capture has enqueued.
use pi_kiwifs_memory.Prelude.{◌≡◌, ◌≢◌, sym, ap, ◌∙◌, some, List, [], length}
use pi_kiwifs_memory.Backup.Json.{Platform, IsFaithful}
use pi_kiwifs_memory.Backup.Chunker.{BackupView}
use pi_kiwifs_memory.Backup.Verify.{build_backup_manifest, verify_backup, IssueCode}
use pi_kiwifs_memory.Backup.Verify.Tree.{ids_of, IsTree}
use pi_kiwifs_memory.Backup.Verify.Complete.{
  manifest_of, delivered_of, verify-IsCut, verify-omitted,
}
use pi_kiwifs_memory.Backup.Capture.{CaptureOptions, Capture, manifest_now}
use pi_kiwifs_memory.Backup.Capture.Records.{chunks_of, IsBackedUp}

-- The issues of the manifest of now, with all accepted chunks delivered.
abbrev pub issues_now : (p : Platform) → CaptureOptions → Capture p → List IssueCode
issues_now p o c =
    verify_backup p (manifest_now p o c.session)
      (delivered_of p o.session_id o.max_chunk_bytes (chunks_of p c.jobs)) o.session_id o.project_id
      (some o.scope)

manifest_now-manifest_of :
    (p : Platform) (o : CaptureOptions) (entries : List BackupView) (c : Capture p)
    → IsBackedUp p o entries c
    → manifest_now p o c.session
      ≡ manifest_of p o.session_id o.max_chunk_bytes o.project_id o.scope
          (chunks_of p c.jobs)
          c.session.redaction_counts
          c.session.omissions
          c.session.covered_entry_ids
          o.now
unfolding manifest_now
manifest_now-manifest_of p o entries c v =
    ap
      (λ t.
        build_backup_manifest o.session_id o.project_id o.scope t c.session.redaction_counts
          c.session.omissions c.session.covered_entry_ids o.now)
      v.recorded

-- Round trip: on a platform that reads back what it writes, the backup of a session whose covered
-- entries are all in its chunks, and form a tree in their order, verifies without an issue.
pub IsBackedUp-verifies :
    (p : Platform) (o : CaptureOptions) (entries : List BackupView) (c : Capture p)
    → IsFaithful p
    → IsBackedUp p o entries c
    → IsTree [] entries
    → c.session.covered_entry_ids ≡ ids_of entries
    → issues_now p o c ≡ []
IsBackedUp-verifies p o entries c faithful v tree all =
    ap
      (λ m.
        verify_backup p m (delivered_of p o.session_id o.max_chunk_bytes (chunks_of p c.jobs))
          o.session_id o.project_id (some o.scope))
      (manifest_now-manifest_of p o entries c v
        ∙ ap
            (λ t.
              manifest_of p o.session_id o.max_chunk_bytes o.project_id o.scope (chunks_of p c.jobs)
                c.session.redaction_counts c.session.omissions t o.now)
            all)
    ∙ verify-IsCut p o.session_id o.max_chunk_bytes faithful entries 0 (chunks_of p c.jobs)
        o.project_id o.scope c.session.redaction_counts c.session.omissions o.now tree v.cut

-- A session that covers another number of entries than its chunks hold.
pub IsBackedUp-miscounted :
    (p : Platform) (o : CaptureOptions) (entries : List BackupView) (c : Capture p)
    → IsFaithful p
    → IsBackedUp p o entries c
    → IsTree [] entries
    → length c.session.covered_entry_ids ≢ length (ids_of entries)
    → issues_now p o c ≢ []
IsBackedUp-miscounted p o entries c faithful v tree differs empty =
    verify-omitted p o.session_id o.max_chunk_bytes faithful entries 0 (chunks_of p c.jobs)
      o.project_id o.scope c.session.redaction_counts c.session.omissions
      c.session.covered_entry_ids o.now tree v.cut differs
      (ap
          (λ m.
            verify_backup p m (delivered_of p o.session_id o.max_chunk_bytes (chunks_of p c.jobs))
              o.session_id o.project_id (some o.scope))
          (sym (manifest_now-manifest_of p o entries c v))
        ∙ empty)
