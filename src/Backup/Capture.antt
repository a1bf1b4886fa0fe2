-- ===== src/Backup/Capture.antt =====
-- src/backup/capture.ts: one capture of a session's entries. The exclusion rules, the redactor and
-- the count of redaction marks are arguments, and so is which enqueue of the outbox throws.
pub mod Records
pub mod Verified
pub mod Omitted
use pi_kiwifs_memory.Prelude.{
  ℕ, zero, suc, ◌+◌, ◌-◌, String, Bool, true, false, ◌&&◌, not, Option, none, some, List, [], ◌∷◌,
  ◌++◌, map, length, ◌==◌, if◌then◌else◌,
}
use pi_kiwifs_memory.Backup.Json.{Platform}
use pi_kiwifs_memory.Backup.Chunker.{BackupView, ChunkDraft, chunk_entries}
use pi_kiwifs_memory.Backup.Verify.{
  ManifestChunk, BackupManifest, build_backup_manifest, manifest_chunk, is_in,
}

pub record SessionBackupState : Type 0 where
  pub covered_entry_ids : List String
  pub next_seq : ℕ
  pub chunks : List ManifestChunk
  pub omissions : List (String × String)
  pub redaction_counts : List (String × ℕ)

pub record CaptureOptions : Type 0 where
  pub session_id : String
  pub project_id : String
  pub scope : String
  pub max_chunk_bytes : ℕ
  pub private_mode : Bool
  pub exclusions_valid : Bool
  pub excluded : String → Bool
  pub redact : String → Option String
  pub tally : List (String × ℕ) → List BackupView → List (String × ℕ)
  pub now : ℕ

-- The views whose entry is neither covered nor seen before in this capture.
unfoldable pub fresh_views : List String → List BackupView → List BackupView
fresh_views seen [] = []
fresh_views seen (v ∷ vs) = elim (is_in v.id seen) [
  | true ↦ fresh_views seen vs
  | false ↦ v ∷ fresh_views (seen ++ v.id ∷ []) vs
]

pub record PolicySplit : Type 0 where
  pub candidates : List BackupView
  pub omitted : List (String × String)
  pub covered_now : List String

unfoldable pub reasons : String → List String → List (String × String)
reasons id rs = map (λ r. (id, r)) rs

-- What is covered by an omission alone.
unfoldable pub omit : BackupView → List (String × String) → PolicySplit → PolicySplit
omit v os s = record s { omitted = s.omitted ++ os; covered_now = s.covered_now ++ v.id ∷ [] }

unfoldable pub contentless : String → List String → List (String × String)
contentless id [] = (id, "contentless-entry") ∷ []
contentless id (r ∷ rs) = reasons id (r ∷ rs)

-- For the redactor's answer; an entry that it refuses stays uncovered.
unfoldable pub admit : BackupView → Option String → PolicySplit → PolicySplit
admit v none s = s
admit v (some content) s = record {
  candidates = s.candidates ++ (record v { body = some content }) ∷ [];
  omitted = s.omitted ++ reasons v.id v.omissions;
  covered_now = s.covered_now ++ v.id ∷ [];
}

unfoldable pub split_text : CaptureOptions → BackupView → Option String → PolicySplit → PolicySplit
split_text o v none s = omit v (contentless v.id v.omissions) s
split_text o v (some content) s =
    if o.excluded content
    then omit v ((v.id, "excluded-by-policy") ∷ []) s
    else admit v (o.redact content) s

unfoldable pub split_view : CaptureOptions → BackupView → PolicySplit → PolicySplit
split_view o v s =
    if is_in "extension-internal" v.omissions
    then omit v ((v.id, "extension-internal") ∷ []) s
    else split_text o v v.body s

unfoldable pub split_views : CaptureOptions → List BackupView → PolicySplit → PolicySplit
split_views o [] s = s
split_views o (v ∷ vs) s = split_views o vs (split_view o v s)

abbrev pub nothing_split : PolicySplit
nothing_split = record { candidates = []; omitted = []; covered_now = [] }

pub data SkippedReason : Type 0 where
  private_mode no_candidates : SkippedReason

pub data CaptureResult : Type 0 where
  skipped : SkippedReason → CaptureResult
  captured : ℕ → Bool → ℕ → CaptureResult  -- chunks, whether a manifest, held entries
  threw : CaptureResult

module _ (p : Platform) where
  pub data BackupJob : Type 0 where
    chunk_job : ChunkDraft p → BackupJob
    manifest_job : BackupManifest → BackupJob

  -- The session in memory and on disk, and the jobs that the outbox accepted.
  pub record Capture : Type 0 where
    pub session : SessionBackupState
    pub saved : SessionBackupState
    pub jobs : List BackupJob

  -- The outbox accepts a job or throws: `accepts` for a chunk by its number, and for the manifest.
  -- Behind an accepted chunk `backupChunkPath` returns or throws, by `has_path`.
  pub record Acceptance : Type 0 where
    pub accepts : ℕ → Bool
    pub accepts_manifest : Bool
    pub has_path : ℕ → Bool

  pub enqueue_chunk : ChunkDraft p → Capture → Capture
  enqueue_chunk d c = record c {
    session = record c.session { chunks = c.session.chunks ++ manifest_chunk p d ∷ [] };
    jobs = c.jobs ++ chunk_job d ∷ [];
  }

  -- With whether one of them threw.
  unfoldable pub enqueue_chunks : Acceptance → List (ChunkDraft p) → Capture → Capture × Bool
  enqueue_chunks a [] c = (c, false)
  enqueue_chunks a (d ∷ ds) c =
      let rest = enqueue_chunks a ds (enqueue_chunk d c) in
      if not (a.accepts d.seq)
      then (c, true)
      else if a.has_path d.seq
      then rest
      else (record c { jobs = c.jobs ++ chunk_job d ∷ [] }, true)

  pub advance : CaptureOptions → PolicySplit → ℕ → Capture → Capture
  advance o s made c = record c {
    session = record c.session {
      covered_entry_ids = c.session.covered_entry_ids ++ s.covered_now;
      next_seq = c.session.next_seq + made;
      omissions = c.session.omissions ++ s.omitted;
      redaction_counts = o.tally c.session.redaction_counts s.candidates;
    };
  }

  pub manifest_now : CaptureOptions → SessionBackupState → BackupManifest
  manifest_now o s =
      build_backup_manifest o.session_id o.project_id o.scope s.chunks s.redaction_counts
        s.omissions s.covered_entry_ids o.now

  pub persist : Capture → Capture
  persist c = record c { saved = c.session }

  -- From the commit of the coverage on.
  unfoldable pub finish :
      CaptureOptions → Acceptance → PolicySplit → ℕ → ℕ → Capture → Capture × CaptureResult
  finish o a s fresh zero c =
      (persist (advance o s zero c), captured zero false (fresh - length s.covered_now))
  finish o a s fresh (suc made) c =
      let c' = advance o s (suc made) c in
      if a.accepts_manifest
      then (
        persist (record c' { jobs = c'.jobs ++ manifest_job (manifest_now o c'.session) ∷ [] }),
        captured (suc made) true (fresh - length s.covered_now),
      )
      else (c', threw)

  unfoldable pub capture_drafts :
      CaptureOptions
      → Acceptance
      → PolicySplit
      → ℕ
      → Option (List (ChunkDraft p))
      → Capture
      → Capture × CaptureResult
  capture_drafts o a s fresh none c = (c, threw)
  capture_drafts o a s fresh (some drafts) c =
      let queued = enqueue_chunks a drafts c in
      if queued.1 then (queued.0, threw) else finish o a s fresh (length drafts) queued.0

  unfoldable pub capture_fresh :
      CaptureOptions → Acceptance → List BackupView → Capture → Capture × CaptureResult
  capture_fresh o a [] c = (c, skipped no_candidates)
  capture_fresh o a (v ∷ vs) c =
      let s = split_views o (v ∷ vs) nothing_split in
      capture_drafts o a s (length (v ∷ vs))
        (chunk_entries p o.session_id o.max_chunk_bytes s.candidates c.session.next_seq) c

  unfoldable pub capture :
      CaptureOptions → Acceptance → List BackupView → Capture → Capture × CaptureResult
  capture o a views c =
      if o.private_mode
      then (c, skipped private_mode)
      else if not o.exclusions_valid
      then (c, skipped no_candidates)
      else capture_fresh o a (fresh_views c.session.covered_entry_ids views) c
