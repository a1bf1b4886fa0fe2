-- ===== src/Backup/Tests.antt =====
-- Runs of the backup of src/backup, and its theorems at concrete inputs.
use pi_kiwifs_memory.Prelude.{
  ◌≡◌, ◌≢◌, refl, String, true, false, Option, none, some, List, [], ◌∷◌, ◌++◌, arith,
}
use pi_kiwifs_memory.Backup.Json.{Json, Platform, IsFaithful}
use pi_kiwifs_memory.Backup.Chunker.{
  BackupView, ChunkDraft, chunk_entries, add_entries, add_entry, flush, draft_of, size_of,
}
use pi_kiwifs_memory.Backup.Chunker.Partition.{IsCut, chunk_entries-IsCut}
use pi_kiwifs_memory.Backup.Verify.{is_in, is_unlinked, manifest_chunk}
use pi_kiwifs_memory.Backup.Capture.{
  CaptureOptions, SessionBackupState, Capture, Acceptance, chunk_job, threw, capture, capture_fresh,
  fresh_views, split_views, split_view, split_text, admit, reasons, capture_drafts, finish,
  enqueue_chunks, omit, contentless,
}
use pi_kiwifs_memory.Backup.Capture.Records.{IsBackedUp, added, capture-IsBackedUp}
use pi_kiwifs_memory.Backup.Capture.Verified.{issues_now, IsBackedUp-verifies}
use pi_kiwifs_memory.Backup.Verify.Tree.{IsTree}

-- Texts that are the values they stand for.
abbrev platform : Platform
platform = record {
  Text = Json;
  json_stringify = λ j. j;
  json_parse = λ t. some t;
  sha256 = λ t. "digest";
  byte_length = λ t. 100;
}

platform-IsFaithful : IsFaithful platform
unfolding IsFaithful
platform-IsFaithful = λ j. refl

abbrev view : String → Option String → BackupView
view id parent = record {
  id = id;
  parent_id = parent;
  type = "message";
  timestamp = "";
  role = some "user";
  body = some "hello";
  omissions = [];
}

abbrev entries : List BackupView
entries = view "a" none ∷ view "b" (some "a") ∷ []

abbrev chunk : ChunkDraft platform
chunk = draft_of platform "s" 256 0 entries false

entries-IsTree : IsTree [] entries
unfolding is_in is_unlinked
entries-IsTree = (refl, refl, refl, (refl, refl, refl, tt))

chunk_entries-IsCut_example :
    (drafts : List (ChunkDraft platform)) × (chunk_entries platform "s" 256 entries 0 ≡ some drafts)
    × IsCut platform "s" 256 0 entries drafts
chunk_entries-IsCut_example = chunk_entries-IsCut platform "s" 256 entries 0 (omega arith)

abbrev options : CaptureOptions
options = record {
  session_id = "s";
  project_id = "p";
  scope = "project/p";
  max_chunk_bytes = 256;
  private_mode = false;
  exclusions_valid = true;
  excluded = λ text. false;
  redact = λ text. some text;
  tally = λ counts es. counts;
  now = 5;
}

abbrev empty_session : SessionBackupState
empty_session = record {
  covered_entry_ids = [];
  next_seq = 0;
  chunks = [];
  omissions = [];
  redaction_counts = [];
}

abbrev empty_capture : Capture platform
empty_capture = record { session = empty_session; saved = empty_session; jobs = [] }

abbrev accepting : Acceptance platform
accepting = record { accepts = λ seq. true; accepts_manifest = true; has_path = λ seq. true }

empty-IsBackedUp : IsBackedUp platform options [] empty_capture
empty-IsBackedUp = record {
  cut = record { groups = []; whole = refl; drawn = refl; bounded = tt };
  recorded = refl;
  numbered = refl;
}

capture_returns : (capture platform options accepting entries empty_capture).1 ≢ threw
unfolding capture capture_fresh fresh_views is_in split_views split_view split_text admit omit
    contentless reasons capture_drafts finish enqueue_chunks chunk_entries add_entries add_entry
    flush size_of draft_of
capture_returns = λ same. cc same

capture-IsBackedUp_example :
    IsBackedUp platform options
      ([] ++ added platform options (fresh_views [] entries))
      (capture platform options accepting entries empty_capture).0
    × ((capture platform options accepting entries empty_capture).0
        ≡ (capture_fresh platform options accepting (fresh_views [] entries) empty_capture).0)
capture-IsBackedUp_example =
    capture-IsBackedUp platform options accepting entries [] empty_capture (omega arith)
      empty-IsBackedUp capture_returns

-- A session with both entries in one chunk, and what else it covers.
abbrev backed_up : List String → Capture platform
backed_up covered = record {
  session = record empty_session {
    covered_entry_ids = covered;
    next_seq = 1;
    chunks = manifest_chunk platform chunk ∷ [];
  };
  saved = empty_session;
  jobs = chunk_job chunk ∷ [];
}

backed_up-IsBackedUp :
    (covered : List String) → IsBackedUp platform options entries (backed_up covered)
unfolding draft_of size_of
backed_up-IsBackedUp covered = record {
  cut = record {
    groups = entries ∷ [];
    whole = refl;
    drawn = refl;
    bounded = ((λ h. cc h, λ h. cc h), tt);
  };
  recorded = refl;
  numbered = refl;
}

IsBackedUp-verifies_example : issues_now platform options (backed_up ("a" ∷ "b" ∷ [])) ≡ []
IsBackedUp-verifies_example =
    IsBackedUp-verifies platform options entries (backed_up ("a" ∷ "b" ∷ [])) platform-IsFaithful
      (backed_up-IsBackedUp ("a" ∷ "b" ∷ [])) entries-IsTree refl

-- The second entry has no text.
abbrev half_empty : List BackupView
half_empty = view "a" none ∷ record (view "b" (some "a")) { body = none } ∷ []
