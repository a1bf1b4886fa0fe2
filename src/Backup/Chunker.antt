-- ===== src/Backup/Chunker.antt =====
-- src/backup/chunker.ts: the entries of a session, cut into chunks of bounded size.
pub mod Partition
use pi_kiwifs_memory.Prelude.{
  ℕ, zero, suc, ◌+◌, ◌*◌, String, Bool, true, false, Option, none, some, List, [], ◌∷◌, ◌++◌, map,
  ltb, leb, if◌then◌else◌,
}
use pi_kiwifs_memory.Backup.Json.{
  Json, null, number, text, array, object, Items, no_item, item, Fields, no_field, field, Platform,
}

-- `BackupView` of src/backup/exporter.ts.
pub record BackupView : Type 0 where
  pub id : String
  pub parent_id : Option String
  pub type : String
  pub timestamp : String
  pub role : Option String
  pub body : Option String
  pub omissions : List String

abbrev pub backup_schema_version : ℕ
backup_schema_version = 1

unfoldable pub text_or_null : Option String → Json
text_or_null none = null
text_or_null (some s) = text s

-- A property that is undefined is left out.
unfoldable pub optional_field : String → Option String → Fields → Fields
optional_field key none rest = rest
optional_field key (some s) rest = field key (text s) rest

pub texts : List String → Items
texts [] = no_item
texts (s ∷ ss) = item (text s) (texts ss)

unfoldable pub entry_json : BackupView → Json
entry_json e = object (
    field "id" (text e.id) (
      field "parentId" (text_or_null e.parent_id) (
        field "type" (text e.type) (
          field "timestamp" (text e.timestamp) (
            optional_field "role" e.role (
              optional_field "text" e.body
                (field "omissions" (array (texts e.omissions)) no_field)))))))

unfoldable pub entries_json : List BackupView → Items
entries_json [] = no_item
entries_json (e ∷ es) = item (entry_json e) (entries_json es)

unfoldable pub chunk_json : String → ℕ → List BackupView → Json
chunk_json session_id seq entries = object (
    field "schemaVersion" (number backup_schema_version) (
      field "kind" (text "kiwifs-backup-chunk") (
        field "sessionId" (text session_id)
          (field "seq" (number seq) (field "entries" (array (entries_json entries)) no_field)))))

abbrev pub default_max_chunk_bytes : ℕ
default_max_chunk_bytes = 64 * 1024

module _ (p : Platform) where
  pub record ChunkDraft : Type 0 where
    pub seq : ℕ
    pub content : p.Text
    pub byte_length : ℕ
    pub checksum : String
    pub entry_ids : List String
    pub oversized : Bool

  unfoldable pub serialize_chunk : String → ℕ → List BackupView → p.Text
  serialize_chunk session_id seq entries = p.json_stringify (chunk_json session_id seq entries)

  unfoldable pub chunk_checksum : p.Text → String
  chunk_checksum content = p.sha256 content

  module _ (session_id : String) (max_bytes : ℕ) where
    -- The variables of `chunkEntries`.
    pub record Chunking : Type 0 where
      pub drafts : List ChunkDraft
      pub pending : List BackupView
      pub next : ℕ

    unfoldable pub draft_of : ℕ → List BackupView → Bool → ChunkDraft
    draft_of seq entries oversized =
        let content = serialize_chunk session_id seq entries in
        record {
          seq = seq;
          content = content;
          byte_length = p.byte_length content;
          checksum = chunk_checksum content;
          entry_ids = map (λ e. e.id) entries;
          oversized = oversized;
        }

    unfoldable pub size_of : ℕ → List BackupView → ℕ
    size_of seq entries = p.byte_length (serialize_chunk session_id seq entries)

    unfoldable pub flush : Bool → List BackupView → Chunking → Chunking
    flush oversized [] c = record c { pending = [] }
    flush oversized (e ∷ es) c = record {
      drafts = c.drafts ++ draft_of c.next (e ∷ es) oversized ∷ [];
      pending = [];
      next = c.next + 1;
    }

    -- The entry `e` once the pending ones are flushed: it makes a chunk of its own.
    pub alone : BackupView → Chunking → Chunking
    alone e c = flush (ltb max_bytes (size_of c.next (e ∷ []))) (e ∷ []) c

    -- For the entries that were pending before `e`.
    pub overflow : BackupView → List BackupView → Chunking → Chunking
    overflow e [] c = flush true (e ∷ []) c
    overflow e (x ∷ xs) c = alone e (flush false (x ∷ xs) c)

    -- One round of the loop.
    unfoldable pub add_entry : BackupView → Chunking → Chunking
    add_entry e c =
        if leb (size_of c.next (c.pending ++ e ∷ [])) max_bytes
        then record c { pending = c.pending ++ e ∷ [] }
        else overflow e c.pending c

    unfoldable pub add_entries : List BackupView → Chunking → Chunking
    add_entries [] c = c
    add_entries (e ∷ es) c = add_entries es (add_entry e c)

    -- `none` is the exception for a bound below 256.
    unfoldable pub chunk_entries : List BackupView → ℕ → Option (List ChunkDraft)
    chunk_entries entries seq_start =
        if ltb max_bytes 256
        then none
        else let c = add_entries entries (record { drafts = []; pending = []; next = seq_start }) in
          some (flush false c.pending c).drafts
