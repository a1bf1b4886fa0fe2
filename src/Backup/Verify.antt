-- ===== src/Backup/Verify.antt =====
-- src/backup/manifest.ts and `verifyBackup` of src/backup/verify.ts. An issue is its code: the
-- texts of the details, and the path of a chunk, which only they show, are left out.
pub mod Parsing
pub mod Tree
pub mod Range
pub mod Complete
use pi_kiwifs_memory.Prelude.{
  ℕ, zero, suc, ◌+◌, String, Bool, true, false, ◌&&◌, ◌||◌, not, Option, none, some, List, [], ◌∷◌,
  ◌++◌, map, any, length, ltb, leb, ◌==◌, str_eq, is_some, if◌then◌else◌,
}
use pi_kiwifs_memory.Backup.Json.{
  Json, null, number, text, array, object, Items, no_item, item, get_field, Platform,
}
use pi_kiwifs_memory.Backup.Chunker.{ChunkDraft, chunk_checksum, backup_schema_version}

pub record ManifestChunk : Type 0 where
  pub seq : ℕ
  pub checksum : String
  pub byte_length : ℕ
  pub entry_ids : List String
  pub oversized : Bool

pub record BackupManifest : Type 0 where
  pub schema_version : ℕ
  pub session_id : String
  pub project_id : String
  pub scope : String
  pub first_entry_id : Option String
  pub last_entry_id : Option String
  pub entry_count : ℕ
  pub chunks : List ManifestChunk
  pub redaction_summary : List (String × ℕ)
  pub omissions : List (String × String)
  pub updated_at : ℕ

pub first_of : List String → Option String
first_of [] = none
first_of (x ∷ xs) = some x

pub last_of : List String → Option String
last_of [] = none
last_of (x ∷ []) = some x
last_of (x ∷ y ∷ ys) = last_of (y ∷ ys)

-- A time in ℕ is finite and not negative, so nothing is thrown.
pub build_backup_manifest :
    String
    → String
    → String
    → List ManifestChunk
    → List (String × ℕ)
    → List (String × String)
    → List String
    → ℕ
    → BackupManifest
build_backup_manifest session_id project_id scope chunks redactions omissions covered now = record {
  schema_version = backup_schema_version;
  session_id = session_id;
  project_id = project_id;
  scope = scope;
  first_entry_id = first_of covered;
  last_entry_id = last_of covered;
  entry_count = length covered;
  chunks = chunks;
  redaction_summary = redactions;
  omissions = omissions;
  updated_at = now;
}

pub data IssueCode : Type 0 where
  manifest_invalid schema_unsupported missing_chunk unexpected_chunk checksum_mismatch : IssueCode
  seq_mismatch session_mismatch byte_length_mismatch duplicate_coverage : IssueCode
  entry_count_mismatch range_mismatch identity_mismatch unlinked_parent : IssueCode

-- The `parentId` of a parsed entry: absent or null, a text, or anything else.
pub data ParentLink : Type 0 where
  root odd_parent : ParentLink
  parent : String → ParentLink

pub record ParsedEntry : Type 0 where
  pub id : String
  pub link : ParentLink

pub data ParseOutcome : Type 0 where
  parsed : ℕ → List ParsedEntry → ParseOutcome
  refused : IssueCode → ParseOutcome

pub as_text : Option Json → Option String
as_text (some (text s)) = some s
as_text _ = none

pub as_number : Option Json → Option ℕ
as_number (some (number n)) = some n
as_number _ = none

pub as_items : Option Json → Option Items
as_items (some (array items)) = some items
as_items _ = none

pub link_of : Option Json → ParentLink
link_of none = root
link_of (some null) = root
link_of (some (text s)) = parent s
link_of (some _) = odd_parent

pub is_text : String → Option Json → Bool
is_text s v = elim (as_text v) [ none ↦ false | some t ↦ str_eq t s ]

pub is_supported : Option Json → Bool
is_supported v = elim (as_number v) [
  | none ↦ false
  | some n ↦ leb 1 n && leb n backup_schema_version
]

pub parse_entry : Json → Option ParsedEntry
parse_entry j = elim (as_text (get_field "id" j)) [
  | none ↦ none
  | some id ↦
      if str_eq id ""
      then none
      else some (record { id = id; link = link_of (get_field "parentId" j) })
]

pub parse_entries : Items → Option (List ParsedEntry)
parse_entries no_item = some []
parse_entries (item j rest) =
    let more = parse_entries rest in
    elim (parse_entry j) [
      | none ↦ none
      | some e ↦ elim more [ none ↦ none | some es ↦ some (e ∷ es) ]
    ]

pub chunk_of_entries : ℕ → Option (List ParsedEntry) → ParseOutcome
chunk_of_entries seq none = refused manifest_invalid
chunk_of_entries seq (some es) = parsed seq es

pub chunk_of_items : ℕ → Option Items → ParseOutcome
chunk_of_items seq none = refused manifest_invalid
chunk_of_items seq (some items) = chunk_of_entries seq (parse_entries items)

pub chunk_of_seq : Option ℕ → Option Json → ParseOutcome
chunk_of_seq none entries = refused seq_mismatch
chunk_of_seq (some seq) entries = chunk_of_items seq (as_items entries)

pub parse_chunk_json : String → Json → ParseOutcome
parse_chunk_json session_id j =
    if not (is_text "kiwifs-backup-chunk" (get_field "kind" j))
    then refused schema_unsupported
    else if not (is_supported (get_field "schemaVersion" j))
    then refused schema_unsupported
    else if not (is_text session_id (get_field "sessionId" j))
    then refused session_mismatch
    else chunk_of_seq (as_number (get_field "seq" j)) (get_field "entries" j)

unfoldable pub is_in : String → List String → Bool
is_in id ids = any (λ x. str_eq x id) ids

pub when : Bool → IssueCode → List IssueCode
when true code = code ∷ []
when false code = []

-- The ids that were seen before, with those seen so far in front.
pub duplicates : List String → List String → List IssueCode
duplicates seen [] = []
duplicates seen (id ∷ ids) =
    when (is_in id seen) duplicate_coverage ++ duplicates (seen ++ id ∷ []) ids

pub same_ids : List String → List String → Bool
same_ids [] [] = true
same_ids (x ∷ xs) (y ∷ ys) = str_eq x y && same_ids xs ys
same_ids xs ys = false

unfoldable pub is_unlinked : List String → ParentLink → Bool
is_unlinked seen root = false
is_unlinked seen odd_parent = true
is_unlinked seen (parent id) = not (is_in id seen)

-- The links of the entries of one chunk.
pub link_issues : List String → List ParsedEntry → List IssueCode
link_issues seen [] = []
link_issues seen (e ∷ es) =
    when (is_unlinked seen e.link) unlinked_parent ++ link_issues (seen ++ e.id ∷ []) es

pub entry_ids : List ParsedEntry → List String
entry_ids es = map (λ e. e.id) es

-- The variables of the loop over the chunks.
pub record Checked : Type 0 where
  pub issues : List IssueCode
  pub covered : List String
  pub ordered_ok : Bool

pub same_option : Option String → Option String → Bool
same_option none none = true
same_option (some a) (some b) = str_eq a b
same_option _ _ = false

-- The checks of the covered range: the count, then the null endpoints, then the two ends.
pub range_issues : BackupManifest → Checked → List IssueCode
range_issues m c =
    when (not (m.entry_count == length c.covered) && c.ordered_ok) entry_count_mismatch
    ++ when (ltb 0 m.entry_count && not (is_some m.first_entry_id)) range_mismatch
    ++ when (ltb 0 m.entry_count && not (is_some m.last_entry_id)) range_mismatch
    ++ when
        (is_some m.first_entry_id
          && ltb 0 (length c.covered)
          && not (same_option m.first_entry_id (first_of c.covered)))
        range_mismatch
    ++ when
        (is_some m.last_entry_id
          && ltb 0 (length c.covered)
          && not (same_option m.last_entry_id (last_of c.covered)))
        range_mismatch

module _ (p : Platform) where
  pub parse_backup_chunk_text : p.Text → String → ParseOutcome
  parse_backup_chunk_text content session_id = elim (p.json_parse content) [
    | none ↦ refused checksum_mismatch
    | some j ↦ parse_chunk_json session_id j
  ]

  -- The record of a draft that `capture` keeps for the manifest.
  pub manifest_chunk : ChunkDraft p → ManifestChunk
  manifest_chunk d = record {
    seq = d.seq;
    checksum = d.checksum;
    byte_length = d.byte_length;
    entry_ids = d.entry_ids;
    oversized = d.oversized;
  }

  -- A map by its entries; the first of a key counts.
  pub get_chunk : ℕ → List (ℕ × p.Text) → Option p.Text
  get_chunk seq [] = none
  get_chunk seq ((n, content) ∷ rest) = if n == seq then some content else get_chunk seq rest

  pub unexpected : List ManifestChunk → List (ℕ × p.Text) → List IssueCode
  unexpected chunks [] = []
  unexpected chunks ((n, content) ∷ rest) =
      when (not (any (λ c. c.seq == n) chunks)) unexpected_chunk ++ unexpected chunks rest

  pub check_outcome : ManifestChunk → p.Text → ParseOutcome → Checked → Checked
  check_outcome r content (refused code) c = record c { issues = c.issues ++ code ∷ [] }
  check_outcome r content (parsed seq es) c = record {
    issues =
        c.issues
        ++ when (not (seq == r.seq)) seq_mismatch
        ++ when (not (p.byte_length content == r.byte_length)) byte_length_mismatch
        ++ when (not (same_ids (entry_ids es) r.entry_ids)) manifest_invalid
        ++ duplicates c.covered (entry_ids es);
    covered = c.covered ++ entry_ids es;
    ordered_ok = c.ordered_ok && seq == r.seq;
  }

  pub check_chunk : String → ManifestChunk → Option p.Text → Checked → Checked
  check_chunk session_id r none c = record c { issues = c.issues ++ missing_chunk ∷ [] }
  check_chunk session_id r (some content) c =
      check_outcome r content (parse_backup_chunk_text content session_id) (record c {
        issues =
            c.issues ++ when (not (str_eq (chunk_checksum p content) r.checksum)) checksum_mismatch;
      })

  pub check_chunks : String → List (ℕ × p.Text) → List ManifestChunk → Checked → Checked
  check_chunks session_id delivered [] c = c
  check_chunks session_id delivered (r ∷ rs) c =
      check_chunks session_id delivered rs (check_chunk session_id r (get_chunk r.seq delivered) c)

  -- The entries of a chunk for the second loop; none when it is missing or refused.
  pub entries_of : ParseOutcome → List ParsedEntry
  entries_of (refused code) = []
  entries_of (parsed seq es) = es

  pub delivered_entries : String → Option p.Text → List ParsedEntry
  delivered_entries session_id none = []
  delivered_entries session_id (some content) =
      entries_of (parse_backup_chunk_text content session_id)

  pub check_links : String → List (ℕ × p.Text) → List ManifestChunk → List String → List IssueCode
  check_links session_id delivered [] seen = []
  check_links session_id delivered (r ∷ rs) seen =
      let es = delivered_entries session_id (get_chunk r.seq delivered) in
      link_issues seen es ++ check_links session_id delivered rs (seen ++ entry_ids es)

  pub identity_issues : BackupManifest → String → String → Option String → List IssueCode
  identity_issues m session_id project_id scope =
      when (ltb backup_schema_version m.schema_version) schema_unsupported
      ++ when (not (str_eq m.session_id session_id)) session_mismatch
      ++ when (not (str_eq m.project_id project_id)) identity_mismatch
      ++ when (elim scope [ none ↦ false | some s ↦ not (str_eq m.scope s) ]) identity_mismatch

  pub checked_chunks : BackupManifest → List (ℕ × p.Text) → Checked
  checked_chunks m delivered =
      check_chunks m.session_id delivered m.chunks
        (record { issues = []; covered = []; ordered_ok = true })

  -- `verifyBackup`: its issues. It is `ok` when there are none.
  pub verify_backup :
      BackupManifest → List (ℕ × p.Text) → String → String → Option String → List IssueCode
  verify_backup m delivered session_id project_id scope =
      let c = checked_chunks m delivered in
      identity_issues m session_id project_id scope
      ++ unexpected m.chunks delivered
      ++ c.issues
      ++ range_issues m c
      ++ check_links m.session_id delivered m.chunks []
