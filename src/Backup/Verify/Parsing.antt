-- ===== src/Backup/Verify/Parsing.antt =====
-- src/backup/verify.ts, `parseBackupChunkText`: what it reads of a chunk that `serializeChunk`
-- wrote.
use pi_kiwifs_memory.Prelude.{
  ℕ, ◌≡◌, refl, String, false, Option, none, some, List, [], ◌∷◌, map, str_eq, eq_refl, All,
}
use pi_kiwifs_memory.Backup.Json.{find_field, get_field, Platform, IsFaithful}
use pi_kiwifs_memory.Backup.Chunker.{
  BackupView, text_or_null, entry_json, entries_json, chunk_json, serialize_chunk,
}
use pi_kiwifs_memory.Backup.Verify.{
  ParentLink, root, parent, ParsedEntry, parsed, link_of, as_text, as_number, as_items, is_text,
  is_supported, parse_entry, parse_entries, chunk_of_entries, chunk_of_items, chunk_of_seq,
  parse_chunk_json, parse_backup_chunk_text,
}

abbrev pub link_to : Option String → ParentLink
link_to none = root
link_to (some id) = parent id

abbrev pub view_of : BackupView → ParsedEntry
view_of e = record { id = e.id; link = link_to e.parent_id }

abbrev pub IsNamed : BackupView → Type 0
IsNamed e = str_eq e.id "" ≡ false

link_of-text_or_null : (o : Option String) → link_of (some (text_or_null o)) ≡ link_to o
unfolding link_of text_or_null
link_of-text_or_null none = refl
link_of-text_or_null (some id) = refl

parse_entry-entry_json :
    (e : BackupView) → IsNamed e → parse_entry (entry_json e) ≡ some (view_of e)
unfolding parse_entry as_text get_field find_field entry_json
parse_entry-entry_json e h = rw (h, link_of-text_or_null e.parent_id) refl

parse_entries-entries_json :
    (es : List BackupView)
    → All IsNamed es
    → parse_entries (entries_json es) ≡ some (map view_of es)
unfolding parse_entries entries_json
parse_entries-entries_json [] h = refl
parse_entries-entries_json (e ∷ es) h =
    rw
      (entries_json, parse_entries, parse_entry-entry_json e h.0, parse_entries-entries_json es h.1)
      refl

parse_chunk_json-chunk_json :
    (session_id : String) (seq : ℕ) (es : List BackupView)
    → All IsNamed es
    → parse_chunk_json session_id (chunk_json session_id seq es) ≡ parsed seq (map view_of es)
unfolding parse_chunk_json chunk_json get_field find_field is_text is_supported as_text as_number
    as_items chunk_of_seq chunk_of_items chunk_of_entries
parse_chunk_json-chunk_json session_id seq es h =
    rw (eq_refl session_id, parse_entries-entries_json es h) refl

-- On a faithful platform a written chunk is read back: its number, and the ids and parents of its
-- entries.
pub parse_text-serialize_chunk :
    (p : Platform) (session_id : String) (seq : ℕ) (es : List BackupView)
    → IsFaithful p
    → All IsNamed es
    → parse_backup_chunk_text p (serialize_chunk p session_id seq es) session_id
      ≡ parsed seq (map view_of es)
unfolding parse_backup_chunk_text serialize_chunk IsFaithful
parse_text-serialize_chunk p session_id seq es faithful h =
    rw (parse_backup_chunk_text, serialize_chunk, faithful (chunk_json session_id seq es))
      (parse_chunk_json-chunk_json session_id seq es h)
