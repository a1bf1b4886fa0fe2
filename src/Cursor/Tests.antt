-- ===== src/Cursor/Tests.antt =====
-- Runs of the cursor of src/outbox/cursor.ts, and its theorems at concrete inputs.
use pi_kiwifs_memory.Prelude.{ℕ, ◌≡◌, ◌≢◌, refl, String, true, false, none, some, [], ◌∷◌, arith}
use pi_kiwifs_memory.Outbox.{Io, completes}
use pi_kiwifs_memory.Cursor.{
  CursorState, CursorFile, returns, throws, cursor_read_only, parsed, open_cursor, set_backend,
  advance_local_seq, flag_reconcile_needed, ReconcilePage, Fetch, reconcile,
  default_reconcile_limits,
}
use pi_kiwifs_memory.Cursor.Local.{newer-read_only, newer-flag_rewrites}
use pi_kiwifs_memory.Cursor.Reconcile.{Concluded, reconcile-Concluded}
use pi_kiwifs_memory.Cursor.Continuity.{Accounts, reconcile-Accounts, reconcile-page_gap}

abbrev start : CursorState
start = record {
  schema_version = 1;
  local_seq = 5;
  backend_last_seq = some 7;
  last_commit_hash = some "c7";
  reconcile_needed = false;
}

abbrev cursor : CursorFile
cursor = record { state = start; newer_schema = none; file = some start }

abbrev newer : CursorState
newer = record start { schema_version = 2 }

-- One page with the changes 8 and 9.
abbrev two_changes : ReconcilePage
two_changes = record { changes = 8 ∷ 9 ∷ []; commit_hash = "c9"; has_more = false }

abbrev feed : Fetch
feed n since = some two_changes

abbrev gapped : Fetch
gapped n since = some (record { changes = 8 ∷ 20 ∷ []; commit_hash = "c20"; has_more = false })

feed-page : (page : ReconcilePage) → some two_changes ≡ some page → two_changes ≡ page
feed-page page e = cc

newer-read_only_example :
    let f = (open_cursor start (parsed newer) completes).0 in
    (f.state ≡ record newer { reconcile_needed = true })
    × (f.file ≡ some newer)
    × ((seq : ℕ) (io : Io) → advance_local_seq seq io f ≡ (f, throws cursor_read_only))
    × ((seq : ℕ) (hash : String) (io : Io)
        → set_backend seq hash io f ≡ (f, throws cursor_read_only))
newer-read_only_example = newer-read_only start newer completes (omega arith)

newer-flag_rewrites_example :
    let f = (open_cursor start (parsed newer) completes).0 in
    (flag_reconcile_needed completes f).0.file ≢ f.file
newer-flag_rewrites_example = newer-flag_rewrites start newer completes (omega arith) refl

reconcile-Concluded_example :
    Concluded default_reconcile_limits 2 cursor
      (reconcile default_reconcile_limits feed completes cursor)
reconcile-Concluded_example =
    reconcile-Concluded default_reconcile_limits feed completes 2
      (λ n since page e. rw (← feed-page page e) (omega arith)) cursor

reconcile-Accounts_example : Accounts 7 (reconcile default_reconcile_limits feed completes cursor)
reconcile-Accounts_example =
    reconcile-Accounts default_reconcile_limits feed completes
      (λ n since page e. rw (← feed-page page e) (refl, tt)) cursor 7 refl (omega arith)

reconcile-page_gap_example :
    let w = reconcile (record { max_pages = 20; max_changes = 10000 }) gapped completes cursor in
    (w.0.state.backend_last_seq ≡ some 20)
    × (w.0.state.reconcile_needed ≡ false)
    × (w.1 ≡ returns (record { pages = 1; changes = 2; drift = false; paused = false }))
reconcile-page_gap_example = reconcile-page_gap 19 9999 gapped cursor 7 20 "c20" refl refl refl
