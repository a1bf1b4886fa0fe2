-- ===== src/Cursor/Local.antt =====
-- src/outbox/cursor.ts: the authoritative cursor, and the mode for a newer file format.
use pi_kiwifs_memory.Prelude.{ℕ, ◌≤◌, ◌<◌, ◌≡◌, ◌≢◌, refl, true, false, some, lt→ltb, arith, String}
use pi_kiwifs_memory.Outbox.{Io, completes, fails_before_rename, fails_after_rename}
use pi_kiwifs_memory.Cursor.{
  CursorState, CursorFile, returns, throws, cursor_read_only, save, set_backend,
  flag_reconcile_needed, advance_local_seq, parsed, open_cursor,
}

-- `advanceLocalSeq` never lowers the cursor; when it returns on a supported format the cursor is at
-- least `seq`, and the file holds it or it was there already.
advance-monotone :
    (seq : ℕ) (io : Io) (f : CursorFile)
    → let w = advance_local_seq seq io f in
      (f.state.local_seq ≤ w.0.state.local_seq)
      × (w.1 ≡ returns tt → seq ≤ w.0.state.local_seq)
      × (w.1 ≡ returns tt → f.file ≡ some f.state → w.0.file ≡ some w.0.state)
unfolding advance_local_seq save
advance-monotone seq completes f = ground arith
advance-monotone seq fails_before_rename f = ground arith
advance-monotone seq fails_after_rename f = ground arith

-- A file of a newer format opens with its cursor kept and flagged, the file as it was, and from
-- then on `advanceLocalSeq` and `setBackend` refuse and change nothing.
pub newer-read_only :
    (start s : CursorState) (open_io : Io)
    → start.schema_version < s.schema_version
    → let f = (open_cursor start (parsed s) open_io).0 in
      (f.state ≡ record s { reconcile_needed = true })
      × (f.file ≡ some s)
      × ((seq : ℕ) (io : Io) → advance_local_seq seq io f ≡ (f, throws cursor_read_only))
      × ((seq : ℕ) (hash : String) (io : Io)
          → set_backend seq hash io f ≡ (f, throws cursor_read_only))
unfolding open_cursor advance_local_seq set_backend
newer-read_only start s open_io h =
    simp (lt→ltb start.schema_version s.schema_version h)
      (refl, refl, λ seq io. refl, λ seq hash io. refl)

-- `flagReconcileNeeded` has no such guard: on a newer file that is not flagged yet, a flag that is
-- saved replaces the file.
pub newer-flag_rewrites :
    (start s : CursorState) (open_io : Io)
    → start.schema_version < s.schema_version
    → s.reconcile_needed ≡ false
    → let f = (open_cursor start (parsed s) open_io).0 in
      (flag_reconcile_needed completes f).0.file ≢ f.file
unfolding open_cursor flag_reconcile_needed save
newer-flag_rewrites start s open_io h unflagged =
    simp (lt→ltb start.schema_version s.schema_version h) (λ same. cc (same, unflagged))
