-- ===== src/Backup/Verify/Complete.antt =====
-- src/backup/verify.ts: the verification of what the chunker and the manifest builder produce.
use pi_kiwifs_memory.Prelude.{
  ℕ, suc, ◌≤◌, ◌≡◌, ◌≢◌, refl, sym, ap, ◌∙◌, String, Bool, true, some, List, [], ◌∷◌, ◌++◌, map,
  length, eq_refl, ◌==◌, arith, All, any,
}
use mathlib.Core.List.{append-nil, append_assoc}
use pi_kiwifs_memory.Backup.Json.{Platform, IsFaithful}
use pi_kiwifs_memory.Backup.Chunker.{
  BackupView, ChunkDraft, draft_of, serialize_chunk, chunk_checksum,
}
use pi_kiwifs_memory.Backup.Chunker.Partition.{concat, is_over, drafts_of, IsCut}
use pi_kiwifs_memory.Backup.Verify.{
  ManifestChunk, BackupManifest, build_backup_manifest, when, link_issues, entry_ids, Checked,
  range_issues, manifest_chunk, get_chunk, unexpected, check_outcome, check_chunk, check_chunks,
  entries_of, delivered_entries, check_links, identity_issues, checked_chunks, verify_backup,
}
use pi_kiwifs_memory.Backup.Verify.Parsing.{view_of, IsNamed, parse_text-serialize_chunk}
use pi_kiwifs_memory.Backup.Verify.Tree.{
  ids_of, IsTree, ids_of-append, IsTree-append, IsTree-IsNamed, entry_ids-views, duplicates-IsTree,
  link_issues-IsTree, same_ids_refl,
}
use pi_kiwifs_memory.Backup.Verify.Range.{
  same_number, all_empty, fourth_empty, count_issue, no_range_issues,
}

module _ (p : Platform) (session_id : String) (max_bytes : ℕ) where
  -- What is delivered of drafts: their contents under their numbers.
  abbrev pub delivered_of : List (ChunkDraft p) → List (ℕ × p.Text)
  delivered_of [] = []
  delivered_of (d ∷ ds) = (d.seq, d.content) ∷ delivered_of ds

  abbrev records_of : ℕ → List (List BackupView) → List ManifestChunk
  records_of seq gs = map (manifest_chunk p) (drafts_of p session_id max_bytes seq gs)

  -- Every group's content is found under its number.
  abbrev Finds : List (ℕ × p.Text) → ℕ → List (List BackupView) → Type 0
  Finds delivered seq [] = Unit
  Finds delivered seq (g ∷ gs) =
      (get_chunk p seq delivered ≡ some (serialize_chunk p session_id seq g))
      × Finds delivered (suc seq) gs

  Finds-cons :
      (k seq : ℕ) (content : p.Text) (delivered : List (ℕ × p.Text)) (gs : List (List BackupView))
      → suc k ≤ seq
      → Finds delivered seq gs
      → Finds ((k, content) ∷ delivered) seq gs
  unfolding get_chunk
  Finds-cons k seq content delivered [] h f = tt
  Finds-cons k seq content delivered (g ∷ gs) h f =
      (ground (arith, h, f.0), Finds-cons k (suc seq) content delivered gs (omega (arith, h)) f.1)

  Finds-delivered :
      (seq : ℕ) (gs : List (List BackupView))
      → Finds (delivered_of (drafts_of p session_id max_bytes seq gs)) seq gs
  unfolding get_chunk draft_of
  Finds-delivered seq [] = tt
  Finds-delivered seq (g ∷ gs) = (
    rw (same_number seq) refl,
    Finds-cons seq (suc seq) _ _ gs (omega arith) (Finds-delivered (suc seq) gs),
  )

  -- The manifest of the drafts, which claims to cover `covered`.
  abbrev pub manifest_of :
      String
      → String
      → List (ChunkDraft p)
      → List (String × ℕ)
      → List (String × String)
      → List String
      → ℕ
      → BackupManifest
  manifest_of project_id scope drafts redactions omissions covered now =
      build_backup_manifest session_id project_id scope (map (manifest_chunk p) drafts) redactions
        omissions covered now

  module _ (faithful : IsFaithful p) where
    good : List String → Checked
    good covered = record { issues = []; covered = covered; ordered_ok = true }

    check_chunk-good :
        (seq : ℕ) (g : List BackupView) (over : Bool) (covered : List String)
        → IsTree covered g
        → check_chunk p session_id
            (manifest_chunk p (draft_of p session_id max_bytes seq g over))
            (some (serialize_chunk p session_id seq g))
            (good covered)
          ≡ good (covered ++ ids_of g)
    unfolding check_chunk check_outcome manifest_chunk draft_of good when
    check_chunk-good seq g over covered t =
        simp
          (
            parse_text-serialize_chunk p session_id seq g faithful (IsTree-IsNamed covered g t),
            entry_ids-views g,
            duplicates-IsTree covered g t,
            same_ids_refl (ids_of g),
            same_number seq,
            same_number (p.byte_length (serialize_chunk p session_id seq g)),
            eq_refl (chunk_checksum p (serialize_chunk p session_id seq g)),
          )
          refl

    read_back :
        (seq : ℕ) (g : List BackupView)
        → All IsNamed g
        → delivered_entries p session_id (some (serialize_chunk p session_id seq g)) ≡ map view_of g
    unfolding delivered_entries entries_of
    read_back seq g named = rw (parse_text-serialize_chunk p session_id seq g faithful named) refl

    check_chunks-good :
        (delivered : List (ℕ × p.Text)) (seq : ℕ) (gs : List (List BackupView))
        (covered : List String)
        → IsTree covered (concat gs)
        → Finds delivered seq gs
        → check_chunks p session_id delivered (records_of seq gs) (good covered)
          ≡ good (covered ++ ids_of (concat gs))
    unfolding check_chunks manifest_chunk draft_of
    check_chunks-good delivered seq [] covered t f = ap good (sym (append-nil covered))
    check_chunks-good delivered seq (g ∷ gs) covered t f =
        let (front, back) = IsTree-append covered g (concat gs) t in
        ap
          (λ o. check_chunks p session_id delivered (records_of (suc seq) gs) (
            check_chunk p session_id
              (manifest_chunk p
                (draft_of p session_id max_bytes seq g (is_over p session_id max_bytes seq g)))
              o (good covered)))
          f.0
        ∙ ap (check_chunks p session_id delivered (records_of (suc seq) gs))
            (check_chunk-good seq g _ covered front)
        ∙ check_chunks-good delivered (suc seq) gs (covered ++ ids_of g) back f.1
        ∙ ap good (
            append_assoc covered (ids_of g) (ids_of (concat gs))
            ∙ ap (λ t. covered ++ t) (sym (ids_of-append g (concat gs))))

    check_links-good :
        (delivered : List (ℕ × p.Text)) (seq : ℕ) (gs : List (List BackupView)) (seen : List String)
        → IsTree seen (concat gs)
        → Finds delivered seq gs
        → check_links p session_id delivered (records_of seq gs) seen ≡ []
    unfolding check_links manifest_chunk draft_of
    check_links-good delivered seq [] seen t f = refl
    check_links-good delivered seq (g ∷ gs) seen t f =
        let (front, back) = IsTree-append seen g (concat gs) t in
        let read : delivered_entries p session_id (get_chunk p seq delivered) ≡ map view_of g =
          ap (delivered_entries p session_id) f.0 ∙ read_back seq g (IsTree-IsNamed seen g front) in
        ap
          (λ es.
            link_issues seen es
            ++ check_links p session_id delivered (records_of (suc seq) gs) (seen ++ entry_ids es))
          read
        ∙ ap
            (λ t.
              t
              ++ check_links p session_id delivered (records_of (suc seq) gs)
                  (seen ++ entry_ids (map view_of g)))
            (link_issues-IsTree seen g front)
        ∙ ap (λ t. check_links p session_id delivered (records_of (suc seq) gs) (seen ++ t))
            (entry_ids-views g)
        ∙ check_links-good delivered (suc seq) gs (seen ++ ids_of g) back f.1

    -- Every number of the groups is that of a record.
    abbrev AllIn : List ManifestChunk → ℕ → List (List BackupView) → Type 0
    AllIn chunks seq [] = Unit
    AllIn chunks seq (g ∷ gs) = (any (λ c. c.seq == seq) chunks ≡ true) × AllIn chunks (suc seq) gs

    AllIn-cons :
        (c : ManifestChunk) (chunks : List ManifestChunk) (seq : ℕ) (gs : List (List BackupView))
        → AllIn chunks seq gs
        → AllIn (c ∷ chunks) seq gs
    AllIn-cons c chunks seq [] h = tt
    AllIn-cons c chunks seq (g ∷ gs) h = (ground (arith, h.0), AllIn-cons c chunks (suc seq) gs h.1)

    AllIn-records : (seq : ℕ) (gs : List (List BackupView)) → AllIn (records_of seq gs) seq gs
    unfolding manifest_chunk draft_of
    AllIn-records seq [] = tt
    AllIn-records seq (g ∷ gs) = (
      rw (same_number seq) refl,
      AllIn-cons
          (manifest_chunk p
            (draft_of p session_id max_bytes seq g (is_over p session_id max_bytes seq g)))
          (records_of (suc seq) gs) (suc seq) gs (AllIn-records (suc seq) gs),
    )

    unexpected-good :
        (chunks : List ManifestChunk) (seq : ℕ) (gs : List (List BackupView))
        → AllIn chunks seq gs
        → unexpected p chunks (delivered_of (drafts_of p session_id max_bytes seq gs)) ≡ []
    unfolding unexpected draft_of when
    unexpected-good chunks seq [] h = refl
    unexpected-good chunks seq (g ∷ gs) h = rw h.0 (unexpected-good chunks (suc seq) gs h.1)

    checked-good :
        (entries : List BackupView) (start : ℕ) (drafts : List (ChunkDraft p))
        → IsTree [] entries
        → IsCut p session_id max_bytes start entries drafts
        → check_chunks p session_id (delivered_of drafts) (map (manifest_chunk p) drafts) (good [])
          ≡ good (ids_of entries)
    checked-good entries start drafts tree cut = rw (cut.drawn) (
        check_chunks-good (delivered_of (drafts_of p session_id max_bytes start cut.groups)) start
          cut.groups [] (rw cut.whole tree) (Finds-delivered start cut.groups)
        ∙ ap (λ es. good (ids_of es)) cut.whole)

    identity-good :
        (m : BackupManifest) (project_id scope : String)
        → m.schema_version ≡ 1
        → m.session_id ≡ session_id
        → m.project_id ≡ project_id
        → m.scope ≡ scope
        → identity_issues p m session_id project_id (some scope) ≡ []
    unfolding identity_issues when
    identity-good m project_id scope v s j c =
        simp (v, s, j, c, eq_refl session_id, eq_refl project_id, eq_refl scope) refl

    -- The chunks of a cut, delivered with the manifest that is built for them, verify without an
    -- issue.
    pub verify-IsCut :
        (entries : List BackupView) (start : ℕ) (drafts : List (ChunkDraft p))
        (project_id scope : String) (redactions : List (String × ℕ))
        (omissions : List (String × String)) (now : ℕ)
        → IsTree [] entries
        → IsCut p session_id max_bytes start entries drafts
        → verify_backup p
            (manifest_of project_id scope drafts redactions omissions (ids_of entries) now)
            (delivered_of drafts)
            session_id
            project_id
            (some scope)
          ≡ []
    unfolding verify_backup checked_chunks build_backup_manifest good
    verify-IsCut entries start drafts project_id scope redactions omissions now tree cut =
        let m = manifest_of project_id scope drafts redactions omissions (ids_of entries) now in
        let checked = checked-good entries start drafts tree cut in
        let extra : unexpected p (map (manifest_chunk p) drafts) (delivered_of drafts) ≡ [] =
          rw cut.drawn (
            unexpected-good (records_of start cut.groups) start cut.groups
              (AllIn-records start cut.groups)) in
        let links : check_links p session_id (delivered_of drafts) (map (manifest_chunk p) drafts)
              []
            ≡ [] =
          rw cut.drawn (
            check_links-good (delivered_of (drafts_of p session_id max_bytes start cut.groups))
              start cut.groups [] (rw cut.whole tree) (Finds-delivered start cut.groups)) in
        all_empty (identity-good m project_id scope refl refl refl refl) extra
          (ap (λ c. c.issues) checked)
          (ap (range_issues m) checked ∙ no_range_issues m (good (ids_of entries)) refl refl refl)
          links

    -- A manifest that claims more or fewer entries than the chunks of a cut hold.
    pub verify-omitted :
        (entries : List BackupView) (start : ℕ) (drafts : List (ChunkDraft p))
        (project_id scope : String) (redactions : List (String × ℕ))
        (omissions : List (String × String)) (covered : List String) (now : ℕ)
        → IsTree [] entries
        → IsCut p session_id max_bytes start entries drafts
        → length covered ≢ length (ids_of entries)
        → verify_backup p
            (manifest_of project_id scope drafts redactions omissions covered now)
            (delivered_of drafts)
            session_id
            project_id
            (some scope)
          ≢ []
    unfolding verify_backup checked_chunks build_backup_manifest good
    verify-omitted entries start drafts project_id scope redactions omissions covered now tree cut
          differs empty =
        let m = manifest_of project_id scope drafts redactions omissions covered now in
        let checked = checked-good entries start drafts tree cut in
        let delivered = delivered_of drafts in
        let range =
          fourth_empty (identity_issues p m session_id project_id (some scope))
            (unexpected p m.chunks delivered) (checked_chunks p m delivered).issues
            (range_issues m (checked_chunks p m delivered))
            (check_links p session_id delivered m.chunks []) empty in
        count_issue m (good (ids_of entries)) differs refl
          (ap (range_issues m) (sym checked) ∙ range)
