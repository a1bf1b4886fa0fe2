-- ===== src/Backup/Capture/Records.antt =====
-- src/backup/capture.ts: the chunk records of a session against the jobs of the outbox.
use pi_kiwifs_memory.Prelude.{
  ℕ, zero, suc, ◌+◌, ◌≤◌, ◌≡◌, ◌≢◌, refl, sym, ap, ◌∙◌, Bool, true, false, not, some, List, [], ◌∷◌,
  ◌++◌, map, length, length-append, arith, Bool-cases, inl, inr, if◌then◌else◌,
}
use mathlib.Core.List.{append-nil, append_assoc}
use pi_kiwifs_memory.Backup.Json.{Platform}
use pi_kiwifs_memory.Backup.Chunker.{BackupView, ChunkDraft}
use pi_kiwifs_memory.Backup.Chunker.Partition.{IsCut, IsCut-join, chunk_entries-IsCut}
use pi_kiwifs_memory.Backup.Verify.{manifest_chunk}
use pi_kiwifs_memory.Backup.Capture.{
  CaptureOptions, fresh_views, PolicySplit, split_views, nothing_split, CaptureResult, threw,
  BackupJob, chunk_job, manifest_job, Capture, Acceptance, enqueue_chunk, enqueue_chunks, advance,
  manifest_now, persist, finish, capture_drafts, capture_fresh, capture,
}

module _ (p : Platform) where
  -- The chunks among the jobs, in the order of their acceptance.
  abbrev pub chunks_of : List (BackupJob p) → List (ChunkDraft p)
  chunks_of [] = []
  chunks_of (chunk_job d ∷ js) = d ∷ chunks_of js
  chunks_of (manifest_job m ∷ js) = chunks_of js

  chunks_of-append :
      (js ks : List (BackupJob p)) → chunks_of (js ++ ks) ≡ chunks_of js ++ chunks_of ks
  chunks_of-append [] ks = refl
  chunks_of-append (chunk_job d ∷ js) ks = ap (λ t. d ∷ t) (chunks_of-append js ks)
  chunks_of-append (manifest_job m ∷ js) ks = chunks_of-append js ks

  -- The chunks that the outbox accepted are a cut of `entries`, and the session's records and its
  -- next number are theirs.
  pub record IsBackedUp (o : CaptureOptions) (entries : List BackupView) (c : Capture p)
      : Type 0 where
    pub cut : IsCut p o.session_id o.max_chunk_bytes 0 entries (chunks_of c.jobs)
    pub recorded : c.session.chunks ≡ map (manifest_chunk p) (chunks_of c.jobs)
    pub numbered : c.session.next_seq ≡ length (chunks_of c.jobs)

  map-join :
      (ds es : List (ChunkDraft p))
      → map (manifest_chunk p) (ds ++ es) ≡ map (manifest_chunk p) ds ++ map (manifest_chunk p) es
  map-join [] es = refl
  map-join (d ∷ ds) es = ap (λ t. manifest_chunk p d ∷ t) (map-join ds es)

  -- What accepted chunks do to a capture.
  pub record IsQueued (ds : List (ChunkDraft p)) (c c' : Capture p) : Type 0 where
    queued : chunks_of c'.jobs ≡ chunks_of c.jobs ++ ds
    noted : c'.session.chunks ≡ c.session.chunks ++ map (manifest_chunk p) ds
    same_next : c'.session.next_seq ≡ c.session.next_seq
    pub same_cover : c'.session.covered_entry_ids ≡ c.session.covered_entry_ids

  pub enqueue_chunks-IsQueued :
      (a : Acceptance p) (ds : List (ChunkDraft p)) (c : Capture p)
      → (enqueue_chunks p a ds c).1 ≡ false
      → IsQueued ds c (enqueue_chunks p a ds c).0
  unfolding enqueue_chunks enqueue_chunk
  enqueue_chunks-IsQueued a [] c h = record {
    queued = sym (append-nil (chunks_of c.jobs));
    noted = sym (append-nil c.session.chunks);
    same_next = refl;
    same_cover = refl;
  }
  enqueue_chunks-IsQueued a (d ∷ ds) c h = elim (Bool-cases (not (a.accepts d.seq))) [
    | inl refuses ↦ absurd (cc (simp refuses at h))
    | inr accepts ↦ elim (Bool-cases (a.has_path d.seq)) [
      | inr unnamed ↦ absurd (cc (simp (accepts, unnamed) at h))
      | inl named ↦
          let rest =
            enqueue_chunks-IsQueued a ds (enqueue_chunk p d c) (simp (accepts, named) at h) in
          simp (accepts, named)
            (record {
              queued =
                  rest.queued
                  ∙ ap (λ t. t ++ ds) (chunks_of-append c.jobs (chunk_job d ∷ []))
                  ∙ append_assoc (chunks_of c.jobs) (d ∷ []) ds;
              noted =
                  rest.noted
                  ∙ append_assoc c.session.chunks (manifest_chunk p d ∷ [])
                      (map (manifest_chunk p) ds);
              same_next = rest.same_next;
              same_cover = rest.same_cover;
            })
    ]
  ]

  advance-IsBackedUp :
      (o : CaptureOptions) (s : PolicySplit) (entries : List BackupView) (ds : List (ChunkDraft p))
      (c c' : Capture p)
      → IsBackedUp o entries c
      → IsCut p o.session_id o.max_chunk_bytes c.session.next_seq s.candidates ds
      → IsQueued ds c c'
      → IsBackedUp o (entries ++ s.candidates) (advance p o s (length ds) c')
  unfolding advance
  advance-IsBackedUp o s entries ds c c' v cut q =
      let from_zero : length (chunks_of c.jobs) ≡ 0 + length (chunks_of c.jobs) = omega arith in
      record {
        cut = rw q.queued (
            IsCut-join p o.session_id o.max_chunk_bytes 0 entries s.candidates (chunks_of c.jobs) ds
              v.cut (rw (v.numbered ∙ from_zero) at cut));
        recorded =
            q.noted
            ∙ ap (λ t. t ++ map (manifest_chunk p) ds) v.recorded
            ∙ sym (map-join (chunks_of c.jobs) ds)
            ∙ ap (map (manifest_chunk p)) (sym q.queued);
        numbered =
            ap (λ n. n + length ds) (q.same_next ∙ v.numbered)
            ∙ sym (length-append (chunks_of c.jobs) ds)
            ∙ ap length (sym q.queued);
      }

  finish-IsBackedUp :
      (o : CaptureOptions) (a : Acceptance p) (s : PolicySplit) (fresh made : ℕ)
      (entries : List BackupView) (c : Capture p)
      → IsBackedUp o entries (advance p o s made c)
      → (finish p o a s fresh made c).1 ≢ threw
      → IsBackedUp o entries (finish p o a s fresh made c).0
  unfolding finish persist
  finish-IsBackedUp o a s fresh zero entries c v ok = record {
    cut = v.cut;
    recorded = v.recorded;
    numbered = v.numbered;
  }
  finish-IsBackedUp o a s fresh (suc made) entries c v ok = elim (Bool-cases a.accepts_manifest) [
    | inr refuses ↦ absurd (ok (simp refuses refl))
    | inl accepts ↦
        let same : chunks_of (
              (advance p o s (suc made) c).jobs
              ++ manifest_job (manifest_now p o (advance p o s (suc made) c).session) ∷ [])
            ≡ chunks_of (advance p o s (suc made) c).jobs =
          chunks_of-append (advance p o s (suc made) c).jobs _ ∙ append-nil _ in
        simp accepts (record {
          cut = rw same v.cut;
          recorded = v.recorded ∙ ap (map (manifest_chunk p)) (sym same);
          numbered = v.numbered ∙ ap length (sym same);
        })
  ]

  capture_drafts-IsBackedUp :
      (o : CaptureOptions) (a : Acceptance p) (s : PolicySplit) (fresh : ℕ)
      (entries : List BackupView) (ds : List (ChunkDraft p)) (c : Capture p)
      → IsBackedUp o entries c
      → IsCut p o.session_id o.max_chunk_bytes c.session.next_seq s.candidates ds
      → (capture_drafts p o a s fresh (some ds) c).1 ≢ threw
      → IsBackedUp o (entries ++ s.candidates) (capture_drafts p o a s fresh (some ds) c).0
  unfolding capture_drafts
  capture_drafts-IsBackedUp o a s fresh entries ds c v cut ok =
      elim (Bool-cases (enqueue_chunks p a ds c).1) [
        | inl refused ↦ absurd (ok (simp refused refl))
        | inr all_in ↦
            let q = enqueue_chunks-IsQueued a ds c all_in in
            simp all_in (
              finish-IsBackedUp o a s fresh (length ds) (entries ++ s.candidates)
                (enqueue_chunks p a ds c).0 (advance-IsBackedUp o s entries ds c _ v cut q)
                (simp all_in at ok))
      ]

  -- The entries that a capture adds: the candidates among the fresh views.
  abbrev pub added : CaptureOptions → List BackupView → List BackupView
  added o views = (split_views o views nothing_split).candidates

  capture_fresh-IsBackedUp :
      (o : CaptureOptions) (a : Acceptance p) (views entries : List BackupView) (c : Capture p)
      → 256 ≤ o.max_chunk_bytes
      → IsBackedUp o entries c
      → (capture_fresh p o a views c).1 ≢ threw
      → IsBackedUp o (entries ++ added o views) (capture_fresh p o a views c).0
  unfolding capture_fresh split_views
  capture_fresh-IsBackedUp o a [] entries c h v ok = rw append-nil v
  capture_fresh-IsBackedUp o a (x ∷ xs) entries c h v ok =
      let s = split_views o (x ∷ xs) nothing_split in
      let (ds, made, cut) =
        chunk_entries-IsCut p o.session_id o.max_chunk_bytes s.candidates c.session.next_seq h in
      rw made (capture_drafts-IsBackedUp o a s (length (x ∷ xs)) entries ds c v cut (rw made at ok))

  if-IsBackedUp :
      (o : CaptureOptions) (test : Bool) (es fs : List BackupView) (v w : Capture p × CaptureResult)
      → (v.1 ≢ threw → IsBackedUp o es v.0)
      → (w.1 ≢ threw → IsBackedUp o fs w.0)
      → (if test then v else w).1 ≢ threw
      → IsBackedUp o (if test then es else fs) (if test then v else w).0
  if-IsBackedUp o true es fs v w x y = x
  if-IsBackedUp o false es fs v w x y = y

  if-same :
      (test : Bool) (c : Capture p) (v w : Capture p × CaptureResult) (z : Capture p)
      → v.0 ≡ c
      → w.0 ≡ z
      → (if test then v else w).0 ≡ (if test then c else z)
  if-same true c v w z x y = x
  if-same false c v w z x y = y

  -- A capture that returns keeps the session backed up: the chunks that the outbox accepted are a
  -- cut of all entries that were ever chunked, those of this capture at the end, and the session's
  -- records and its next number are exactly those of these chunks. In private mode, or with invalid
  -- exclusion rules, the session, in memory and on disk, and the jobs are exactly as before.
  pub capture-IsBackedUp :
      (o : CaptureOptions) (a : Acceptance p) (views entries : List BackupView) (c : Capture p)
      → 256 ≤ o.max_chunk_bytes
      → IsBackedUp o entries c
      → (capture p o a views c).1 ≢ threw
      → IsBackedUp o
          (if o.private_mode
            then entries
            else if not o.exclusions_valid
            then entries
            else entries ++ added o (fresh_views c.session.covered_entry_ids views))
          (capture p o a views c).0
        × ((capture p o a views c).0 ≡ (
            if o.private_mode
            then c
            else if not o.exclusions_valid
            then c
            else (capture_fresh p o a (fresh_views c.session.covered_entry_ids views) c).0))
  unfolding capture
  capture-IsBackedUp o a views entries c h v ok = (
    if-IsBackedUp o o.private_mode _ _ _ _ (λ returned. v)
        (if-IsBackedUp o (not o.exclusions_valid) _ _ _ _ (λ returned. v)
          (capture_fresh-IsBackedUp o a (fresh_views c.session.covered_entry_ids views) entries c h
            v))
        ok,
    if-same o.private_mode c _ _ _ refl (if-same (not o.exclusions_valid) c _ _ _ refl refl),
  )
