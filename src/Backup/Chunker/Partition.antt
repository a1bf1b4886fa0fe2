-- ===== src/Backup/Chunker/Partition.antt =====
-- src/backup/chunker.ts: the chunks as consecutive groups of the entries.
use pi_kiwifs_memory.Prelude.{
  ℕ, suc, ◌+◌, ◌≤◌, ◌≡◌, ◌≢◌, refl, sym, ap, ◌∙◌, String, Bool, true, false, some, List, [], ◌∷◌,
  ◌++◌, length, length-append, ltb, leb, arith, inl, inr, ◌⊎◌, Bool-cases,
}
use mathlib.Core.List.{append-nil, append_assoc}
use pi_kiwifs_memory.Backup.Json.{Platform}
use pi_kiwifs_memory.Backup.Chunker.{
  BackupView, ChunkDraft, Chunking, draft_of, size_of, flush, alone, overflow, add_entry,
  add_entries, chunk_entries,
}

-- The entries of all groups, in order.
abbrev pub concat : List (List BackupView) → List BackupView
concat [] = []
concat (g ∷ gs) = g ++ concat gs

concat-append :
    (gs : List (List BackupView)) (g : List BackupView) → concat (gs ++ g ∷ []) ≡ concat gs ++ g
concat-append [] g = append-nil g
concat-append (h ∷ gs) g =
    ap (λ t. h ++ t) (concat-append gs g) ∙ sym (append_assoc h (concat gs) g)

module _ (p : Platform) (session_id : String) (max_bytes : ℕ) where
  abbrev pub is_over : ℕ → List BackupView → Bool
  is_over seq g = ltb max_bytes (size_of p session_id max_bytes seq g)

  -- One draft for each group, numbered upwards; a group over the bound is flagged.
  abbrev pub drafts_of : ℕ → List (List BackupView) → List (ChunkDraft p)
  drafts_of seq [] = []
  drafts_of seq (g ∷ gs) =
      draft_of p session_id max_bytes seq g (is_over seq g) ∷ drafts_of (suc seq) gs

  -- No group is empty, and one over the bound is a single entry.
  abbrev pub Bounded : ℕ → List (List BackupView) → Type 0
  Bounded seq [] = Unit
  Bounded seq (g ∷ gs) = ((g ≢ []) × (is_over seq g ≡ true → length g ≡ 1)) × Bounded (suc seq) gs

  drafts_of-append :
      (seq : ℕ) (gs : List (List BackupView)) (g : List BackupView)
      → drafts_of seq (gs ++ g ∷ [])
        ≡ drafts_of seq gs
          ++ draft_of p session_id max_bytes (seq + length gs) g (is_over (seq + length gs) g) ∷ []
  drafts_of-append seq [] g = let e : seq + 0 ≡ seq = omega arith in rw e refl
  drafts_of-append seq (h ∷ gs) g =
      let e : seq + suc (length gs) ≡ suc seq + length gs = omega arith in
      rw e (
        ap (λ t. draft_of p session_id max_bytes seq h (is_over seq h) ∷ t)
          (drafts_of-append (suc seq) gs g))

  Bounded-append :
      (seq : ℕ) (gs : List (List BackupView)) (g : List BackupView)
      → Bounded seq gs
      → (g ≢ []) × (is_over (seq + length gs) g ≡ true → length g ≡ 1)
      → Bounded seq (gs ++ g ∷ [])
  Bounded-append seq [] g b h = let e : seq + 0 ≡ seq = omega arith in (rw e at h, tt)
  Bounded-append seq (x ∷ gs) g b h =
      let e : seq + suc (length gs) ≡ suc seq + length gs = omega arith in
      (b.0, Bounded-append (suc seq) gs g b.1 (rw e at h))

  -- The drafts are those of bounded groups, which hold the entries in their order, each once.
  pub record IsCut (start : ℕ) (entries : List BackupView) (drafts : List (ChunkDraft p))
      : Type 0 where
    pub groups : List (List BackupView)
    pub whole : concat groups ≡ entries
    pub drawn : drafts ≡ drafts_of start groups
    pub bounded : Bounded start groups

  -- In the loop: what is flushed is cut, and what is pending fits.
  record IsGoing (start : ℕ) (entries : List BackupView) (c : Chunking p session_id max_bytes)
      : Type 0 where
    base : List BackupView
    cut : IsCut start base c.drafts
    numbered : c.next ≡ start + length cut.groups
    split : base ++ c.pending ≡ entries
    fits : (c.pending ≡ []) ⊎ (is_over c.next c.pending ≡ false)

  flush-IsGoing :
      (start : ℕ) (base : List BackupView) (over : Bool) (x : BackupView) (xs : List BackupView)
      (c : Chunking p session_id max_bytes) (cut : IsCut start base c.drafts)
      → c.next ≡ start + length cut.groups
      → is_over c.next (x ∷ xs) ≡ over
      → (over ≡ true → length (x ∷ xs) ≡ 1)
      → IsGoing start (base ++ x ∷ xs) (flush p session_id max_bytes over (x ∷ xs) c)
  unfolding flush
  flush-IsGoing start base over x xs c cut numbered e single = record {
    base = base ++ x ∷ xs;
    cut = record {
      groups = cut.groups ++ (x ∷ xs) ∷ [];
      whole = concat-append cut.groups (x ∷ xs) ∙ ap (λ t. t ++ x ∷ xs) cut.whole;
      drawn =
          ap (λ t. t ++ draft_of p session_id max_bytes c.next (x ∷ xs) over ∷ []) cut.drawn
          ∙ ap (λ t. drafts_of start cut.groups ++ t ∷ []) same_draft
          ∙ sym (drafts_of-append start cut.groups (x ∷ xs));
      bounded =
          Bounded-append start cut.groups (x ∷ xs) cut.bounded
            (λ h. cc h, λ o. single (sym e ∙ rw numbered o));
    };
    numbered = omega (arith, numbered, length-append cut.groups ((x ∷ xs) ∷ []));
    split = append-nil (base ++ x ∷ xs);
    fits = inl refl;
  }
    where
      same_draft :
          draft_of p session_id max_bytes c.next (x ∷ xs) over
          ≡ draft_of p session_id max_bytes
              (start + length cut.groups)
              (x ∷ xs)
              (is_over (start + length cut.groups) (x ∷ xs))
      same_draft = rw (← numbered, e) refl

  -- The entry that overflowed, with nothing pending.
  alone-IsGoing :
      (start : ℕ) (entries : List BackupView) (e : BackupView) (c : Chunking p session_id max_bytes)
      → IsGoing start entries c
      → c.pending ≡ []
      → IsGoing start (entries ++ e ∷ []) (alone p session_id max_bytes e c)
  unfolding alone
  alone-IsGoing start entries e c v empty =
      let same : v.base ≡ entries =
        sym (append-nil v.base) ∙ ap (λ t. v.base ++ t) (sym empty) ∙ v.split in
      rw (← same) (flush-IsGoing start v.base _ e [] c v.cut v.numbered refl (λ h. refl))

  overflow-IsGoing :
      (start : ℕ) (entries : List BackupView) (e : BackupView) (pending : List BackupView)
      (c : Chunking p session_id max_bytes)
      → IsGoing start entries c
      → c.pending ≡ pending
      → is_over c.next (pending ++ e ∷ []) ≡ true
      → IsGoing start (entries ++ e ∷ []) (overflow p session_id max_bytes e pending c)
  unfolding overflow flush
  overflow-IsGoing start entries e [] c v empty over =
      let same : v.base ≡ entries =
        sym (append-nil v.base) ∙ ap (λ t. v.base ++ t) (sym empty) ∙ v.split in
      rw (← same) (flush-IsGoing start v.base true e [] c v.cut v.numbered over (λ h. refl))
  overflow-IsGoing start entries e (x ∷ xs) c v some_pending over =
      let same : v.base ++ x ∷ xs ≡ entries = ap (λ t. v.base ++ t) (sym some_pending) ∙ v.split in
      let fits : is_over c.next (x ∷ xs) ≡ false = elim v.fits [
        | inl empty ↦ absurd (cc (empty, some_pending))
        | inr fits ↦ sym (ap (is_over c.next) some_pending) ∙ fits
      ] in
      rw (← same) (
        alone-IsGoing start (v.base ++ x ∷ xs) e (flush p session_id max_bytes false (x ∷ xs) c)
          (flush-IsGoing start v.base false x xs c v.cut v.numbered fits (λ h. absurd (cc h))) refl)

  add_entry-IsGoing :
      (start : ℕ) (entries : List BackupView) (e : BackupView) (c : Chunking p session_id max_bytes)
      → IsGoing start entries c
      → IsGoing start (entries ++ e ∷ []) (add_entry p session_id max_bytes e c)
  unfolding add_entry
  add_entry-IsGoing start entries e c v =
      elim (Bool-cases
        (leb (size_of p session_id max_bytes c.next (c.pending ++ e ∷ [])) max_bytes)) [
          | inl small ↦ simp small (record {
            base = v.base;
            cut = v.cut;
            numbered = v.numbered;
            split = sym (append_assoc v.base c.pending (e ∷ [])) ∙ ap (λ t. t ++ e ∷ []) v.split;
            fits = inr (ground (arith, small));
          })
          | inr large ↦
              simp large
                (overflow-IsGoing start entries e c.pending c v refl (ground (arith, large)))
        ]

  add_entries-IsGoing :
      (start : ℕ) (entries more : List BackupView) (c : Chunking p session_id max_bytes)
      → IsGoing start entries c
      → IsGoing start (entries ++ more) (add_entries p session_id max_bytes more c)
  unfolding add_entries
  add_entries-IsGoing start entries [] c v = rw append-nil v
  add_entries-IsGoing start entries (e ∷ es) c v =
      rw (← append_assoc entries (e ∷ []) es)
        (add_entries-IsGoing start (entries ++ e ∷ []) es _ (add_entry-IsGoing start entries e c v))

  last-IsCut :
      (start : ℕ) (entries pending : List BackupView) (c : Chunking p session_id max_bytes)
      → IsGoing start entries c
      → c.pending ≡ pending
      → IsCut start entries (flush p session_id max_bytes false pending c).drafts
  unfolding flush
  last-IsCut start entries [] c v empty =
      let same : v.base ≡ entries =
        sym (append-nil v.base) ∙ ap (λ t. v.base ++ t) (sym empty) ∙ v.split in
      rw (← same) v.cut
  last-IsCut start entries (x ∷ xs) c v some_pending =
      let same : v.base ++ x ∷ xs ≡ entries = ap (λ t. v.base ++ t) (sym some_pending) ∙ v.split in
      let fits : is_over c.next (x ∷ xs) ≡ false = elim v.fits [
        | inl empty ↦ absurd (cc (empty, some_pending))
        | inr fits ↦ sym (ap (is_over c.next) some_pending) ∙ fits
      ] in
      let last =
        flush-IsGoing start v.base false x xs c v.cut v.numbered fits (λ h. absurd (cc h)) in
      let all : last.base ≡ entries = sym (append-nil last.base) ∙ last.split ∙ same in
      rw (← all) last.cut

  -- For a bound of at least 256 bytes the chunks are made, and they are consecutive groups of the
  -- entries, numbered upwards from `seqStart`: every entry is in exactly one chunk, in its order,
  -- no chunk is empty, and a chunk over the bound has a single entry and is flagged as oversized.
  pub chunk_entries-IsCut :
      (entries : List BackupView) (start : ℕ)
      → 256 ≤ max_bytes
      → (drafts : List (ChunkDraft p)) × (chunk_entries p session_id max_bytes entries start
          ≡ some drafts)
        × IsCut start entries drafts
  unfolding chunk_entries
  chunk_entries-IsCut entries start h =
      let c =
        add_entries p session_id max_bytes entries
          (record { drafts = []; pending = []; next = start }) in
      let going =
        add_entries-IsGoing start [] entries (record { drafts = []; pending = []; next = start })
          (record {
            base = [];
            cut = record { groups = []; whole = refl; drawn = refl; bounded = tt };
            numbered = omega arith;
            split = refl;
            fits = inl refl;
          }) in
      let allowed : ltb max_bytes 256 ≡ false = ground arith in
      (_, rw allowed refl, last-IsCut start entries c.pending c going refl)

  concat-join : (gs hs : List (List BackupView)) → concat (gs ++ hs) ≡ concat gs ++ concat hs
  concat-join [] hs = refl
  concat-join (g ∷ gs) hs =
      ap (λ t. g ++ t) (concat-join gs hs) ∙ sym (append_assoc g (concat gs) (concat hs))

  drafts_of-join :
      (seq : ℕ) (gs hs : List (List BackupView))
      → drafts_of seq (gs ++ hs) ≡ drafts_of seq gs ++ drafts_of (seq + length gs) hs
  drafts_of-join seq [] hs = let e : seq + 0 ≡ seq = omega arith in rw e refl
  drafts_of-join seq (g ∷ gs) hs =
      let e : seq + suc (length gs) ≡ suc seq + length gs = omega arith in
      rw e (
        ap (λ t. draft_of p session_id max_bytes seq g (is_over seq g) ∷ t)
          (drafts_of-join (suc seq) gs hs))

  Bounded-join :
      (seq : ℕ) (gs hs : List (List BackupView))
      → Bounded seq gs
      → Bounded (seq + length gs) hs
      → Bounded seq (gs ++ hs)
  Bounded-join seq [] hs b h = let e : seq + 0 ≡ seq = omega arith in rw e at h
  Bounded-join seq (g ∷ gs) hs b h =
      let e : seq + suc (length gs) ≡ suc seq + length gs = omega arith in
      (b.0, Bounded-join (suc seq) gs hs b.1 (rw e at h))

  length-drafts_of : (seq : ℕ) (gs : List (List BackupView)) → length (drafts_of seq gs) ≡ length gs
  length-drafts_of seq [] = refl
  length-drafts_of seq (g ∷ gs) = ap suc (length-drafts_of (suc seq) gs)

  -- A cut that goes on where another one ended makes one cut with it.
  pub IsCut-join :
      (start : ℕ) (es fs : List BackupView) (ds gs : List (ChunkDraft p))
      → IsCut start es ds
      → IsCut (start + length ds) fs gs
      → IsCut start (es ++ fs) (ds ++ gs)
  IsCut-join start es fs ds gs v w =
      let count : length ds ≡ length v.groups =
        ap length v.drawn ∙ length-drafts_of start v.groups in
      record {
        groups = v.groups ++ w.groups;
        whole =
            concat-join v.groups w.groups
            ∙ ap (λ t. t ++ concat w.groups) v.whole
            ∙ ap (λ t. es ++ t) w.whole;
        drawn =
            ap (λ t. t ++ gs) v.drawn
            ∙ ap (λ t. drafts_of start v.groups ++ t) w.drawn
            ∙ ap (λ n. drafts_of start v.groups ++ drafts_of (start + n) w.groups) count
            ∙ sym (drafts_of-join start v.groups w.groups);
        bounded = Bounded-join start v.groups w.groups v.bounded (rw count at w.bounded);
      }
