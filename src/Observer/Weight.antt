-- ===== src/Observer/Weight.antt =====
-- src/observation/scheduler.ts: how often an entry is pending or consumed, and what changes it.
use pi_kiwifs_memory.Prelude.{
  ℕ, ◌+◌, ◌≤◌, ◌≡◌, refl, ap, String, Bool, true, false, ◌&&◌, ◌||◌, not, some, List, [], ◌∷◌, ◌++◌,
  filter, length, str_eq, eq_iff, arith, Bool-cases, inl, inr, ltb, ◌==◌,
}
use pi_kiwifs_memory.Observer.{
  SourceEntryView, PendingBatchRecord, Observer, ObserverOptions, member, in_batches, ids_of,
  is_unprocessed, fill_batch, union, merge_into, remove_batch, find_batch, note_failure,
  reset_retry, estimate_tokens,
}

abbrev pub one_if : Bool → ℕ
one_if true = 1
one_if false = 0

-- In how many batches an entry is pending.
abbrev pub count : String → List PendingBatchRecord → ℕ
count id [] = 0
count id (b ∷ bs) = one_if (member id b.entry_ids) + count id bs

-- How many batches have an operation id.
abbrev pub count_op : String → List PendingBatchRecord → ℕ
count_op op [] = 0
count_op op (b ∷ bs) = one_if (str_eq b.op_id op) + count_op op bs

-- In how many places an entry is pending or consumed.
abbrev pub weight : String → List PendingBatchRecord → List String → ℕ
weight id bs consumed = count id bs + one_if (member id consumed)

pub member-append :
    (id : String) (xs ys : List String) → member id (xs ++ ys) ≡ member id xs || member id ys
unfolding member
member-append id [] ys = refl
member-append id (x ∷ xs) ys = ground (arith, member-append id xs ys)

pub count-append :
    (id : String) (bs cs : List PendingBatchRecord)
    → count id (bs ++ cs) ≡ count id bs + count id cs
count-append id [] cs = omega arith
count-append id (b ∷ bs) cs = omega (arith, count-append id bs cs)

pub count_op-append :
    (op : String) (bs cs : List PendingBatchRecord)
    → count_op op (bs ++ cs) ≡ count_op op bs + count_op op cs
count_op-append op [] cs = omega arith
count_op-append op (b ∷ bs) cs = omega (arith, count_op-append op bs cs)

count-in_batches :
    (id : String) (bs : List PendingBatchRecord) → in_batches id bs ≡ false → count id bs ≡ 0
unfolding in_batches
count-in_batches id [] h = refl
count-in_batches id (b ∷ bs) h = ground (arith, count-in_batches id bs, h)

module _ (o : ObserverOptions) where
  free_entry :
      (e : SourceEntryView) (s : Observer)
      → is_unprocessed o s e ≡ true
      → (member e.id s.consumed ≡ false) × (in_batches e.id s.pending ≡ false)
  unfolding is_unprocessed
  free_entry e s h = ground (arith, h)

  -- A candidate is nowhere yet.
  pub select_weight :
      (id : String) (es : List SourceEntryView) (s : Observer)
      → member id (ids_of (filter (is_unprocessed o s) es)) ≡ true
      → weight id s.pending s.consumed ≡ 0
  unfolding member ids_of is_unprocessed
  select_weight id [] s h = cc
  select_weight id (e ∷ es) s h = elim (Bool-cases (is_unprocessed o s e)) [
    | inr out ↦ select_weight id es s (simp out at h)
    | inl open_entry ↦ elim (Bool-cases (str_eq e.id id)) [
      | inr other ↦ select_weight id es s (ground (arith, simp open_entry at h, other))
      | inl same ↦
          let (free, apart) = free_entry e s open_entry in
          let eq = (eq_iff e.id id).0 same in
          omega (arith, count-in_batches id s.pending (rw eq at apart), ap one_if (rw eq at free))
    ]
  ]

  pub member-fill_batch :
      (id : String) (ids : List String) (tokens : ℕ) (es : List SourceEntryView)
      → member id (fill_batch o ids tokens es) ≡ true
      → (member id ids || member id (ids_of es)) ≡ true
  unfolding fill_batch ids_of member
  member-fill_batch id ids tokens [] h = ground (arith, h)
  member-fill_batch id ids tokens (e ∷ es) h =
      elim (Bool-cases
        (not (length ids == 0) && ltb o.input_budget_tokens (tokens + estimate_tokens o e.text))) [
          | inl full ↦ ground (arith, simp full at h)
          | inr room ↦
              let later =
                member-fill_batch id (ids ++ e.id ∷ []) (tokens + estimate_tokens o e.text) es
                  (simp room at h) in
              let grown = member-append id ids (e.id ∷ []) in ground (arith, later, grown)
        ]

  member-union :
      (id : String) (a xs : List String) → member id (union o a xs) ≡ member id a || member id xs
  unfolding union member
  member-union id a [] = ground arith
  member-union id a (x ∷ xs) = elim (Bool-cases (member x a)) [
    | inl known ↦
        let here : str_eq x id ≡ true → member id a ≡ true =
          λ same. (rw ((eq_iff x id).0 same) at known) in
        simp known (ground (arith, member-union id a xs, here))
    | inr new ↦
        simp new (ground (arith, member-union id (a ++ x ∷ []) xs, member-append id a (x ∷ [])))
  ]

  pub count-merge_into :
      (id : String) (batch : PendingBatchRecord) (bs : List PendingBatchRecord)
      → (count id bs ≤ count id (merge_into o batch bs))
        × (count id (merge_into o batch bs) ≤ count id bs + one_if (member id batch.entry_ids))
  unfolding merge_into
  count-merge_into id batch [] = ground arith
  count-merge_into id batch (b ∷ bs) =
      let grown = member-union id b.entry_ids batch.entry_ids in ground (arith, grown)

  pub count_op-merge_into :
      (op : String) (batch : PendingBatchRecord) (bs : List PendingBatchRecord)
      → count_op op (merge_into o batch bs) ≡ count_op op bs
  unfolding merge_into
  count_op-merge_into op batch [] = refl
  count_op-merge_into op batch (b ∷ bs) = refl

  count-remove_batch :
      (id op : String) (bs : List PendingBatchRecord)
      → count_op op bs ≡ 0
      → count id (remove_batch o op bs) ≡ count id bs
  unfolding remove_batch
  count-remove_batch id op [] none_left = refl
  count-remove_batch id op (b ∷ bs) none_left = elim (Bool-cases (str_eq b.op_id op)) [
    | inl same ↦ omega (arith, none_left, ap one_if same)
    | inr other ↦
        let rest = count-remove_batch id op bs (omega (arith, none_left)) in
        simp other (omega (arith, rest))
  ]

  -- Removing the one batch of an operation takes its entries out of the count.
  pub count-find_batch :
      (id op : String) (bs : List PendingBatchRecord) (b : PendingBatchRecord)
      → count_op op bs ≤ 1
      → find_batch o op bs ≡ some b
      → (count id (remove_batch o op bs) + one_if (member id b.entry_ids) ≡ count id bs)
        × (b.op_id ≡ op)
  unfolding find_batch remove_batch
  count-find_batch id op [] b unique found = cc
  count-find_batch id op (c ∷ bs) b unique found = elim (Bool-cases (str_eq c.op_id op)) [
    | inl same ↦
        let eq : c ≡ b = cc in
        let rest = count-remove_batch id op bs (omega (arith, unique, ap one_if same)) in
        (
          simp same (omega (arith, rest, ap (λ x. one_if (member id x.entry_ids)) eq)),
          rw eq at ((eq_iff c.op_id op).0 same),
        )
    | inr other ↦
        let (rest, eq) =
          count-find_batch id op bs b (omega (arith, unique)) (simp other at found) in
        (simp other (omega (arith, rest)), eq)
  ]

  pub count_op-remove_batch :
      (op gone : String) (bs : List PendingBatchRecord)
      → count_op op (remove_batch o gone bs) ≤ count_op op bs
  unfolding remove_batch
  count_op-remove_batch op gone [] = omega arith
  count_op-remove_batch op gone (b ∷ bs) = ground (arith, count_op-remove_batch op gone bs)

  pub count-note_failure :
      (id op : String) (now : ℕ) (bs : List PendingBatchRecord)
      → count id (note_failure o op now bs) ≡ count id bs
  unfolding note_failure
  count-note_failure id op now [] = refl
  count-note_failure id op now (b ∷ bs) = elim (Bool-cases (str_eq b.op_id op)) [
    | inl same ↦ simp same (omega (arith, count-note_failure id op now bs))
    | inr other ↦ simp other (omega (arith, count-note_failure id op now bs))
  ]

  pub count_op-note_failure :
      (op failed : String) (now : ℕ) (bs : List PendingBatchRecord)
      → count_op op (note_failure o failed now bs) ≡ count_op op bs
  unfolding note_failure
  count_op-note_failure op failed now [] = refl
  count_op-note_failure op failed now (b ∷ bs) = elim (Bool-cases (str_eq b.op_id failed)) [
    | inl same ↦ simp same (omega (arith, count_op-note_failure op failed now bs))
    | inr other ↦ simp other (omega (arith, count_op-note_failure op failed now bs))
  ]

  pub count-reset_retry :
      (id op : String) (bs : List PendingBatchRecord) → count id (reset_retry o op bs) ≡ count id bs
  unfolding reset_retry
  count-reset_retry id op [] = refl
  count-reset_retry id op (b ∷ bs) = elim (Bool-cases (str_eq b.op_id op)) [
    | inl same ↦ simp same (omega (arith, count-reset_retry id op bs))
    | inr other ↦ simp other (omega (arith, count-reset_retry id op bs))
  ]

  pub count_op-reset_retry :
      (op gone : String) (bs : List PendingBatchRecord)
      → count_op op (reset_retry o gone bs) ≡ count_op op bs
  unfolding reset_retry
  count_op-reset_retry op gone [] = refl
  count_op-reset_retry op gone (b ∷ bs) = elim (Bool-cases (str_eq b.op_id gone)) [
    | inl same ↦ simp same (omega (arith, count_op-reset_retry op gone bs))
    | inr other ↦ simp other (omega (arith, count_op-reset_retry op gone bs))
  ]
