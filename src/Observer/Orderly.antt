-- ===== src/Observer/Orderly.antt =====
-- src/observation/scheduler.ts: every step keeps the registry of entries in order.
use pi_kiwifs_memory.Prelude.{
  ◌+◌, ◌≤◌, ◌≡◌, refl, ap, ◌∙◌, String, Bool, true, some, List, [], ◌∷◌, ◌++◌, length, str_eq,
  eq_iff, arith, Bool-cases, inl, inr, leb,
}
use pi_kiwifs_memory.Observer.{
  SourceEntryView, BatchTrigger, PendingBatchRecord, Observer, ObserverOptions, Moment, member,
  ids_of, select_unprocessed, fill_batch, build_batch, merge_into, remove_batch, find_batch,
  is_running, enqueue_run, enqueue_all, enqueue_oldest, add_batch, create_and_run,
  classify_private_session, consume, merge_batch, mark_entries, mark_returns, reset_retry,
}
use pi_kiwifs_memory.Observer.Weight.{
  one_if, count, count_op, weight, member-append, count-append, count_op-append, select_weight,
  member-fill_batch, count-merge_into, count_op-merge_into, count-find_batch, count_op-remove_batch,
  count-reset_retry, count_op-reset_retry,
}

-- No operation id and no entry has two batches.
pub record IsOrderly (s : Observer) : Type 0 where
  pub ops : (op : String) → count_op op s.pending ≤ 1
  pub once : (id : String) → count id s.pending ≤ 1

-- From `s` to `s'` no entry is lost, and when the registry is saved, none is both pending and
-- consumed that was not.
pub record IsAdvance (saved : Bool) (s s' : Observer) : Type 0 where
  pub orderly : IsOrderly s'
  pub kept :
      (id : String) → 1 ≤ weight id s.pending s.consumed → 1 ≤ weight id s'.pending s'.consumed
  pub apart :
      saved ≡ true
      → (id : String) → weight id s.pending s.consumed ≤ 1
      → weight id s'.pending s'.consumed ≤ 1

-- The entries are neither pending nor consumed.
abbrev pub AreFree : List SourceEntryView → Observer → Type 0
AreFree es s = (id : String) → member id (ids_of es) ≡ true → weight id s.pending s.consumed ≡ 0

abbrev pub IsFresh : Moment → Observer → Type 0
IsFresh m s = count_op m.uuid s.pending ≡ 0

-- A state that differs in neither the batches nor the registry.
pub IsAdvance-same :
    (s s' : Observer)
    → IsOrderly s
    → s'.pending ≡ s.pending
    → s'.consumed ≡ s.consumed
    → {saved : Bool} → IsAdvance saved s s'
IsAdvance-same s s' h batches registry = record {
  orderly = record { ops = λ op. simp batches (h.ops op); once = λ id. simp batches (h.once id) };
  kept = λ id. simp (batches, registry) (λ le. le);
  apart = λ ok id. simp (batches, registry) (λ le. le);
}

module _ (o : ObserverOptions) where
  enqueue_run-kept :
      (op : String) (s : Observer)
      → ((enqueue_run o op s).pending ≡ s.pending) × ((enqueue_run o op s).consumed ≡ s.consumed)
  unfolding enqueue_run
  enqueue_run-kept op s = elim (Bool-cases (is_running o op s)) [
    | inl running ↦ simp running (refl, refl)
    | inr waiting ↦ simp waiting (refl, refl)
  ]

  pub enqueue_all-kept :
      (bs : List PendingBatchRecord) (s : Observer)
      → ((enqueue_all o bs s).pending ≡ s.pending) × ((enqueue_all o bs s).consumed ≡ s.consumed)
  unfolding enqueue_all
  enqueue_all-kept [] s = (refl, refl)
  enqueue_all-kept (b ∷ bs) s =
      let (batches, registry) = enqueue_run-kept b.op_id s in
      let (later, later_registry) = enqueue_all-kept bs (enqueue_run o b.op_id s) in
      (later ∙ batches, later_registry ∙ registry)

  enqueue_oldest-kept :
      (bs : List PendingBatchRecord) (s : Observer)
      → ((enqueue_oldest o bs s).pending ≡ s.pending)
        × ((enqueue_oldest o bs s).consumed ≡ s.consumed)
  unfolding enqueue_oldest
  enqueue_oldest-kept [] s = (refl, refl)
  enqueue_oldest-kept (b ∷ bs) s = enqueue_run-kept b.op_id s

  -- The state may go on to one with the same batches and registry.
  pub IsAdvance-then :
      (s s' t : Observer) {saved : Bool}
      → IsAdvance saved s s'
      → (t.pending ≡ s'.pending) × (t.consumed ≡ s'.consumed)
      → IsAdvance saved s t
  IsAdvance-then s s' t {saved} h (batches, registry) =
      let same : IsAdvance saved s' t = IsAdvance-same s' t h.orderly batches registry in
      record {
        orderly = same.orderly;
        kept = λ id le. same.kept id (h.kept id le);
        apart = λ ok id le. same.apart ok id (h.apart ok id le);
      }

  -- An entry of the batch is in no other one; it is in the registry only if it was both before.
  abbrev pub HasRoom : List String → Observer → Type 0
  HasRoom ids s =
      (id : String)
      → (count id s.pending + one_if (member id ids) ≤ 1)
        × (weight id s.pending s.consumed ≤ 1
            → weight id s.pending s.consumed + one_if (member id ids) ≤ 1)

  -- A batch of free entries may be added.
  pub build_batch-HasRoom :
      (es : List SourceEntryView) (trigger : BatchTrigger) (m : Moment) (s : Observer)
      → IsOrderly s
      → AreFree es s
      → HasRoom (build_batch o es trigger m).entry_ids s
  unfolding build_batch member
  build_batch-HasRoom es trigger m s h free id =
      elim (Bool-cases (member id (fill_batch o [] 0 es))) [
        | inr out ↦ simp out (omega (arith, h.once id), λ le. omega (arith, le))
        | inl taken ↦
            let none_yet = free id (member-fill_batch o id [] 0 es taken) in
            simp taken (omega (arith, none_yet), λ le. omega (arith, none_yet))
      ]

  pub add_batch-IsAdvance :
      (m : Moment) (b : PendingBatchRecord) (s : Observer)
      → IsOrderly s
      → count_op b.op_id s.pending ≡ 0
      → HasRoom b.entry_ids s
      → IsAdvance m.marks_saved s (add_batch o m b s)
  unfolding add_batch
  add_batch-IsAdvance m b s h fresh room =
      let s' : Observer = record s { pending = s.pending ++ b ∷ [] } in
      let added : IsAdvance m.marks_saved s s' = record {
        orderly = record {
          ops = λ op. elim (Bool-cases (str_eq b.op_id op)) [
            | inl same ↦
                let eq = (eq_iff b.op_id op).0 same in
                omega (arith, count_op-append op s.pending (b ∷ []), ap one_if same, rw eq at fresh)
            | inr other ↦
                omega (arith, count_op-append op s.pending (b ∷ []), ap one_if other, h.ops op)
          ];
          once = λ id. omega (arith, count-append id s.pending (b ∷ []), (room id).0);
        };
        kept = λ id le. omega (arith, count-append id s.pending (b ∷ []), le);
        apart = λ ok id le. omega (arith, count-append id s.pending (b ∷ []), (room id).1 le);
      } in
      elim (Bool-cases m.state_saved) [
        | inr lost ↦ simp lost added
        | inl saved ↦
            simp saved
              (IsAdvance-then s s' (enqueue_run o b.op_id s') added (enqueue_run-kept b.op_id s'))
      ]

  merge_batch-IsAdvance :
      (m : Moment) (b : PendingBatchRecord) (s : Observer)
      → IsOrderly s
      → HasRoom b.entry_ids s
      → IsAdvance m.marks_saved s (merge_batch o m b s)
  unfolding merge_batch
  merge_batch-IsAdvance m b s h room =
      let s' : Observer = record s { pending = merge_into o b s.pending } in
      let merged : IsAdvance m.marks_saved s s' = record {
        orderly = record {
          ops = λ op. omega (arith, count_op-merge_into o op b s.pending, h.ops op);
          once = λ id. omega (arith, (count-merge_into o id b s.pending).1, (room id).0);
        };
        kept = λ id le. omega (arith, (count-merge_into o id b s.pending).0, le);
        apart = λ ok id le. omega (arith, (count-merge_into o id b s.pending).1, (room id).1 le);
      } in
      elim (Bool-cases m.state_saved) [
        | inr lost ↦ simp lost merged
        | inl saved ↦ simp saved (
            IsAdvance-then s s' (enqueue_oldest o (merge_into o b s.pending) s') merged
              (enqueue_oldest-kept (merge_into o b s.pending) s'))
      ]

  pub create_and_run-IsAdvance :
      (es : List SourceEntryView) (trigger : BatchTrigger) (m : Moment) (s : Observer)
      → IsOrderly s
      → AreFree es s
      → IsFresh m s
      → IsAdvance m.marks_saved s (create_and_run o es trigger m s)
  unfolding create_and_run build_batch
  create_and_run-IsAdvance es trigger m s h free fresh =
      let b = build_batch o es trigger m in
      let room = build_batch-HasRoom es trigger m s h free in
      elim (Bool-cases (leb o.max_pending_batches (length s.pending))) [
        | inr below ↦ simp below (add_batch-IsAdvance m b s h fresh room)
        | inl full ↦ simp full (merge_batch-IsAdvance m b s h room)
      ]

  pub select_unprocessed-AreFree :
      (m : Moment) (s : Observer) → AreFree (select_unprocessed o m s) s
  unfolding select_unprocessed
  select_unprocessed-AreFree m s id h = select_weight o id m.entries s h

  -- Marking adds to the registry alone.
  marked_kept :
      (ids : List String) (s : Observer) (id : String)
      → 1 ≤ weight id s.pending s.consumed
      → 1 ≤ weight id s.pending (s.consumed ++ ids)
  marked_kept ids s id le = simp (member-append id s.consumed ids) (ground (arith, le))

  marked_apart :
      (es : List SourceEntryView) (s : Observer) (id : String)
      → AreFree es s
      → weight id s.pending s.consumed ≤ 1
      → weight id s.pending (s.consumed ++ ids_of es) ≤ 1
  marked_apart es s id free le = elim (Bool-cases (member id (ids_of es))) [
    | inl here ↦ simp (member-append id s.consumed (ids_of es)) (ground (arith, free id here))
    | inr apart ↦ simp (member-append id s.consumed (ids_of es), apart) (ground (arith, le))
  ]

  pub classify_private_session-IsAdvance :
      (m : Moment) (es : List SourceEntryView) (s : Observer)
      → IsOrderly s
      → AreFree es s
      → IsAdvance m.marks_saved s (classify_private_session o m es s)
  unfolding classify_private_session mark_entries
  classify_private_session-IsAdvance m es s h free =
      let s' : Observer = record s { consumed = s.consumed ++ ids_of es } in
      let marked : IsAdvance m.marks_saved s s' = record {
        orderly = record { ops = h.ops; once = h.once };
        kept = λ id le. marked_kept (ids_of es) s id le;
        apart = λ ok id le. marked_apart es s id free le;
      } in
      elim (Bool-cases (mark_returns o m (ids_of es) s)) [
        | inr lost ↦ simp lost marked
        | inl saved ↦ simp saved (
            IsAdvance-then s s' (record s' { private_skipped = s'.private_skipped + length es })
              marked (refl, refl))
      ]

  -- A batch that is there may be consumed.
  pub consume-IsAdvance :
      (m : Moment) (op : String) (b : PendingBatchRecord) (s : Observer)
      → IsOrderly s
      → find_batch o op s.pending ≡ some b
      → IsAdvance m.marks_saved s (consume o m b s)
  unfolding consume mark_entries mark_returns
  consume-IsAdvance m op b s h found =
      let count_of : (id : String)
          → count id (remove_batch o b.op_id s.pending) + one_if (member id b.entry_ids)
            ≡ count id s.pending =
        λ id.
          (let (total, eq) = count-find_batch o id op s.pending b (h.ops op) found in
            simp eq total) in
      let removed : IsAdvance m.marks_saved s (record s {
        consumed = s.consumed ++ b.entry_ids;
        pending = remove_batch o b.op_id s.pending;
      }) =
        record {
          orderly = record {
            ops = λ i. omega (arith, count_op-remove_batch o i b.op_id s.pending, h.ops i);
            once = λ id. omega (arith, count_of id, h.once id);
          };
          kept = λ id le.
              simp (member-append id s.consumed b.entry_ids) (ground (arith, count_of id, le));
          apart = λ ok id le.
              simp (member-append id s.consumed b.entry_ids) (ground (arith, count_of id, le));
        } in
      elim (Bool-cases (mark_returns o m b.entry_ids s)) [
        | inl saved ↦ simp saved removed
        | inr lost ↦ simp lost (record {
          orderly = record { ops = h.ops; once = h.once };
          kept = λ id le. marked_kept b.entry_ids s id le;
          apart = λ ok id le. ground (arith, lost, ok);
        })
      ]

  pub reset_retry-IsAdvance :
      (op : String) (s : Observer)
      → IsOrderly s
      → {saved : Bool} → IsAdvance saved s (record s { pending = reset_retry o op s.pending })
  reset_retry-IsAdvance op s h = record {
    orderly = record {
      ops = λ i. simp (count_op-reset_retry o i op s.pending) (h.ops i);
      once = λ id. simp (count-reset_retry o id op s.pending) (h.once id);
    };
    kept = λ id. simp (count-reset_retry o id op s.pending) (λ le. le);
    apart = λ ok id. simp (count-reset_retry o id op s.pending) (λ le. le);
  }
