-- ===== src/Observer/Runs.antt =====
-- src/observation/scheduler.ts: the runs of batches, and any step at all.
use pi_kiwifs_memory.Prelude.{
  ◌+◌, ◌≡◌, refl, String, Bool, true, not, Option, none, some, List, [], ◌∷◌, ◌++◌, Bool-cases,
  Option-cases, inl, inr, is_some, ◌==◌,
}
use pi_kiwifs_memory.Observer.{
  SourceEntryView, PendingBatchRecord, Observer, ObserverOptions, Moment, find_batch, consume,
  views_of, redact_all, send, start_views, start_batch, start_next, start_run, Flight, Extraction,
  throws, extracted_refused, extracted_accepted, land, accept, accept_batch, reset_retry,
  finish_flight, finish_run, ObserverStep, settled, idled, extracts_now, starts, compacts, finishes,
  new_generation, observer_step,
}
use pi_kiwifs_memory.Observer.Weight.{count_op, count-note_failure, count_op-note_failure}
use pi_kiwifs_memory.Observer.Orderly.{
  IsOrderly, IsAdvance, IsAdvance-same, consume-IsAdvance, reset_retry-IsAdvance,
}
use pi_kiwifs_memory.Observer.Steps.{
  IsAdvance-trans, IsAdvance-refl, on_agent_settled-IsAdvance, on_idle-IsAdvance,
  extract_now-IsAdvance, on_before_compact-IsAdvance,
}

-- The operation id that a step may give to a new batch.
abbrev pub uuid_of : ObserverStep → Option String
uuid_of (settled m) = some m.uuid
uuid_of (idled m) = some m.uuid
uuid_of (extracts_now m) = some m.uuid
uuid_of (starts m) = none
uuid_of (compacts aborted m) = some m.uuid
uuid_of (finishes x m) = none
uuid_of new_generation = none

-- No batch has the id yet.
abbrev pub IsFreshIn : ObserverStep → Observer → Type 0
IsFreshIn step s = (op : String) → uuid_of step ≡ some op → count_op op s.pending ≡ 0

-- Whether the coordinator's file can be written during a step.
abbrev pub marks_saved_in : ObserverStep → Bool
marks_saved_in (settled m) = m.marks_saved
marks_saved_in (idled m) = m.marks_saved
marks_saved_in (extracts_now m) = m.marks_saved
marks_saved_in (starts m) = m.marks_saved
marks_saved_in (compacts aborted m) = m.marks_saved
marks_saved_in (finishes x m) = m.marks_saved
marks_saved_in new_generation = true

module _ (o : ObserverOptions) where
  start_views-IsAdvance :
      (m : Moment) (op : String) (b : PendingBatchRecord) (es : List SourceEntryView) (s : Observer)
      → IsOrderly s
      → find_batch o op s.pending ≡ some b
      → IsAdvance m.marks_saved s (start_views o b es m s)
  unfolding start_views send
  start_views-IsAdvance m op b [] s h found = consume-IsAdvance o m op b s h found
  start_views-IsAdvance m op b (e ∷ es) s h found = elim (Bool-cases (not o.has_extractor)) [
    | inl off ↦ simp off (IsAdvance-refl o s h)
    | inr on ↦ elim (Option-cases (redact_all o (e ∷ es))) [
      | inl refused ↦ simp (on, refused) (IsAdvance-refl o s h)
      | inr (sources, safe) ↦
          simp (on, safe)
            (IsAdvance-same s
              (record s {
                flight =
                    some (record {
                      flight_op = b.op_id;
                      sources = sources;
                      started_in = s.generation;
                    });
              })
              h refl refl)
    ]
  ]

  start_batch-IsAdvance :
      (op : String) (m : Moment) (s : Observer)
      → IsOrderly s
      → IsAdvance m.marks_saved s (start_batch o (find_batch o op s.pending) m s)
  unfolding start_batch
  start_batch-IsAdvance op m s h = elim (Option-cases (find_batch o op s.pending)) [
    | inl gone ↦ simp gone (IsAdvance-refl o s h)
    | inr (b, found) ↦
        simp found (start_views-IsAdvance m op b (views_of o m.entries b.entry_ids) s h found)
  ]

  start_next-IsAdvance :
      (ops : List String) (m : Moment) (s : Observer)
      → IsOrderly s
      → IsAdvance m.marks_saved s (start_next o ops m s)
  unfolding start_next
  start_next-IsAdvance [] m s h = IsAdvance-refl o s h
  start_next-IsAdvance (op ∷ ops) m s h =
      let s' : Observer = record s { queue = ops } in
      let same : IsAdvance m.marks_saved s s' = IsAdvance-same s s' h refl refl in
      IsAdvance-trans s s' (start_batch o (find_batch o op s.pending) m s') same
        (start_batch-IsAdvance op m s' same.orderly)

  start_run-IsAdvance :
      (m : Moment) (s : Observer) → IsOrderly s → IsAdvance m.marks_saved s (start_run o m s)
  unfolding start_run
  start_run-IsAdvance m s h = elim (Bool-cases (is_some s.flight)) [
    | inl busy ↦ simp busy (IsAdvance-refl o s h)
    | inr quiet ↦ simp quiet (start_next-IsAdvance s.queue m s h)
  ]

  accept_batch-IsAdvance :
      (m : Moment) (op : String) (b : PendingBatchRecord) (s : Observer)
      → IsOrderly s
      → find_batch o op s.pending ≡ some b
      → IsAdvance m.marks_saved s (accept_batch o m b s)
  unfolding accept_batch
  accept_batch-IsAdvance m op b s h found =
      let s' : Observer = record s {
        jobs = s.jobs ++ record { job_op = b.op_id; source_entry_ids = b.entry_ids } ∷ [];
      } in
      let t = consume o m b s' in
      let same : IsAdvance m.marks_saved s s' = IsAdvance-same s s' h refl refl in
      let consumed = consume-IsAdvance o m op b s' same.orderly found in
      IsAdvance-trans s t (record t { pending = reset_retry o b.op_id t.pending })
        (IsAdvance-trans s s' t same consumed) (reset_retry-IsAdvance o b.op_id t consumed.orderly)

  accept-IsAdvance :
      (m : Moment) (op : String) (s : Observer)
      → IsOrderly s
      → IsAdvance m.marks_saved s (accept o m (find_batch o op s.pending) s)
  unfolding accept
  accept-IsAdvance m op s h = elim (Option-cases (find_batch o op s.pending)) [
    | inl gone ↦ simp gone (IsAdvance-refl o s h)
    | inr (b, found) ↦ simp found (accept_batch-IsAdvance m op b s h found)
  ]

  land-IsAdvance :
      (x : Extraction) (m : Moment) (f : Flight) (s : Observer)
      → IsOrderly s
      → IsAdvance m.marks_saved s (land o x m f s)
  unfolding land
  land-IsAdvance throws m f s h = record {
    orderly = record {
      ops = λ op. simp (count_op-note_failure o op f.flight_op m.now s.pending) (h.ops op);
      once = λ id. simp (count-note_failure o id f.flight_op m.now s.pending) (h.once id);
    };
    kept = λ id. simp (count-note_failure o id f.flight_op m.now s.pending) (λ le. le);
    apart = λ ok id. simp (count-note_failure o id f.flight_op m.now s.pending) (λ le. le);
  }
  land-IsAdvance extracted_refused m f s h = IsAdvance-refl o s h
  land-IsAdvance extracted_accepted m f s h = elim (Bool-cases (f.started_in == s.generation)) [
    | inl current ↦ simp current (accept-IsAdvance m f.flight_op s h)
    | inr stale ↦ simp stale (IsAdvance-refl o s h)
  ]

  finish_flight-IsAdvance :
      (x : Extraction) (m : Moment) (f : Option Flight) (s : Observer)
      → IsOrderly s
      → IsAdvance m.marks_saved s (finish_flight o x m f s)
  unfolding finish_flight
  finish_flight-IsAdvance x m none s h = IsAdvance-refl o s h
  finish_flight-IsAdvance x m (some f) s h =
      let s' : Observer = record s { flight = none } in
      let same : IsAdvance m.marks_saved s s' = IsAdvance-same s s' h refl refl in
      IsAdvance-trans s s' (land o x m f s') same (land-IsAdvance x m f s' same.orderly)

  finish_run-IsAdvance :
      (x : Extraction) (m : Moment) (s : Observer)
      → IsOrderly s
      → IsAdvance m.marks_saved s (finish_run o x m s)
  unfolding finish_run
  finish_run-IsAdvance x m s h = finish_flight-IsAdvance x m s.flight s h

-- In a state where no operation id and no entry has two batches, every step whose UUID no batch has
-- yet leads to such a state, also when a write of the registry or of the batches throws; no entry
-- that was in a batch or in the registry is lost by it; and unless the registry's write throws, no
-- entry is then both in a batch and in the registry that was not so before.
pub observer_step-IsAdvance :
    (o : ObserverOptions) (step : ObserverStep) (s : Observer)
    → IsOrderly s
    → IsFreshIn step s
    → IsAdvance (marks_saved_in step) s (observer_step o step s)
unfolding observer_step
observer_step-IsAdvance o (settled m) s h fresh =
    on_agent_settled-IsAdvance o m s h (fresh m.uuid refl)
observer_step-IsAdvance o (idled m) s h fresh = on_idle-IsAdvance o m s h (fresh m.uuid refl)
observer_step-IsAdvance o (extracts_now m) s h fresh =
    extract_now-IsAdvance o m s h (fresh m.uuid refl)
observer_step-IsAdvance o (starts m) s h fresh = start_run-IsAdvance o m s h
observer_step-IsAdvance o (compacts aborted m) s h fresh =
    on_before_compact-IsAdvance o aborted m s h (fresh m.uuid refl)
observer_step-IsAdvance o (finishes x m) s h fresh = finish_run-IsAdvance o x m s h
observer_step-IsAdvance o new_generation s h fresh =
    IsAdvance-same s (record s { generation = s.generation + 1 }) h refl refl
