-- ===== src/Observer/Steps.antt =====
-- src/observation/scheduler.ts: every step keeps the batches and the registry of entries in order.
use pi_kiwifs_memory.Prelude.{
  ℕ, ◌≡◌, refl, Bool, true, false, ◌&&◌, not, List, [], ◌∷◌, filter, length, Bool-cases, inl, inr,
  ltb,
}
use pi_kiwifs_memory.Observer.{
  SourceEntryView, BatchTrigger, Observer, ObserverOptions, Moment, select_unprocessed, build_batch,
  classify_private_session, retry_pending, is_due, threshold, idle, manual, compact, create_some,
  schedule, on_agent_settled, on_idle, extract_now, flush_batch, on_before_compact, tokens_of,
}
use pi_kiwifs_memory.Observer.Orderly.{
  IsOrderly, IsAdvance, AreFree, IsFresh, IsAdvance-same, IsAdvance-then, enqueue_all-kept,
  build_batch-HasRoom, add_batch-IsAdvance, create_and_run-IsAdvance, select_unprocessed-AreFree,
  classify_private_session-IsAdvance,
}

pub IsAdvance-trans :
    {saved : Bool} (s t u : Observer)
    → IsAdvance saved s t
    → IsAdvance saved t u
    → IsAdvance saved s u
IsAdvance-trans s t u first next = record {
  orderly = next.orderly;
  kept = λ id le. next.kept id (first.kept id le);
  apart = λ ok id le. next.apart ok id (first.apart ok id le);
}

module _ (o : ObserverOptions) where
  retry_pending-kept :
      (now : ℕ) (s : Observer)
      → ((retry_pending o now s).pending ≡ s.pending)
        × ((retry_pending o now s).consumed ≡ s.consumed)
  unfolding retry_pending
  retry_pending-kept now s = enqueue_all-kept o (filter (is_due o now) s.pending) s

  pub IsAdvance-refl : {saved : Bool} (s : Observer) → IsOrderly s → IsAdvance saved s s
  IsAdvance-refl s h = IsAdvance-same s s h refl refl

  schedule-IsAdvance :
      (es : List SourceEntryView) (m : Moment) (s : Observer)
      → IsOrderly s
      → AreFree es s
      → IsFresh m s
      → IsAdvance m.marks_saved s (schedule o es m s)
  unfolding schedule
  schedule-IsAdvance [] m s h free fresh = IsAdvance-refl s h
  schedule-IsAdvance (e ∷ es) m s h free fresh =
      elim (Bool-cases (
        ltb (tokens_of o (e ∷ es)) o.min_batch_tokens && ltb (length (e ∷ es)) o.min_batch_turns)) [
          | inl few ↦ simp few (IsAdvance-same s (record s { idle_armed = true }) h refl refl)
          | inr enough ↦
              simp enough (create_and_run-IsAdvance o (e ∷ es) threshold m s h free fresh)
        ]

  create_some-IsAdvance :
      (es : List SourceEntryView) (trigger : BatchTrigger) (m : Moment) (s : Observer)
      → IsOrderly s
      → AreFree es s
      → IsFresh m s
      → IsAdvance m.marks_saved s (create_some o es trigger m s)
  unfolding create_some
  create_some-IsAdvance [] trigger m s h free fresh = IsAdvance-refl s h
  create_some-IsAdvance (e ∷ es) trigger m s h free fresh =
      create_and_run-IsAdvance o (e ∷ es) trigger m s h free fresh

  flush_batch-IsAdvance :
      (es : List SourceEntryView) (m : Moment) (s : Observer)
      → IsOrderly s
      → AreFree es s
      → IsFresh m s
      → IsAdvance m.marks_saved s (flush_batch o es m s)
  unfolding flush_batch build_batch
  flush_batch-IsAdvance [] m s h free fresh = IsAdvance-refl s h
  flush_batch-IsAdvance (e ∷ es) m s h free fresh =
      add_batch-IsAdvance o m (build_batch o (e ∷ es) compact m) s h fresh
        (build_batch-HasRoom o (e ∷ es) compact m s h free)

  -- The private session's entries are classified.
  classify-IsAdvance :
      (m : Moment) (s : Observer)
      → IsOrderly s
      → IsAdvance m.marks_saved s (classify_private_session o m (select_unprocessed o m s) s)
  classify-IsAdvance m s h =
      classify_private_session-IsAdvance o m (select_unprocessed o m s) s h
        (select_unprocessed-AreFree o m s)

  pub on_agent_settled-IsAdvance :
      (m : Moment) (s : Observer)
      → IsOrderly s
      → IsFresh m s
      → IsAdvance m.marks_saved s (on_agent_settled o m s)
  unfolding on_agent_settled
  on_agent_settled-IsAdvance m s h fresh =
      let s' : Observer = record s { idle_armed = false } in
      let r = retry_pending o m.now s' in
      let same : IsAdvance m.marks_saved s s' = IsAdvance-same s s' h refl refl in
      let kept = retry_pending-kept m.now s' in
      let retried : IsAdvance m.marks_saved s r = IsAdvance-then o s s' r same kept in
      elim (Bool-cases m.is_private) [
        | inl private ↦ simp private (
            IsAdvance-trans s s' (classify_private_session o m (select_unprocessed o m s') s') same
              (classify-IsAdvance m s' same.orderly))
        | inr open_mode ↦ elim (Bool-cases (not o.has_extractor)) [
          | inl off ↦ simp (open_mode, off) retried
          | inr on ↦
              let candidates = select_unprocessed o m r in
              let scheduled =
                schedule-IsAdvance candidates m r retried.orderly (select_unprocessed-AreFree o m r)
                  (simp kept.0 fresh) in
              simp (open_mode, on)
                (IsAdvance-trans s r (schedule o candidates m r) retried scheduled)
        ]
      ]

  create_unprocessed-IsAdvance :
      (trigger : BatchTrigger) (m : Moment) (s : Observer)
      → IsOrderly s
      → IsFresh m s
      → IsAdvance m.marks_saved s (create_some o (select_unprocessed o m s) trigger m s)
  create_unprocessed-IsAdvance trigger m s h fresh =
      create_some-IsAdvance (select_unprocessed o m s) trigger m s h
        (select_unprocessed-AreFree o m s) fresh

  pub on_idle-IsAdvance :
      (m : Moment) (s : Observer)
      → IsOrderly s
      → IsFresh m s
      → IsAdvance m.marks_saved s (on_idle o m s)
  unfolding on_idle
  on_idle-IsAdvance m s h fresh =
      let s' : Observer = record s { idle_armed = false } in
      let same : IsAdvance m.marks_saved s s' = IsAdvance-same s s' h refl refl in
      elim (Bool-cases (not s.idle_armed)) [
        | inl off ↦ simp off (IsAdvance-refl s h)
        | inr armed ↦ elim (Bool-cases m.is_private) [
          | inl private ↦
              simp (armed, private)
                (IsAdvance-trans s s' (classify_private_session o m (select_unprocessed o m s') s')
                  same (classify-IsAdvance m s' same.orderly))
          | inr open_mode ↦
              let created = create_unprocessed-IsAdvance idle m s' same.orderly fresh in
              simp (armed, open_mode)
                (IsAdvance-trans s s' (create_some o (select_unprocessed o m s') idle m s') same
                  created)
        ]
      ]

  pub extract_now-IsAdvance :
      (m : Moment) (s : Observer)
      → IsOrderly s
      → IsFresh m s
      → IsAdvance m.marks_saved s (extract_now o m s)
  unfolding extract_now
  extract_now-IsAdvance m s h fresh =
      let s' : Observer = record s { idle_armed = false } in
      let same : IsAdvance m.marks_saved s s' = IsAdvance-same s s' h refl refl in
      elim (Bool-cases m.is_private) [
        | inl private ↦ simp private same
        | inr open_mode ↦ elim (Bool-cases (not o.has_extractor)) [
          | inl off ↦ simp (open_mode, off) same
          | inr on ↦
              let created = create_unprocessed-IsAdvance manual m s' same.orderly fresh in
              simp (open_mode, on)
                (IsAdvance-trans s s' (create_some o (select_unprocessed o m s') manual m s') same
                  created)
        ]
      ]

  pub on_before_compact-IsAdvance :
      (aborted : Bool) (m : Moment) (s : Observer)
      → IsOrderly s
      → IsFresh m s
      → IsAdvance m.marks_saved s (on_before_compact o aborted m s)
  unfolding on_before_compact
  on_before_compact-IsAdvance aborted m s h fresh = elim (Bool-cases m.is_private) [
    | inl private ↦ simp private (classify-IsAdvance m s h)
    | inr open_mode ↦ elim (Bool-cases (not o.has_extractor)) [
      | inl off ↦ simp (open_mode, off) (IsAdvance-refl s h)
      | inr on ↦ elim (Bool-cases aborted) [
        | inl gone ↦ simp (open_mode, on, gone) (IsAdvance-refl s h)
        | inr live ↦
            simp (open_mode, on, live)
              (flush_batch-IsAdvance (select_unprocessed o m s) m s h
                (select_unprocessed-AreFree o m s) fresh)
      ]
    ]
  ]
