-- ===== src/Worker/Private.antt =====
-- src/outbox/worker.ts: a tick in private mode, and what a job needs to be sent.
use pi_kiwifs_memory.Prelude.{
  ℕ, ◌≡◌, refl, sym, ◌∙◌, true, inl, inr, List, [], ◌∷◌, ◌++◌, Bool-cases, ltb, filter, map, not,
  String,
}
use mathlib.Core.List.{append_assoc, append-nil}
use pi_kiwifs_memory.Outbox.{Job, Outbox, Config}
use pi_kiwifs_memory.Worker.{
  WorkerConfig, Visit, Progress, heads, hold, held_private, visit_job, visit_jobs, run_tick,
}

-- The jobs of a list that are due.
abbrev pub due : ℕ → List Job → List Job
due now js = filter (λ j. not (ltb now j.next_attempt_at)) js

abbrev pub op_ids : List Job → List String
op_ids js = map (λ j. j.op_id) js

module _ (c : Config) (w : WorkerConfig) (now : ℕ) (visits : ℕ → Visit) where
  record HoldsAll (ids : List String) (p q : Progress) : Type 0 where
    store : q.store ≡ p.store
    sent : q.summary.sent ≡ p.summary.sent
    retried : q.summary.retried ≡ p.summary.retried
    quarantined : q.summary.quarantined ≡ p.summary.quarantined
    held : q.summary.held ≡ p.summary.held ++ ids

  visit_jobs-HoldsAll :
      ((n : ℕ) → (visits n).private_before ≡ true)
      → (js : List Job) (p : Progress)
      → HoldsAll (op_ids (due now js)) p (visit_jobs c w now visits js p)
  unfolding visit_jobs visit_job hold
  visit_jobs-HoldsAll all [] p = record {
    store = refl;
    sent = refl;
    retried = refl;
    quarantined = refl;
    held = sym (append-nil _);
  }
  visit_jobs-HoldsAll all (j ∷ js) p = elim (Bool-cases (ltb now j.next_attempt_at)) [
    | inl early ↦ rw early (visit_jobs-HoldsAll all js p)
    | inr late ↦
        let h = visit_jobs-HoldsAll all js (hold j held_private p) in
        rw (late, all j.seq)
          (record {
            store = h.store;
            sent = h.sent;
            retried = h.retried;
            quarantined = h.quarantined;
            held = h.held ∙ append_assoc p.summary.held (j.op_id ∷ []) (op_ids (due now js));
          })
  ]

  -- While the gate is private, a tick changes nothing in the store and sends, retries and
  -- quarantines nothing; it holds exactly the heads that are due.
  pub run_tick-private :
      (s : Outbox)
      → ((n : ℕ) → (visits n).private_before ≡ true)
      → let q = run_tick c w now visits s in
        (q.store ≡ s)
        × (q.summary.sent ≡ [])
        × (q.summary.retried ≡ [])
        × (q.summary.quarantined ≡ [])
        × (q.summary.held ≡ op_ids (due now (heads s.jobs)))
  unfolding run_tick
  run_tick-private s all =
      let h = visit_jobs-HoldsAll all (heads s.jobs) _ in
      (h.store, h.sent, h.retried, h.quarantined, h.held)
