-- ===== src/Worker/Kept.antt =====
-- src/outbox/worker.ts: what a tick does to the pending jobs of the store.
use pi_kiwifs_memory.Prelude.{
  ℕ, ◌≡◌, refl, ap, ◌∙◌, Bool, true, false, inl, inr, List, [], ◌∷◌, ◌++◌, Option, Bool-cases,
  Option-cases, Memᴰ, Mem-append_left, Mem-append_last, ltb, ==_iff, All, All-tabulate, String, ◌⊎◌,
  ◌||◌, map,
}
use mathlib.Core.List.{map-append}
use pi_kiwifs_memory.Backend.{Thrown, is_private_error}
use pi_kiwifs_memory.Outbox.{
  Job, pending, Outbox, Config, Op, Io, Err, Result, ok, threw, retry, quarantine, ack, step,
}
use pi_kiwifs_memory.Outbox.Outcomes.{step-acking, step-retrying, step-quarantining, store-plain}
use pi_kiwifs_memory.Outbox.Atomicity.{quarantine-threw_jobs}
use pi_kiwifs_memory.Outbox.Invariant.{IsValid, Numbered-unique}
use pi_kiwifs_memory.Outbox.Retained.{
  pending_jobs-mem, Survives, settles, removes, step-Survives_any,
}
use pi_kiwifs_memory.Worker.{
  WorkerConfig, Visit, Progress, Decision, heads, hold, failed, attempt, deliver, retargeted,
  visit_job, visit_jobs, run_tick, note_sent, note_ack, note_retry, note_quarantine, record_failure,
  will_retry, awaited, reaches_send, run_ops,
}
use pi_kiwifs_memory.Worker.Heads.{heads-listed}

-- `j` is in the store, with its identity and payload, and pending unless `D`.
pub record KeptIn (j : Job) (D : Type 0) (s : Outbox) : Type 0 where
  pub job : Job
  pub stored : Memᴰ job s.jobs
  pub same_seq : job.seq ≡ j.seq
  pub same_id : job.op_id ≡ j.op_id
  pub same_payload : job.payload ≡ j.payload
  pub state : (job.status ≡ pending) ⊎ D

KeptIn-map : {j : Job} {D E : Type 0} {s : Outbox} → (D → E) → KeptIn j D s → KeptIn j E s
KeptIn-map {j} {D} {E} f k = record {
  job = k.job;
  stored = k.stored;
  same_seq = k.same_seq;
  same_id = k.same_id;
  same_payload = k.same_payload;
  state = weaken k.state;
}
  where
    weaken : (k.job.status ≡ pending) ⊎ D → (k.job.status ≡ pending) ⊎ E
    weaken (inl p) = inl p
    weaken (inr d) = inr (f d)

KeptIn-jobs : {j : Job} {D : Type 0} (s t : Outbox) → t.jobs ≡ s.jobs → KeptIn j D s → KeptIn j D t
KeptIn-jobs s t e k = record {
  job = k.job;
  stored = rw e k.stored;
  same_seq = k.same_seq;
  same_id = k.same_id;
  same_payload = k.same_payload;
  state = k.state;
}

KeptIn-step :
    (c : Config) (op : Op) {j : Job} {D : Type 0} {s : Outbox}
    → removes op ≡ false
    → (settles j.seq op ≡ true → D)
    → KeptIn j D s
    → KeptIn j D (step c op s).0
KeptIn-step c op {j} {D} {s} r f k =
    let v = step-Survives_any c op s k.job r k.stored in
    record {
      job = v.job;
      stored = v.stored;
      same_seq = v.same_seq ∙ k.same_seq;
      same_id = v.same_id ∙ k.same_id;
      same_payload = v.same_payload ∙ k.same_payload;
      state = onward v k.state;
    }
  where
    settled :
        (v : Survives op k.job (step c op s).0.jobs)
        → (v.job.status ≡ pending) ⊎ (settles k.job.seq op ≡ true)
        → (v.job.status ≡ pending) ⊎ D
    settled v (inl p) = inl p
    settled v (inr h) = inr (f (rw k.same_seq at h))

    onward :
        (v : Survives op k.job (step c op s).0.jobs)
        → (k.job.status ≡ pending) ⊎ D
        → (v.job.status ≡ pending) ⊎ D
    onward v (inl p) = settled v (v.waits p)
    onward v (inr d) = inr d

-- The others that use the store during a send only enqueue.
abbrev pub is_enqueue : Op → Bool
is_enqueue (Op.enqueuing i now random io) = true
is_enqueue _ = false

abbrev pub OnlyEnqueues : List Op → Type 0
OnlyEnqueues = All (λ op. is_enqueue op ≡ true)

enqueue-neutral :
    (op : Op) (n : ℕ) → is_enqueue op ≡ true → (removes op ≡ false) × (settles n op ≡ false)
enqueue-neutral (Op.enqueuing i now random io) n h = (refl, refl)
enqueue-neutral (Op.acking m now io) n h = cc
enqueue-neutral (Op.retrying m attempts at io) n h = cc
enqueue-neutral (Op.quarantining m reason io) n h = cc
enqueue-neutral (Op.discarding m io) n h = cc
enqueue-neutral (Op.retaining now io) n h = cc
enqueue-neutral Op.closing n h = cc

KeptIn-run_ops :
    (c : Config) (ops : List Op) {j : Job} {D : Type 0} {s : Outbox}
    → OnlyEnqueues ops
    → KeptIn j D s
    → KeptIn j D (run_ops c ops s)
unfolding run_ops
KeptIn-run_ops c [] h k = k
KeptIn-run_ops c (op ∷ ops) {j} h k =
    let (r, n) = enqueue-neutral op j.seq h.0 in
    KeptIn-run_ops c ops h.1 (KeptIn-step c op r (λ e. absurd (cc (e, n))) k)

-- `j` is reported as sent, or as quarantined.
abbrev pub IsReported : Job → Progress → Type 0
IsReported j p = Memᴰ j.op_id p.summary.sent ⊎ Memᴰ j.op_id (map (λ q. q.0) p.summary.quarantined)

abbrev pub IsKept : Job → Progress → Type 0
IsKept j p = KeptIn j (IsReported j p) p.store

module _ (c : Config) (w : WorkerConfig) (j i : Job) (same : i.seq ≡ j.seq → i ≡ j) where
  note_ack-IsKept :
      (v : Visit) (p : Progress)
      → IsKept j p
      → IsKept j (note_ack i (note_sent i p) (ack i.seq v.now v.io p.store))
  unfolding note_sent
  note_ack-IsKept v p k = by_result (ack i.seq v.now v.io p.store) acked
    where
      told : IsReported j p → IsReported j (note_sent i p)
      told (inl m) = inl (Mem-append_left p.summary.sent _ m)
      told (inr m) = inr m

      hit : settles j.seq (Op.acking i.seq v.now v.io) ≡ true → IsReported j (note_sent i p)
      hit e = inl (rw (← same ((==_iff i.seq j.seq).0 e)) (Mem-append_last p.summary.sent i.op_id))

      acked : KeptIn j (IsReported j (note_sent i p)) (ack i.seq v.now v.io p.store).0
      acked =
          let k' = KeptIn-step c (Op.acking i.seq v.now v.io) refl hit (KeptIn-map told k) in
          rw (step-acking c i.seq v.now v.io p.store, store-plain) at k'

      by_result :
          (r : Outbox × Result (Unit {0}))
          → KeptIn j (IsReported j (note_sent i p)) r.0
          → IsKept j (note_ack i (note_sent i p) r)
      by_result (s, ok _) h = unfold note_ack in h
      by_result (s, threw _) h = unfold note_ack in h

  note_retry-IsKept :
      (attempts at : ℕ) (d : Decision) (io : Io) (p : Progress)
      → IsKept j p
      → IsKept j (note_retry i attempts at d p (retry i.seq attempts at io p.store))
  note_retry-IsKept attempts at d io p k = by_result (retry i.seq attempts at io p.store) retried
    where
      retried : KeptIn j (IsReported j p) (retry i.seq attempts at io p.store).0
      retried =
          let k' = KeptIn-step c (Op.retrying i.seq attempts at io) refl (λ e. absurd (cc e)) k in
          rw (step-retrying c i.seq attempts at io p.store, store-plain) at k'

      by_result :
          (r : Outbox × Result (Unit {0}))
          → KeptIn j (IsReported j p) r.0
          → IsKept j (note_retry i attempts at d p r)
      by_result (s, ok _) h = unfold note_retry in h
      by_result (s, threw _) h = unfold note_retry in h

  note_quarantine-IsKept :
      (reason : String) (d : Decision) (io : Io) (p : Progress)
      → IsKept j p
      → IsKept j (note_quarantine i reason d p (quarantine i.seq reason io p.store))
  note_quarantine-IsKept reason d io p k = by_result (quarantine i.seq reason io p.store) refl
    where
      told :
          IsReported j p
          → Memᴰ j.op_id p.summary.sent
            ⊎ Memᴰ j.op_id (map (λ q. q.0) (p.summary.quarantined ++ (i.op_id, reason) ∷ []))
      told (inl m) = inl m
      told (inr m) = inr (rw map-append (Mem-append_left _ _ m))

      hit :
          settles j.seq (Op.quarantining i.seq reason io) ≡ true
          → Memᴰ j.op_id p.summary.sent
            ⊎ Memᴰ j.op_id (map (λ q. q.0) (p.summary.quarantined ++ (i.op_id, reason) ∷ []))
      hit e = inr (rw (map-append, ← same ((==_iff i.seq j.seq).0 e)) (Mem-append_last _ i.op_id))

      step_store :
          (step c (Op.quarantining i.seq reason io) p.store).0
          ≡ (quarantine i.seq reason io p.store).0
      step_store =
          ap (λ (r : Outbox × Option Err). r.0) (step-quarantining c i.seq reason io p.store)
          ∙ store-plain _

      by_result :
          (r : Outbox × Result (Unit {0}))
          → quarantine i.seq reason io p.store ≡ r
          → IsKept j (note_quarantine i reason d p r)
      by_result (s, ok _) e =
          unfold note_quarantine in
          rw (step_store, e) at
            (KeptIn-step c (Op.quarantining i.seq reason io) refl hit (KeptIn-map told k))
      by_result (s, threw x) e =
          unfold note_quarantine in
          KeptIn-jobs p.store s (quarantine-threw_jobs c i.seq reason io p.store e) k

  module _ (v : Visit) (others : OnlyEnqueues v.during) where
    failed-IsKept : (e : Thrown) (p : Progress) → IsKept j p → IsKept j (failed c w v e i p)
    unfolding failed hold record_failure
    failed-IsKept e p k = elim (Bool-cases (v.private_after || is_private_error e)) [
      | inl held ↦ rw held k
      | inr lost ↦ elim (Bool-cases (will_retry c w e i)) [
        | inl again ↦ rw (lost, again) (note_retry-IsKept _ _ _ v.io p k)
        | inr over ↦ rw (lost, over) (note_quarantine-IsKept _ _ v.io p k)
      ]
    ]

    awaited-IsKept : (p : Progress) → IsKept j p → IsKept j (awaited c w v i p)
    unfolding awaited
    awaited-IsKept p k = elim (Bool-cases (reaches_send c w v i p.store)) [
      | inl sending ↦ rw sending (KeptIn-run_ops c v.during others k)
      | inr not_sending ↦ rw not_sending k
    ]

    deliver-IsKept : (p : Progress) → IsKept j p → IsKept j (deliver c w v i p)
    unfolding deliver note_sent
    deliver-IsKept p k = elim (Option-cases (attempt c w v i p.store)) [
      | inl sending ↦
          rw (sending, deliver) (note_ack-IsKept v (awaited c w v i p) (awaited-IsKept p k))
      | inr (e, stopped) ↦
          rw (stopped, deliver) (failed-IsKept e (awaited c w v i p) (awaited-IsKept p k))
    ]

    visit_job-IsKept : (now : ℕ) (p : Progress) → IsKept j p → IsKept j (visit_job c w now v i p)
    unfolding visit_job hold
    visit_job-IsKept now p k = elim (Bool-cases (ltb now i.next_attempt_at)) [
      | inl early ↦ rw early k
      | inr late ↦ elim (Bool-cases v.private_before) [
        | inl closed ↦ simp (late, closed) k
        | inr opened ↦ elim (Bool-cases (retargeted i.target v.expected)) [
          | inl moved ↦ simp (late, opened, moved) k
          | inr same_target ↦ simp (late, opened, same_target) (deliver-IsKept p k)
        ]
      ]
    ]

visit_jobs-IsKept :
    (c : Config) (w : WorkerConfig) (now : ℕ) (visits : ℕ → Visit) (j : Job) (js : List Job)
    (p : Progress)
    → ((n : ℕ) → OnlyEnqueues (visits n).during)
    → All (λ i. i.seq ≡ j.seq → i ≡ j) js
    → IsKept j p
    → IsKept j (visit_jobs c w now visits js p)
unfolding visit_jobs
visit_jobs-IsKept c w now visits j [] p others same k = k
visit_jobs-IsKept c w now visits j (i ∷ js) p others same k =
    visit_jobs-IsKept c w now visits j js (visit_job c w now (visits i.seq) i p) others same.1
      (visit_job-IsKept c w j i same.0 (visits i.seq) (others i.seq) now p k)

-- A tick loses no pending job, whatever the gate, the sender and the disk do, while the others that
-- use the store only enqueue: afterwards the job is in the store under its number, `opId` and
-- payload, and it is pending unless the summary reports its `opId` as sent or as quarantined.
pub run_tick-IsKept :
    (c : Config) (w : WorkerConfig) (now : ℕ) (visits : ℕ → Visit) (s : Outbox) (j : Job)
    → IsValid s
    → ((n : ℕ) → OnlyEnqueues (visits n).during)
    → Memᴰ j s.jobs
    → j.status ≡ pending
    → IsKept j (run_tick c w now visits s)
unfolding run_tick
run_tick-IsKept c w now visits s j v others m pending_now =
    visit_jobs-IsKept c w now visits j (heads s.jobs) _ others
      (All-tabulate _ (heads s.jobs) (λ i listed e.
        Numbered-unique 1 s.next_seq s.jobs v.numbered
          (pending_jobs-mem s.jobs (heads-listed s.jobs listed)) m e))
      (record {
        job = j;
        stored = m;
        same_seq = refl;
        same_id = refl;
        same_payload = refl;
        state = inl pending_now;
      })
