-- ===== src/Worker/Sent.antt =====
-- src/outbox/worker.ts: what has to hold for a job to be sent.
use pi_kiwifs_memory.Prelude.{
  ℕ, ◌≡◌, refl, false, inl, inr, arith, List, [], ◌∷◌, ◌≤◌, none, Bool-cases, Option-cases, Memᴰ,
  ltb, All, All-append, All-tabulate, String, ◌||◌,
}
use pi_kiwifs_memory.Backend.{Thrown, is_private_error}
use pi_kiwifs_memory.Outbox.{ack, has_op_id, Job, Outbox, Config, Result, ok, threw}
use pi_kiwifs_memory.Worker.{
  WorkerConfig, Visit, Progress, Decision, heads, hold, failed, attempt, deliver, retargeted,
  reaches_send, visit_job, visit_jobs, run_tick, note_sent, note_ack, note_retry, note_quarantine,
  record_failure, will_retry, awaited,
}

-- A job of `hs` that is due, meets an open gate before the delivery and at the network check, and
-- has no other target than the session's.
pub record IsHanded (now : ℕ) (visits : ℕ → Visit) (hs : List Job) (id : String) : Type 0 where
  pub job : Job
  pub listed : Memᴰ job hs
  pub same_id : job.op_id ≡ id
  pub is_due : job.next_attempt_at ≤ now
  pub open_before : (visits job.seq).private_before ≡ false
  pub same_target : retargeted job.target (visits job.seq).expected ≡ false
  pub allowed : (visits job.seq).refuses ≡ none

-- And whose sender resolves.
pub record IsDelivery (now : ℕ) (visits : ℕ → Visit) (hs : List Job) (id : String) : Type 0 where
  pub handed_over : IsHanded now visits hs id
  pub resolved : (visits handed_over.job.seq).sends ≡ none

-- Nothing more is handed to the sender, or is reported as sent.
abbrev SendsNothing : Progress → Progress → Type 0
SendsNothing p q = (q.handed ≡ p.handed) × (q.summary.sent ≡ p.summary.sent)

note_retry-SendsNothing :
    (j : Job) (n at : ℕ) (d : Decision) (p : Progress) (r : Outbox × Result (Unit {0}))
    → SendsNothing p (note_retry j n at d p r)
unfolding note_retry
note_retry-SendsNothing j n at d p (s, ok _) = (refl, refl)
note_retry-SendsNothing j n at d p (s, threw _) = (refl, refl)

note_quarantine-SendsNothing :
    (j : Job) (reason : String) (d : Decision) (p : Progress) (r : Outbox × Result (Unit {0}))
    → SendsNothing p (note_quarantine j reason d p r)
unfolding note_quarantine
note_quarantine-SendsNothing j reason d p (s, ok _) = (refl, refl)
note_quarantine-SendsNothing j reason d p (s, threw _) = (refl, refl)

note_ack-SendsNothing :
    (j : Job) (p : Progress) (r : Outbox × Result (Unit {0})) → SendsNothing p (note_ack j p r)
unfolding note_ack
note_ack-SendsNothing j p (s, ok _) = (refl, refl)
note_ack-SendsNothing j p (s, threw _) = (refl, refl)

module _ (c : Config) (w : WorkerConfig) where
  record_failure-SendsNothing :
      (v : Visit) (e : Thrown) (j : Job) (p : Progress)
      → SendsNothing p (record_failure c w v e j p)
  unfolding record_failure
  record_failure-SendsNothing v e j p = elim (Bool-cases (will_retry c w e j)) [
    | inl again ↦ simp again (note_retry-SendsNothing j _ _ _ p _)
    | inr over ↦ simp over (note_quarantine-SendsNothing j _ _ p _)
  ]

  failed-SendsNothing :
      (v : Visit) (e : Thrown) (j : Job) (p : Progress) → SendsNothing p (failed c w v e j p)
  unfolding failed hold
  failed-SendsNothing v e j p = elim (Bool-cases (v.private_after || is_private_error e)) [
    | inl kept ↦ simp kept (refl, refl)
    | inr lost ↦ simp lost (record_failure-SendsNothing v e j p)
  ]

  sent-awaited :
      (v : Visit) (j : Job) (p : Progress) → (awaited c w v j p).summary.sent ≡ p.summary.sent
  unfolding awaited
  sent-awaited v j p = ground arith

  attempt-none :
      (v : Visit) (j : Job) (s : Outbox)
      → attempt c w v j s ≡ none
      → (v.refuses ≡ none) × (v.sends ≡ none)
  unfolding attempt
  attempt-none v j s h = ground arith

  module _ (now : ℕ) (visits : ℕ → Visit) (hs : List Job) where
    abbrev Justified : Progress → Type 0
    Justified p =
        All (IsHanded now visits hs) p.handed × All (IsDelivery now visits hs) p.summary.sent

    Justified-same : (p q : Progress) → SendsNothing p q → Justified p → Justified q
    Justified-same p q (handed, sent) h = (rw handed h.0, rw sent h.1)

    awaited-Justified :
        (j : Job) (p : Progress)
        → ((visits j.seq).refuses ≡ none → IsHanded now visits hs j.op_id)
        → Justified p
        → Justified (awaited c w (visits j.seq) j p)
    unfolding awaited reaches_send
    awaited-Justified j p is_handed h = elim (Option-cases (visits j.seq).refuses) [
      | inr (e, refused) ↦ rw (refused, awaited, reaches_send) h
      | inl allowed ↦ elim (Bool-cases (has_op_id j.op_id p.store.jobs)) [
        | inr gone ↦ rw (allowed, gone, awaited, reaches_send) h
        | inl stored ↦
            rw (allowed, stored, awaited, reaches_send)
              (All-append _ p.handed _ h.0 (is_handed allowed, tt), h.1)
      ]
    ]

    deliver-Justified :
        (j : Job) (p : Progress)
        → ((visits j.seq).refuses ≡ none → IsHanded now visits hs j.op_id)
        → ((d : (visits j.seq).refuses ≡ none)
            → (visits j.seq).sends ≡ none
            → IsDelivery now visits hs j.op_id)
        → Justified p
        → Justified (deliver c w (visits j.seq) j p)
    unfolding deliver note_sent
    deliver-Justified j p is_handed is_delivery h =
        let v = visits j.seq in
        let a = awaited c w v j p in
        let waited = awaited-Justified j p is_handed h in
        elim (Option-cases (attempt c w v j p.store)) [
          | inl sending ↦
              let (allowed, resolved) = attempt-none v j p.store sending in
              rw (sending, deliver)
                (Justified-same (note_sent j a)
                  (note_ack j (note_sent j a) (ack j.seq v.now v.io a.store))
                  (note_ack-SendsNothing j (note_sent j a) _)
                  (
                    waited.0,
                    All-append _ a.summary.sent _ waited.1 (is_delivery allowed resolved, tt),
                  ))
          | inr (e, stopped) ↦
              rw (stopped, deliver)
                (Justified-same a (failed c w v e j a) (failed-SendsNothing v e j a) waited)
        ]

    visit_job-Justified :
        (j : Job) (p : Progress)
        → Memᴰ j hs
        → Justified p
        → Justified (visit_job c w now (visits j.seq) j p)
    unfolding visit_job hold
    visit_job-Justified j p m h = elim (Bool-cases (ltb now j.next_attempt_at)) [
      | inl early ↦ rw (early, visit_job) h
      | inr late ↦ elim (Bool-cases (visits j.seq).private_before) [
        | inl closed ↦ rw (late, closed, visit_job) h
        | inr opened ↦ elim (Bool-cases (retargeted j.target (visits j.seq).expected)) [
          | inl moved ↦ rw (late, opened, moved, visit_job) h
          | inr same ↦
              let is_handed : (visits j.seq).refuses ≡ none → IsHanded now visits hs j.op_id =
                λ allowed. record {
                  job = j;
                  listed = m;
                  same_id = refl;
                  is_due = ground arith;
                  open_before = opened;
                  same_target = same;
                  allowed = allowed;
                } in
              let reached : visit_job c w now (visits j.seq) j p ≡ deliver c w (visits j.seq) j p =
                simp (late, opened, same) in
              rw reached (
                deliver-Justified j p is_handed
                  (λ allowed resolved. record {
                    handed_over = is_handed allowed;
                    resolved = resolved;
                  })
                  h)
        ]
      ]
    ]

    visit_jobs-Justified :
        (js : List Job) (p : Progress)
        → All (λ j. Memᴰ j hs) js
        → Justified p
        → Justified (visit_jobs c w now visits js p)
    unfolding visit_jobs
    visit_jobs-Justified [] p ms h = h
    visit_jobs-Justified (j ∷ js) p ms h =
        visit_jobs-Justified js (visit_job c w now (visits j.seq) j p) ms.1
          (visit_job-Justified j p ms.0 h)

-- Every `opId` for which a tick calls the sender, whether the sender resolves or not, is that of a
-- scope's head which was due, found the gate open before the delivery and at the network check, and
-- had no other delivery target than the session's; and every `opId` that the tick reports as sent
-- is such a one whose sender resolved.
pub sent-IsDelivery :
    (c : Config) (w : WorkerConfig) (now : ℕ) (visits : ℕ → Visit) (s : Outbox)
    → All (IsHanded now visits (heads s.jobs)) (run_tick c w now visits s).handed
      × All (IsDelivery now visits (heads s.jobs)) (run_tick c w now visits s).summary.sent
unfolding run_tick
sent-IsDelivery c w now visits s =
    visit_jobs-Justified c w now visits (heads s.jobs) (heads s.jobs) _
      (All-tabulate _ (heads s.jobs) (λ j m. m)) (tt, tt)
