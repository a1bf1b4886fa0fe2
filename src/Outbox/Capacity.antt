-- ===== src/Outbox/Capacity.antt =====
-- src/outbox/store.ts: the high-water mark on the number of jobs.
use pi_kiwifs_memory.Prelude.{
  ℕ, ◌≡◌, refl, Option, none, inl, inr, arith, length, ◌≤◌, ◌<◌, length-append, length-filter, List,
  [], ◌∷◌, Option-cases, String,
}
use pi_kiwifs_memory.Outbox.{
  Outbox, Config, Op, Err, Io, Job, EnqueueInput, step, enqueue, refusal, new_job, capture_paused,
  update_seq, close, plain,
}
use pi_kiwifs_memory.Outbox.Outcomes.{
  intended, Outcome, kept, shut, done, failed_after, failed_before, step-Outcome, settle-Outcome,
}

length-update_seq : (n : ℕ) (f : Job → Job) (js : List Job) → length (update_seq n f js) ≡ length js
unfolding update_seq
length-update_seq n f [] = refl
length-update_seq n f (j ∷ js) = ground (arith, length-update_seq n f js)

Outcome-length :
    {s t : Outbox} {w : Outbox × Option Err}
    → Outcome s t w
    → (m : ℕ) → length s.jobs ≤ m
    → length t.jobs ≤ m
    → length w.0.jobs ≤ m
unfolding close
Outcome-length (kept e) m h k = h
Outcome-length shut m h k = h
Outcome-length done m h k = k
Outcome-length (failed_after e) m h k = h
Outcome-length (failed_before e b) m h k = h

not_refused_room :
    (c : Config) (i : EnqueueInput) (s : Outbox) → refusal c i s ≡ none → length s.jobs < c.max_jobs
unfolding refusal capture_paused
not_refused_room c i s h = ground arith

enqueue_bounded :
    (c : Config) (i : EnqueueInput) (now : ℕ) (random : String) (io : Io) (s : Outbox)
    → length s.jobs ≤ c.max_jobs
    → length (plain (enqueue c i now random io s)).0.jobs ≤ c.max_jobs
unfolding enqueue plain
enqueue_bounded c i now random io s h = elim (Option-cases (refusal c i s)) [
  | inl passed ↦
      let room = not_refused_room c i s passed in
      rw (passed, enqueue)
        (Outcome-length (settle-Outcome io s _ _) c.max_jobs h
          (omega (arith, room, length-append {0} s.jobs (new_job c i now random s.next_seq ∷ []))))
  | inr (e, refused) ↦ rw (refused, enqueue) h
]

-- No call takes the number of retained jobs over the high-water mark `maxJobs`.
pub step_bounded :
    (c : Config) (op : Op) (s : Outbox)
    → length s.jobs ≤ c.max_jobs
    → length (step c op s).0.jobs ≤ c.max_jobs
step_bounded c (Op.enqueuing i now random io) s h =
    unfold step in enqueue_bounded c i now random io s h
step_bounded c (Op.acking n now io) s h =
    Outcome-length (step-Outcome c (Op.acking n now io) s) c.max_jobs h
      (unfold intended in (rw (length-update_seq n _ s.jobs) h))
step_bounded c (Op.retrying n attempts at io) s h =
    Outcome-length (step-Outcome c (Op.retrying n attempts at io) s) c.max_jobs h
      (unfold intended in (rw (length-update_seq n _ s.jobs) h))
step_bounded c (Op.quarantining n reason io) s h =
    Outcome-length (step-Outcome c (Op.quarantining n reason io) s) c.max_jobs h
      (unfold intended in (rw (length-update_seq n _ s.jobs) h))
step_bounded c (Op.discarding n io) s h =
    Outcome-length (step-Outcome c (Op.discarding n io) s) c.max_jobs h
      (unfold intended in omega (arith, length-filter {0} _ s.jobs))
step_bounded c (Op.retaining now io) s h =
    Outcome-length (step-Outcome c (Op.retaining now io) s) c.max_jobs h
      (unfold intended in omega (arith, length-filter {0} _ s.jobs))
step_bounded c Op.closing s h =
    Outcome-length (step-Outcome c Op.closing s) c.max_jobs h (unfold intended close in h)
