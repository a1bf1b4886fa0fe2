-- ===== src/Outbox/Tests.antt =====
-- Runs of the store of src/outbox/store.ts, and its theorems at concrete inputs.
use pi_kiwifs_memory.Prelude.{
  ℕ, ◌≡◌, refl, false, Option, none, some, ◌⊎◌, List, [], ◌∷◌, ◌++◌, Memᴰ, arith, ◌≤◌, length,
}
use pi_kiwifs_memory.Outbox.{
  Job, JobStatus, pending, quarantined, acked, observation, Outbox, Config, EnqueueInput, completes,
  fails_after_rename, enqueuing, acking, retrying, retaining, overflow, bad_key, ok, threw, step,
  enqueue, run_retention, discard_quarantined, journal, persist, settle, mutate, ack, retry,
  quarantine, find_seq, update_seq, plain, outcome, is_hex_key, refusal, capture_paused,
  retained_bytes, new_job, is_retained,
}
use pi_kiwifs_memory.Outbox.Invariant.{IsValid, step-IsValid}
use pi_kiwifs_memory.Outbox.Outcomes.{intended}
use pi_kiwifs_memory.Outbox.Atomicity.{InSync, step-threw_unchanged, step-InSync}
use pi_kiwifs_memory.Outbox.Admission.{IsAccepted, enqueue-IsAccepted}
use pi_kiwifs_memory.Outbox.Capacity.{step_bounded}
use pi_kiwifs_memory.Outbox.Retained.{Survives, step-Survives}
use pi_kiwifs_memory.Outbox.ReadOnly.{Untouched, read_only-Untouched, discard-drops_newer}
use pi_kiwifs_memory.Outbox.Retention.{IsSwept, run_retention-IsSwept}
use pi_kiwifs_memory.Outbox.Journal.Recovery.{AllSupported, Recovers, step-Recovers}

outbox : Unit {0}
unfolding step plain outcome enqueue refusal capture_paused retained_bytes new_job is_hex_key
    persist settle journal mutate ack retry quarantine find_seq update_seq discard_quarantined
    run_retention is_retained
outbox = tt

abbrev small : Config
small = record {
  max_jobs = 3;
  max_bytes = 1000;
  retention_ms = 50;
  target_for = λ scope. none;
  looks_secret_bearing = λ text. false;
  json_length = λ j. 100;
}

abbrev job : ℕ → ℕ → JobStatus → Option ℕ → Job
job n version status at = record {
  seq = n;
  schema_version = version;
  kind = observation;
  scope = "personal";
  op_id = "op";
  idempotency_key = "0123456789abcdef";
  payload = "{}";
  target = none;
  attempts = 0;
  next_attempt_at = 10;
  created_at = 10;
  status = status;
  last_error = none;
  acked_at = at;
}

abbrev holding : List Job → Outbox
holding js = record {
  jobs = js;
  next_seq = 3;
  read_only = none;
  closed = false;
  persist_fault = false;
  disk = js;
}

abbrev two : Outbox
two = holding (job 1 1 acked (some 20) ∷ job 2 1 pending none ∷ [])

-- The file still has a job that was rolled back.
abbrev out_of_step : Outbox
out_of_step = record two { disk = two.jobs ++ job 3 1 pending none ∷ [] }

abbrev note : EnqueueInput
note = record {
  kind = observation;
  scope = "personal";
  idempotency_key = "fedcba9876543210";
  payload = "{}";
  op_id = some "op-3";
  target = none;
}

abbrev full : Outbox
full = holding (job 0 1 pending none ∷ job 1 1 pending none ∷ job 2 1 pending none ∷ [])

enqueue_tests :
    ((enqueue small note 30 "r" completes two).1 ≡ ok (new_job small note 30 "r" 3))
    × ((enqueue small note 30 "r" completes full).1 ≡ threw overflow)
    × ((enqueue small (record note { idempotency_key = "XY" }) 30 "r" completes two).1
        ≡ threw bad_key)
unfolding outbox
enqueue_tests = (refl, refl, refl)

two-IsValid : IsValid two
two-IsValid = record { numbered = omega arith; disk_numbered = omega arith }

two-InSync : InSync two
unfolding journal
two-InSync = refl

step-IsValid_example : IsValid (step small (enqueuing note 30 "r" fails_after_rename) two).0
step-IsValid_example = step-IsValid small (enqueuing note 30 "r" fails_after_rename) two two-IsValid

step-Recovers_example :
    AllSupported (step small (acking 2 40 fails_after_rename) out_of_step).0.disk
    × (Recovers (step small (acking 2 40 fails_after_rename) out_of_step).0 out_of_step.disk
        ⊎ Recovers
            (step small (acking 2 40 fails_after_rename) out_of_step).0
            (intended small (acking 2 40 fails_after_rename) out_of_step).jobs)
step-Recovers_example =
    step-Recovers small (acking 2 40 fails_after_rename) out_of_step
      (record { numbered = omega arith; disk_numbered = omega arith }) (refl, (refl, (refl, tt)))

step-Survives_example :
    Survives
      (retaining 90 completes)
      (job 2 1 pending none)
      (step small (retaining 90 completes) two).0.jobs
step-Survives_example =
    step-Survives small (retaining 90 completes) two (job 2 1 pending none) two-IsValid
      (Memᴰ.tail (Memᴰ.head refl)) refl

no_room : (step small (enqueuing note 30 "r" completes) full).1 ≡ some overflow
unfolding outbox
no_room = refl

step-threw_unchanged_example :
    ((step small (enqueuing note 30 "r" completes) full).0.jobs ≡ full.jobs)
    × ((step small (enqueuing note 30 "r" completes) full).0.next_seq ≡ full.next_seq)
step-threw_unchanged_example =
    step-threw_unchanged small (enqueuing note 30 "r" completes) full no_room

retried : (step small (retrying 2 1 99 completes) two).1 ≡ none
unfolding outbox
retried = refl

step-InSync_example : InSync (step small (retrying 2 1 99 completes) two).0
step-InSync_example = step-InSync small (retrying 2 1 99 completes) two retried two-InSync

abbrev third : Job
third = record (job 3 1 pending none) {
  op_id = "op-3";
  idempotency_key = "fedcba9876543210";
  next_attempt_at = 30;
  created_at = 30;
}

abbrev three : Outbox
three = record {
  jobs = two.jobs ++ third ∷ [];
  next_seq = 4;
  read_only = none;
  closed = false;
  persist_fault = false;
  disk = two.jobs ++ third ∷ [];
}

accepted : enqueue small note 30 "r" completes two ≡ (three, ok third)
unfolding outbox
accepted = refl

enqueue-IsAccepted_example : IsAccepted note two three third
enqueue-IsAccepted_example = enqueue-IsAccepted small note 30 "r" completes two accepted

step_bounded_example : length (step small (enqueuing note 30 "r" completes) two).0.jobs ≤ 3
step_bounded_example = step_bounded small (enqueuing note 30 "r" completes) two (omega arith)

abbrev newer : Outbox
newer = record (holding (job 1 1 quarantined none ∷ job 2 7 pending none ∷ [])) {
  read_only = some 7;
}

read_only-Untouched_example : Untouched newer (step small (acking 1 40 completes) newer).0
read_only-Untouched_example = read_only-Untouched small (acking 1 40 completes) newer refl refl

discarded : (discard_quarantined 1 completes newer).1 ≡ ok tt
unfolding outbox
discarded = refl

discard-drops_newer_example :
    ¬ Memᴰ (job 2 7 pending none) (discard_quarantined 1 completes newer).0.disk
discard-drops_newer_example =
    discard-drops_newer 1 completes newer (job 2 7 pending none) refl discarded

abbrev one : Outbox
one = record two { jobs = job 2 1 pending none ∷ []; disk = job 2 1 pending none ∷ [] }

cleaned : run_retention small 90 completes two ≡ (one, ok 1)
unfolding outbox
cleaned = refl

run_retention-IsSwept_example : IsSwept small 90 two one
run_retention-IsSwept_example = run_retention-IsSwept small 90 completes two refl cleaned
