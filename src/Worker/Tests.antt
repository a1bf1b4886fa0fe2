-- ===== src/Worker/Tests.antt =====
-- Runs of the worker of src/outbox/worker.ts, and its theorems at concrete inputs.
use pi_kiwifs_memory.Prelude.{
  ℕ, ◌≤◌, ◌≡◌, refl, String, true, false, Option, none, some, List, [], ◌∷◌, Memᴰ, All, arith,
}
use pi_kiwifs_memory.Backend.{Thrown, backend_error, availability}
use pi_kiwifs_memory.Outbox.{
  Config, Job, Outbox, fails_before_rename, has_op_id, observation, pending, pending_jobs,
}
use pi_kiwifs_memory.Worker.{
  Visit, attempt, awaited, backoff_ms, defaults, deliver, failed, heads, heads_from, hold, put_head,
  raw_delay, reaches_send, retargeted, run_ops, run_tick, visit_job, visit_jobs,
}
use pi_kiwifs_memory.Worker.Heads.{Covers, heads-first, heads_complete}
use pi_kiwifs_memory.Worker.Private.{op_ids, due, run_tick-private}
use pi_kiwifs_memory.Worker.Sent.{IsHanded, IsDelivery, sent-IsDelivery}
use pi_kiwifs_memory.Worker.Kept.{IsKept, run_tick-IsKept}

abbrev small : Config
small = record {
  max_jobs = 9;
  max_bytes = 1000;
  retention_ms = 50;
  target_for = λ scope. none;
  looks_secret_bearing = λ text. false;
  json_length = λ j. 100;
}

abbrev job : ℕ → String → Job
job n scope = record {
  seq = n;
  schema_version = 1;
  kind = observation;
  scope = scope;
  op_id = "op";
  idempotency_key = "0123456789abcdef";
  payload = "{}";
  target = none;
  attempts = 0;
  next_attempt_at = 10;
  created_at = 10;
  status = pending;
  last_error = none;
  acked_at = none;
}

abbrev stored : List Job
stored = job 1 "a" ∷ job 2 "b" ∷ job 3 "a" ∷ []

abbrev store : Outbox
store = record {
  jobs = stored;
  next_seq = 4;
  read_only = none;
  closed = false;
  persist_fault = false;
  disk = stored;
}

abbrev failing : Option Thrown → Visit
failing e = record {
  private_before = false;
  expected = none;
  refuses = none;
  during = [];
  sends = e;
  private_after = false;
  now = 40;
  draw = 0;
  io = fails_before_rename;
}

abbrev closed_gate : Visit
closed_gate = record (failing none) { private_before = true }

backoff_tests :
    (raw_delay defaults 3 ≡ 2000) × (raw_delay defaults 9 ≡ 60000) × (backoff_ms defaults 1 0 ≡ 500)
unfolding raw_delay backoff_ms
backoff_tests = (refl, refl, refl)

first_head : Memᴰ (job 1 "a") (heads stored)
unfolding heads heads_from put_head pending_jobs
first_head = Memᴰ.head refl

last_pending : Memᴰ (job 3 "a") (pending_jobs stored)
unfolding pending_jobs
last_pending = Memᴰ.tail (Memᴰ.tail (Memᴰ.head refl))

heads-first_example : Memᴰ (job 1 "a") (pending_jobs stored) × (1 ≤ 3)
heads-first_example = heads-first stored (job 1 "a") (job 3 "a") first_head last_pending refl

heads_complete_example : Covers (heads stored) (job 3 "a")
heads_complete_example = heads_complete stored (job 3 "a") last_pending

run_tick-private_example :
    let q = run_tick small defaults 20 (λ n. closed_gate) store in
    (q.store ≡ store)
    × (q.summary.sent ≡ [])
    × (q.summary.retried ≡ [])
    × (q.summary.quarantined ≡ [])
    × (q.summary.held ≡ op_ids (due 20 (heads stored)))
run_tick-private_example = run_tick-private small defaults 20 (λ n. closed_gate) store (λ n. refl)

sent-IsDelivery_example :
    let q = run_tick small defaults 20 (λ n. failing none) store in
    All (IsHanded 20 (λ n. failing none) (heads stored)) q.handed
    × All (IsDelivery 20 (λ n. failing none) (heads stored)) q.summary.sent
sent-IsDelivery_example = sent-IsDelivery small defaults 20 (λ n. failing none) store

run_tick-IsKept_example : IsKept (job 2 "b") (
    run_tick small defaults 20
      (λ n. failing (some (backend_error "AvailabilityError" availability)))
      store)
run_tick-IsKept_example =
    run_tick-IsKept small defaults 20
      (λ n. failing (some (backend_error "AvailabilityError" availability))) store (job 2 "b")
      (record { numbered = omega arith; disk_numbered = omega arith }) (λ n. tt)
      (Memᴰ.tail (Memᴰ.head refl)) refl

-- A sender that rejects was called for both heads, which are held when the gate has closed
-- meanwhile; behind a gate that was closed before it is called for none.
rejected_sends :
    let busy = record (failing (some (backend_error "AvailabilityError" availability))) {
      private_after = true;
    } in
    let q = run_tick small defaults 20 (λ n. busy) store in
    let r = run_tick small defaults 20 (λ n. closed_gate) store in
    (q.handed ≡ "op" ∷ "op" ∷ []) × (q.summary.sent ≡ []) × (r.handed ≡ [])
unfolding run_tick visit_jobs visit_job heads heads_from put_head pending_jobs retargeted deliver
    attempt awaited reaches_send has_op_id run_ops failed hold
rejected_sends = (refl, refl, refl)
