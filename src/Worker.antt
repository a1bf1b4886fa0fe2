-- ===== src/Worker.antt =====
-- src/outbox/worker.ts: delivery of the outbox. What the gate, the sender and the disk do at one
-- job is a `Visit`; the store is that of `Outbox`.
pub mod Backoff
pub mod Heads
pub mod Private
pub mod Sent
pub mod Kept
mod Tests
use Prim.Native.String
use pi_kiwifs_memory.Prelude.{
  ℕ, zero, suc, ◌+◌, ◌-◌, ◌*◌, ◌/◌, ◌%◌, ◌^◌, min, String, Bool, true, false, ◌&&◌, ◌||◌, not,
  Option, none, some, List, [], ◌∷◌, ◌++◌, ltb, leb, ◌==◌, str_eq, if◌then◌else◌,
}
use pi_kiwifs_memory.Backend.{
  Thrown, backend_error, not_persisted, is_retryable, is_private_error, error_fingerprint,
}
use pi_kiwifs_memory.Outbox.{
  Job, Outbox, Config, Op, Io, Result, ok, threw, Kind, pending_jobs, has_op_id, ack, retry,
  quarantine, step,
}

-- `maxAttempts`, `baseDelayMs`, `capDelayMs`, and `jitterRatio` as a fraction. `Math.random()` is
-- the fraction of a draw over `draws`.
pub record WorkerConfig : Type 0 where
  pub max_attempts : ℕ
  pub base_delay_ms : ℕ
  pub cap_delay_ms : ℕ
  pub jitter_num : ℕ
  pub jitter_den : ℕ
  pub draws : ℕ

abbrev pub defaults : WorkerConfig
defaults = record {
  max_attempts = 8;
  base_delay_ms = 500;
  cap_delay_ms = 60000;
  jitter_num = 1;
  jitter_den = 5;
  draws = 2 ^ 53;
}

pub raw_delay : WorkerConfig → ℕ → ℕ
raw_delay w attempts = min w.cap_delay_ms (w.base_delay_ms * 2 ^ (attempts - 1))

-- `Math.round(raw * (1 + jitterRatio * random))`, a half rounded up.
pub backoff_ms : WorkerConfig → ℕ → ℕ → ℕ
backoff_ms w attempts draw =
    let whole = w.jitter_den * w.draws in
    (2 * (raw_delay w attempts * (whole + w.jitter_num * draw)) + whole) / (2 * whole)

-- What the worker meets at one job.
pub record Visit : Type 0 where
  pub private_before : Bool  -- `gate.isPrivate` before the delivery
  pub expected : Option String  -- `expectedTarget(job)`
  pub refuses : Option Thrown  -- what `assertNetworkAllowed` throws
  pub during : List Op  -- the calls of the store that others make while `send` is awaited
  pub sends : Option Thrown  -- what `send` throws
  pub private_after : Bool  -- `gate.isPrivate` in the `catch`
  pub now : ℕ
  pub draw : ℕ
  pub io : Io  -- how the write that records the outcome goes

pub data Decision : Type 0 where
  held_private held_target sent : Decision
  retrying : ℕ → ℕ → String → Decision
  quarantining : String → Decision

pub record AuditEvent : Type 0 where
  pub feature : Kind
  pub scope : String
  pub decision : Decision
  pub degraded : Bool

pub record TickSummary : Type 0 where
  pub sent : List String
  pub pending_ack : List String
  pub retried : List (String × ℕ × ℕ)
  pub quarantined : List (String × String)
  pub held : List String

-- The store, the `opId`s for which `send` was called, the summary, and the audit events so far.
pub record Progress : Type 0 where
  pub store : Outbox
  pub handed : List String
  pub summary : TickSummary
  pub audit : List AuditEvent

abbrev pub nothing_yet : TickSummary
nothing_yet = record { sent = []; pending_ack = []; retried = []; quarantined = []; held = [] }

abbrev event : Job → Decision → Bool → AuditEvent
event j d degraded = record { feature = j.kind; scope = j.scope; decision = d; degraded = degraded }

pub run_ops : Config → List Op → Outbox → Outbox
run_ops c [] s = s
run_ops c (op ∷ ops) s = run_ops c ops (step c op s).0

-- The head of each scope, in the order in which the scopes were met: a `Map` by scope.
pub put_head : Job → List Job → List Job
put_head j [] = j ∷ []
put_head j (h ∷ hs) =
    if str_eq h.scope j.scope then (if ltb j.seq h.seq then j else h) ∷ hs else h ∷ put_head j hs

pub heads_from : List Job → List Job → List Job
heads_from hs [] = hs
heads_from hs (j ∷ js) = heads_from (put_head j hs) js

pub heads : List Job → List Job
heads js = heads_from [] (pending_jobs js)

pub hold : Job → Decision → Progress → Progress
hold j d p = record p {
  summary = record p.summary { held = p.summary.held ++ j.op_id ∷ [] };
  audit = p.audit ++ event j d false ∷ [];
}

-- `quarantined after ${n} attempt(s): ${fingerprint}`
digit_text : ℕ → String
digit_text d =
    if d == 0
    then "0"
    else if d == 1
    then "1"
    else if d == 2
    then "2"
    else if d == 3
    then "3"
    else if d == 4
    then "4"
    else if d == 5
    then "5"
    else if d == 6
    then "6"
    else if d == 7
    then "7"
    else if d == 8
    then "8"
    else "9"

decimal_from : ℕ → ℕ → String
decimal_from zero n = ""
decimal_from (suc fuel) n =
    let front = decimal_from fuel (n / 10) in
    if ltb n 10 then digit_text n else String.◌++◌ front (digit_text (n % 10))

pub quarantine_reason : ℕ → String → String
unfolding digit_text decimal_from
quarantine_reason n fingerprint =
    String.◌++◌ "quarantined after "
      (String.◌++◌ (decimal_from (suc n) n) (String.◌++◌ " attempt(s): " fingerprint))

-- What `deliver` notes of the outcome of a job, once the store has it or has refused it.
pub note_retry : Job → ℕ → ℕ → Decision → Progress → Outbox × Result (Unit {0}) → Progress
note_retry j attempts at d p (s, ok _) = record p {
  store = s;
  summary = record p.summary { retried = p.summary.retried ++ (j.op_id, attempts, at) ∷ [] };
  audit = p.audit ++ event j d true ∷ [];
}
note_retry j attempts at d p (s, threw _) = record p { store = s }

pub note_quarantine : Job → String → Decision → Progress → Outbox × Result (Unit {0}) → Progress
note_quarantine j reason d p (s, ok _) = record p {
  store = s;
  summary = record p.summary { quarantined = p.summary.quarantined ++ (j.op_id, reason) ∷ [] };
  audit = p.audit ++ event j d true ∷ [];
}
note_quarantine j reason d p (s, threw _) = record p { store = s }

-- The sender has resolved: it is sent, and the acknowledgement is stored or left for a replay.
pub note_ack : Job → Progress → Outbox × Result (Unit {0}) → Progress
note_ack j p (s, ok _) = record p { store = s }
note_ack j p (s, threw _) = record p {
  store = s;
  summary = record p.summary { pending_ack = p.summary.pending_ack ++ j.op_id ∷ [] };
}

pub note_sent : Job → Progress → Progress
note_sent j p = record p {
  summary = record p.summary { sent = p.summary.sent ++ j.op_id ∷ [] };
  audit = p.audit ++ event j Decision.sent false ∷ [];
}

-- `job.target !== undefined && expected !== undefined && job.target !== expected`
pub retargeted : Option String → Option String → Bool
retargeted (some t) (some e) = not (str_eq t e)
retargeted _ _ = false

module _ (c : Config) (w : WorkerConfig) where
  -- `isRetryable(err) && job.attempts + 1 < maxAttempts`
  pub will_retry : Thrown → Job → Bool
  will_retry e j = is_retryable e && ltb (j.attempts + 1) w.max_attempts

  -- The end of the `catch`: the retry or the quarantine is recorded, or its write fails.
  pub record_failure : Visit → Thrown → Job → Progress → Progress
  record_failure v e j p =
      let attempts = j.attempts + 1 in
      let at = v.now + backoff_ms w attempts v.draw in
      let fingerprint = error_fingerprint e in
      let reason = quarantine_reason attempts fingerprint in
      if will_retry e j
      then note_retry j attempts at (retrying attempts w.max_attempts fingerprint) p
          (retry j.seq attempts at v.io p.store)
      else note_quarantine j reason (quarantining fingerprint) p
          (quarantine j.seq reason v.io p.store)

  -- The `catch` of `deliver`.
  pub failed : Visit → Thrown → Job → Progress → Progress
  failed v e j p =
      if v.private_after || is_private_error e
      then hold j held_private p
      else record_failure v e j p

  -- What the `try` of `deliver` throws before and from `send`, over the store that it meets.
  pub attempt : Visit → Job → Outbox → Option Thrown
  attempt v j s = elim v.refuses [
    | some e ↦ some e
    | none ↦
        if has_op_id j.op_id s.jobs
        then v.sends
        else some (backend_error "OpIdNotPersistedError" not_persisted)
  ]

  -- `send` is reached when nothing before it throws; meanwhile others use the store.
  pub reaches_send : Visit → Job → Outbox → Bool
  reaches_send v j s = elim v.refuses [ some e ↦ false | none ↦ has_op_id j.op_id s.jobs ]

  pub awaited : Visit → Job → Progress → Progress
  awaited v j p =
      if reaches_send v j p.store
      then record p { store = run_ops c v.during p.store; handed = p.handed ++ j.op_id ∷ [] }
      else p

  pub deliver : Visit → Job → Progress → Progress
  deliver v j p = elim (attempt v j p.store) [
    | some e ↦ failed v e j (awaited v j p)
    | none ↦ let q = note_sent j (awaited v j p) in note_ack j q (ack j.seq v.now v.io q.store)
  ]

  -- One round of the loop of `runTick`; `now` is the time at which the tick began.
  pub visit_job : ℕ → Visit → Job → Progress → Progress
  visit_job now v j p =
      if ltb now j.next_attempt_at
      then p
      else if v.private_before
      then hold j held_private p
      else if retargeted j.target v.expected
      then hold j held_target p
      else deliver v j p

  pub visit_jobs : ℕ → (ℕ → Visit) → List Job → Progress → Progress
  visit_jobs now visits [] p = p
  visit_jobs now visits (j ∷ js) p = visit_jobs now visits js (visit_job now (visits j.seq) j p)

  pub run_tick : ℕ → (ℕ → Visit) → Outbox → Progress
  run_tick now visits s =
      visit_jobs now visits (heads s.jobs)
        (record { store = s; handed = []; summary = nothing_yet; audit = [] })
