-- ===== src/Outbox.antt =====
-- src/outbox/store.ts: the durable job journal. The jobs in memory and the journal on disk are two
-- fields; a write of the journal is an input that may fail before or after the rename.
pub mod Journal
pub mod Writes
pub mod Outcomes
pub mod Atomicity
pub mod Admission
pub mod Capacity
pub mod Retained
pub mod ReadOnly
pub mod Retention
mod Tests
pub mod Invariant
use pi_kiwifs_memory.Prelude.{
  ℕ, suc, ◌+◌, ◌-◌, String, Bool, true, false, ◌&&◌, ◌||◌, not, Option, none, some, List, [], ◌∷◌,
  ◌++◌, ltb, leb, ◌==◌, str_eq, if◌then◌else◌, length, filter, find, any, all, is_some, codes,
}

pub data JobStatus : Type 0 where
  pending quarantined acked : JobStatus

-- `IdempotentKind` of src/domain/idempotency.ts.
pub data Kind : Type 0 where
  observation reflection proposal backup_chunk board_message forget : Kind

pub record Job : Type 0 where
  pub seq : ℕ
  pub schema_version : ℕ
  pub kind : Kind
  pub scope : String
  pub op_id : String
  pub idempotency_key : String
  pub payload : String  -- its JSON text
  pub target : Option String
  pub attempts : ℕ
  pub next_attempt_at : ℕ
  pub created_at : ℕ
  pub status : JobStatus
  pub last_error : Option String
  pub acked_at : Option ℕ

abbrev pub is_pending : JobStatus → Bool
is_pending pending = true
is_pending _ = false

abbrev pub is_quarantined : JobStatus → Bool
is_quarantined quarantined = true
is_quarantined _ = false

abbrev pub is_acked : JobStatus → Bool
is_acked acked = true
is_acked _ = false

abbrev pub outbox_schema_version : ℕ
outbox_schema_version = 1

abbrev pub supported : Job → Bool
supported j = leb j.schema_version outbox_schema_version

-- `OutboxError` and its subclasses, and what a failing system call throws.
pub data Err : Type 0 where
  closed read_only overflow secret_bearing bad_key persist_fault io_error not_found : Err
  corrupt_line malformed_line lock_held over_permissive : Err

pub data Result (A : Type 0) : Type 0 where
  ok : A → Result A
  threw : Err → Result A

-- How the system calls of one journal write go: `openSync` to `renameSync`, then `fsyncDir`.
pub data Io : Type 0 where
  completes fails_before_rename fails_after_rename : Io

pub record Outbox : Type 0 where
  pub jobs : List Job
  pub next_seq : ℕ
  pub read_only : Option ℕ  -- the newer schema version that was met
  pub closed : Bool
  pub persist_fault : Bool  -- armed by a test
  pub disk : List Job  -- the jobs of the journal file

-- `OutboxLimits`, and what the store calls: `targetFor`, `looksSecretBearing`, and the length of
-- `JSON.stringify(job)`.
pub record Config : Type 0 where
  pub max_jobs : ℕ
  pub max_bytes : ℕ
  pub retention_ms : ℕ
  pub target_for : String → Option String
  pub looks_secret_bearing : String → Bool
  pub json_length : Job → ℕ

pub record EnqueueInput : Type 0 where
  pub kind : Kind
  pub scope : String
  pub idempotency_key : String
  pub payload : String
  pub op_id : Option String
  pub target : Option String

pub journal : List Job → List Job
journal js = filter supported js

-- `none` when the write returns, `some e` when it throws.
pub persist : Io → Outbox → Outbox × Option Err
persist io s =
    if s.persist_fault then (record s { persist_fault = false }, some persist_fault) else elim io [
      | completes ↦ (record s { disk = journal s.jobs }, none)
      | fails_before_rename ↦ (s, some io_error)
      | fails_after_rename ↦ (record s { disk = journal s.jobs }, some io_error)
    ]

-- What follows a write: the result, or the rollback to the jobs of `s` and the error.
pub settle : {A : Type 0} → Outbox → A → Outbox × Option Err → Outbox × Result A
settle s a (w, none) = (w, ok a)
settle s a (w, some e) = (record w { jobs = s.jobs; next_seq = s.next_seq }, threw e)

-- `/^[0-9a-f]{16,64}$/`
is_hex : ℕ → Bool
is_hex n = (leb b'0' n && leb n b'9') || (leb b'a' n && leb n b'f')

pub is_hex_key : String → Bool
unfolding is_hex
is_hex_key k = let cs = codes k in all is_hex cs && leb 16 (length cs) && leb (length cs) 64

pub find_seq : ℕ → List Job → Option Job
find_seq n js = find (λ j. j.seq == n) js

-- The change of one job in place: the first that has the number.
pub update_seq : ℕ → (Job → Job) → List Job → List Job
update_seq n f [] = []
update_seq n f (j ∷ js) = if j.seq == n then f j ∷ js else j ∷ update_seq n f js

-- `mutate`
pub mutate : ℕ → (Job → Job) → Io → Outbox → Outbox × Result (Unit {0})
mutate n f io s = if is_some s.read_only then (s, threw read_only) else elim (find_seq n s.jobs) [
  | none ↦ (s, threw not_found)
  | some j ↦
      if not (supported j)
      then (s, threw not_found)
      else settle s tt (persist io (record s { jobs = update_seq n f s.jobs }))
]

abbrev pub acknowledged : ℕ → Job → Job
acknowledged now j = record j { status = acked; acked_at = some now }

abbrev pub rescheduled : ℕ → ℕ → Job → Job
rescheduled attempts at j = record j { attempts = attempts; next_attempt_at = at }

abbrev pub set_aside : String → Job → Job
set_aside reason j = record j { status = quarantined; last_error = some reason }

pub ack : ℕ → ℕ → Io → Outbox → Outbox × Result (Unit {0})
ack n now = mutate n (acknowledged now)

pub retry : ℕ → ℕ → ℕ → Io → Outbox → Outbox × Result (Unit {0})
retry n attempts at = mutate n (rescheduled attempts at)

pub quarantine : ℕ → String → Io → Outbox → Outbox × Result (Unit {0})
quarantine n reason = mutate n (set_aside reason)

pub discard_quarantined : ℕ → Io → Outbox → Outbox × Result (Unit {0})
discard_quarantined n io s = elim (find (λ j. j.seq == n && is_quarantined j.status) s.jobs) [
  | none ↦ (s, threw not_found)
  | some _ ↦ settle s tt (persist io (record s { jobs = filter (λ j. not (j.seq == n)) s.jobs }))
]

unfoldable pub pending_jobs : List Job → List Job
pending_jobs js = filter (λ j. is_pending j.status && supported j) js

unfoldable pub has_op_id : String → List Job → Bool
has_op_id id js = any (λ j. str_eq j.op_id id) js

pub close : Outbox → Outbox
close s = record s { closed = true }

module _ (c : Config) where
  pub retained_bytes : List Job → ℕ
  retained_bytes [] = 0
  retained_bytes (j ∷ js) = c.json_length j + 1 + retained_bytes js

  pub capture_paused : Outbox → Bool
  unfolding retained_bytes
  capture_paused s = leb c.max_jobs (length s.jobs) || leb c.max_bytes (retained_bytes s.jobs)

  -- The job that `enqueue` builds; `random` is `randomUUID()`.
  pub new_job : EnqueueInput → ℕ → String → ℕ → Job
  new_job i now random n = record {
    seq = n;
    schema_version = outbox_schema_version;
    kind = i.kind;
    scope = i.scope;
    op_id = elim i.op_id [ none ↦ random | some id ↦ id ];
    idempotency_key = i.idempotency_key;
    payload = i.payload;
    target = elim i.target [ none ↦ c.target_for i.scope | some t ↦ some t ];
    attempts = 0;
    next_attempt_at = now;
    created_at = now;
    status = pending;
    last_error = none;
    acked_at = none;
  }

  -- The early `throw`s of `enqueue`, in order.
  pub refusal : EnqueueInput → Outbox → Option Err
  refusal i s =
      if s.closed
      then some closed
      else if is_some s.read_only
      then some read_only
      else if capture_paused s
      then some overflow
      else if c.looks_secret_bearing i.payload
      then some secret_bearing
      else if not (is_hex_key i.idempotency_key)
      then some bad_key
      else none

  pub enqueue : EnqueueInput → ℕ → String → Io → Outbox → Outbox × Result Job
  enqueue i now random io s = elim (refusal i s) [
    | some e ↦ (s, threw e)
    | none ↦
        let job = new_job i now random s.next_seq in
        settle s job
          (persist io (record s { jobs = s.jobs ++ job ∷ []; next_seq = suc s.next_seq }))
  ]

  -- `j.status !== "acked" || (j.ackedAt ?? 0) > cutoff`, with `cutoff = now - retentionMs`.
  pub is_retained : ℕ → Job → Bool
  is_retained now j =
      not (is_acked j.status)
      || ltb now (elim j.acked_at [ none ↦ 0 | some t ↦ t ] + c.retention_ms)

  pub run_retention : ℕ → Io → Outbox → Outbox × Result ℕ
  run_retention now io s =
      if is_some s.read_only
      then (s, ok 0)
      else let keep = filter (is_retained now) s.jobs in
        let removed = length s.jobs - length keep in
        if ltb 0 removed
        then settle s removed (persist io (record s { jobs = keep }))
        else (s, ok 0)

-- The calls that change a store, each with what the surroundings supply.
pub data Op : Type 0 where
  enqueuing : EnqueueInput → ℕ → String → Io → Op
  acking : ℕ → ℕ → Io → Op
  retrying : ℕ → ℕ → ℕ → Io → Op
  quarantining : ℕ → String → Io → Op
  discarding : ℕ → Io → Op
  retaining : ℕ → Io → Op
  closing : Op

-- What a call gives back, without the value that it returns.
pub outcome : {A : Type 0} → Result A → Option Err
outcome (ok a) = none
outcome (threw e) = some e

pub plain : {A : Type 0} → Outbox × Result A → Outbox × Option Err
unfolding outcome
plain (s, r) = (s, outcome r)

pub step : Config → Op → Outbox → Outbox × Option Err
unfolding plain
step c (enqueuing i now random io) s = plain (enqueue c i now random io s)
step c (acking n now io) s = plain (ack n now io s)
step c (retrying n attempts at io) s = plain (retry n attempts at io s)
step c (quarantining n reason io) s = plain (quarantine n reason io s)
step c (discarding n io) s = plain (discard_quarantined n io s)
step c (retaining now io) s = plain (run_retention c now io s)
step c closing s = (close s, none)
