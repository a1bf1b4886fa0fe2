-- ===== src/Observer.antt =====
-- src/observation/scheduler.ts: the batches of source entries. A run of a batch awaits its
-- extraction, so it is two steps, between which any other step may come.
pub mod Weight
pub mod Orderly
pub mod Steps
pub mod Runs
pub mod Sent
mod Tests
use pi_kiwifs_memory.Prelude.{
  ℕ, zero, suc, ◌+◌, ◌-◌, ◌*◌, ◌/◌, ◌^◌, max, min, String, Bool, true, false, ◌&&◌, ◌||◌, not,
  Option, none, some, List, [], ◌∷◌, ◌++◌, map, any, filter, find, length, is_some, ltb, leb, ◌==◌,
  str_eq, if◌then◌else◌,
}

pub record SourceEntryView : Type 0 where
  pub id : String
  pub text : String

pub data BatchTrigger : Type 0 where
  threshold idle manual compact : BatchTrigger

-- Without the two budgets, which are the options'.
pub record PendingBatchRecord : Type 0 where
  pub op_id : String
  pub trigger : BatchTrigger
  pub entry_ids : List String
  pub created_at : ℕ
  pub attempts : ℕ
  pub next_attempt_at : Option ℕ

-- A run that awaits its extraction: what it sent, by id and redacted text.
pub record Flight : Type 0 where
  pub flight_op : String
  pub sources : List (String × String)
  pub started_in : ℕ

-- An observation that the outbox accepts, by its `opId` and its `sourceEntryIds`.
pub record ObservationJob : Type 0 where
  pub job_op : String
  pub source_entry_ids : List String

-- `consumed` is the coordinator's registry, `queue` the runs that wait in the chain.
pub record Observer : Type 0 where
  pub pending : List PendingBatchRecord
  pub consumed : List String
  pub queue : List String
  pub flight : Option Flight
  pub generation : ℕ
  pub jobs : List ObservationJob
  pub private_skipped : ℕ
  pub idle_armed : Bool

pub record ObserverOptions : Type 0 where
  pub has_extractor : Bool
  pub usable : String → Bool  -- not blank, and not excluded
  pub text_length : String → ℕ
  pub redact : String → Option String
  pub min_batch_tokens : ℕ
  pub min_batch_turns : ℕ
  pub input_budget_tokens : ℕ
  pub max_pending_batches : ℕ
  pub retry_base_ms : ℕ
  pub retry_cap_ms : ℕ

-- What a step meets: the provider's entries, the private mode, the clock and the next random UUID,
-- and whether the writes of the coordinator's file and of the scheduler's own succeed.
pub record Moment : Type 0 where
  pub entries : List SourceEntryView
  pub is_private : Bool
  pub now : ℕ
  pub uuid : String
  pub marks_saved : Bool
  pub state_saved : Bool

-- How the extraction of a run ends, and whether the outbox accepts its job.
pub data Extraction : Type 0 where
  throws extracted_refused extracted_accepted : Extraction

pub data ObserverStep : Type 0 where
  settled idled extracts_now starts : Moment → ObserverStep
  compacts : Bool → Moment → ObserverStep
  finishes : Extraction → Moment → ObserverStep
  new_generation : ObserverStep  -- by the coordinator

pub member : String → List String → Bool
member id ids = any (λ x. str_eq x id) ids

pub in_batches : String → List PendingBatchRecord → Bool
in_batches id bs = any (λ b. member id b.entry_ids) bs

pub ids_of : List SourceEntryView → List String
ids_of es = map (λ e. e.id) es

module _ (o : ObserverOptions) where
  pub estimate_tokens : String → ℕ
  estimate_tokens t = max 1 ((o.text_length t + 3) / 4)

  pub is_unprocessed : Observer → SourceEntryView → Bool
  is_unprocessed s e =
      o.usable e.text && not (member e.id s.consumed) && not (in_batches e.id s.pending)

  pub select_unprocessed : Moment → Observer → List SourceEntryView
  select_unprocessed m s = filter (is_unprocessed s) m.entries

  -- The ids that `buildBatch` takes: up to the budget, and at least one.
  pub fill_batch : List String → ℕ → List SourceEntryView → List String
  fill_batch ids tokens [] = ids
  fill_batch ids tokens (e ∷ es) =
      let t = estimate_tokens e.text in
      let more = fill_batch (ids ++ e.id ∷ []) (tokens + t) es in
      if not (length ids == 0) && ltb o.input_budget_tokens (tokens + t) then ids else more

  pub build_batch : List SourceEntryView → BatchTrigger → Moment → PendingBatchRecord
  build_batch candidates trigger m = record {
    op_id = m.uuid;
    trigger = trigger;
    entry_ids = fill_batch [] 0 candidates;
    created_at = m.now;
    attempts = 0;
    next_attempt_at = none;
  }

  -- `new Set([...a, ...b])` as a list, for an `a` without repetitions.
  pub union : List String → List String → List String
  union a [] = a
  union a (x ∷ xs) = union (if member x a then a else a ++ x ∷ []) xs

  pub merge_into : PendingBatchRecord → List PendingBatchRecord → List PendingBatchRecord
  merge_into batch [] = []
  merge_into batch (oldest ∷ rest) =
      record oldest { entry_ids = union oldest.entry_ids batch.entry_ids } ∷ rest

  -- Whether a run of the batch is queued or in flight.
  pub is_running : String → Observer → Bool
  is_running op s =
      member op s.queue || (elim s.flight [ none ↦ false | some f ↦ str_eq f.flight_op op ])

  pub enqueue_run : String → Observer → Observer
  enqueue_run op s = if is_running op s then s else record s { queue = s.queue ++ op ∷ [] }

  pub enqueue_oldest : List PendingBatchRecord → Observer → Observer
  enqueue_oldest [] s = s
  enqueue_oldest (b ∷ bs) s = enqueue_run b.op_id s

  -- The record stays in memory when its write throws, which skips the run.
  pub add_batch : Moment → PendingBatchRecord → Observer → Observer
  add_batch m b s =
      let s' : Observer = record s { pending = s.pending ++ b ∷ [] } in
      if m.state_saved then enqueue_run b.op_id s' else s'

  pub merge_batch : Moment → PendingBatchRecord → Observer → Observer
  merge_batch m b s =
      let merged = merge_into b s.pending in
      let s' : Observer = record s { pending = merged } in
      if m.state_saved then enqueue_oldest merged s' else s'

  pub create_and_run : List SourceEntryView → BatchTrigger → Moment → Observer → Observer
  create_and_run candidates trigger m s =
      let batch = build_batch candidates trigger m in
      if leb o.max_pending_batches (length s.pending)
      then merge_batch m batch s
      else add_batch m batch s

  -- `coordinator.markConsumed` adds the ids in memory; its write is due when one is new, and may
  -- throw.
  pub mark_entries : List String → Observer → Observer
  mark_entries ids s = record s { consumed = s.consumed ++ ids }

  pub mark_returns : Moment → List String → Observer → Bool
  mark_returns m ids s = m.marks_saved || not (any (λ id. not (member id s.consumed)) ids)

  pub classify_private_session : Moment → List SourceEntryView → Observer → Observer
  classify_private_session m candidates s =
      let s' = mark_entries (ids_of candidates) s in
      if mark_returns m (ids_of candidates) s
      then record s' { private_skipped = s'.private_skipped + length candidates }
      else s'

  pub is_due : ℕ → PendingBatchRecord → Bool
  is_due now b = elim b.next_attempt_at [ none ↦ true | some at ↦ leb at now ]

  pub enqueue_all : List PendingBatchRecord → Observer → Observer
  enqueue_all [] s = s
  enqueue_all (b ∷ bs) s = enqueue_all bs (enqueue_run b.op_id s)

  pub retry_pending : ℕ → Observer → Observer
  retry_pending now s = enqueue_all (filter (is_due now) s.pending) s

  pub tokens_of : List SourceEntryView → ℕ
  tokens_of [] = 0
  tokens_of (e ∷ es) = estimate_tokens e.text + tokens_of es

  -- For the candidates of a settled response.
  pub schedule : List SourceEntryView → Moment → Observer → Observer
  schedule [] m s = s
  schedule (e ∷ es) m s =
      if ltb (tokens_of (e ∷ es)) o.min_batch_tokens && ltb (length (e ∷ es)) o.min_batch_turns
      then record s { idle_armed = true }
      else create_and_run (e ∷ es) threshold m s

  pub on_agent_settled : Moment → Observer → Observer
  on_agent_settled m s =
      let s' : Observer = record s { idle_armed = false } in
      if m.is_private
      then classify_private_session m (select_unprocessed m s') s'
      else let r = retry_pending m.now s' in
        if not o.has_extractor then r else schedule (select_unprocessed m r) m r

  -- A batch of all candidates, if there are any.
  pub create_some : List SourceEntryView → BatchTrigger → Moment → Observer → Observer
  create_some [] trigger m s = s
  create_some (e ∷ es) trigger m s = create_and_run (e ∷ es) trigger m s

  -- The idle timer, when it is armed.
  pub on_idle : Moment → Observer → Observer
  on_idle m s =
      let s' : Observer = record s { idle_armed = false } in
      if not s.idle_armed
      then s
      else if m.is_private
      then classify_private_session m (select_unprocessed m s') s'
      else create_some (select_unprocessed m s') idle m s'

  pub extract_now : Moment → Observer → Observer
  extract_now m s =
      let s' : Observer = record s { idle_armed = false } in
      if m.is_private
      then s'
      else if not o.has_extractor
      then s'
      else create_some (select_unprocessed m s') manual m s'

  pub flush_batch : List SourceEntryView → Moment → Observer → Observer
  flush_batch [] m s = s
  flush_batch (e ∷ es) m s = add_batch m (build_batch (e ∷ es) compact m) s

  -- `onBeforeCompact` up to its wait, which changes nothing; `aborted` is the signal's state.
  pub on_before_compact : Bool → Moment → Observer → Observer
  on_before_compact aborted m s =
      if m.is_private
      then classify_private_session m (select_unprocessed m s) s
      else if not o.has_extractor
      then s
      else if aborted
      then s
      else flush_batch (select_unprocessed m s) m s

  pub find_batch : String → List PendingBatchRecord → Option PendingBatchRecord
  find_batch op bs = find (λ b. str_eq b.op_id op) bs

  pub remove_batch : String → List PendingBatchRecord → List PendingBatchRecord
  remove_batch op bs = filter (λ b. not (str_eq b.op_id op)) bs

  pub later_view : Option SourceEntryView → Option SourceEntryView → Option SourceEntryView
  later_view earlier none = earlier
  later_view earlier (some e) = some e

  -- `byId.get(id)`: of entries with one id, the map keeps the last.
  pub view_of : String → List SourceEntryView → Option SourceEntryView
  view_of id [] = none
  view_of id (e ∷ es) = later_view (if str_eq e.id id then some e else none) (view_of id es)

  pub add_view : Option SourceEntryView → List SourceEntryView → List SourceEntryView
  add_view none rest = rest
  add_view (some e) rest = e ∷ rest

  -- The entries of the batch that the provider still has, in the order of the batch.
  pub views_of : List SourceEntryView → List String → List SourceEntryView
  views_of entries [] = []
  views_of entries (id ∷ ids) = add_view (view_of id entries) (views_of entries ids)

  pub add_source :
      String → Option String → Option (List (String × String)) → Option (List (String × String))
  add_source id none rest = none
  add_source id (some content) none = none
  add_source id (some content) (some more) = some ((id, content) ∷ more)

  -- The redacted sources; `none` when the redactor refuses one of them.
  pub redact_all : List SourceEntryView → Option (List (String × String))
  redact_all [] = some []
  redact_all (e ∷ es) = add_source e.id (o.redact e.text) (redact_all es)

  -- The batch is accepted or vanished: its entries are marked, and its record goes unless that
  -- throws.
  pub consume : Moment → PendingBatchRecord → Observer → Observer
  consume m b s =
      let s' = mark_entries b.entry_ids s in
      if mark_returns m b.entry_ids s
      then record s' { pending = remove_batch b.op_id s'.pending }
      else s'

  pub send : PendingBatchRecord → Option (List (String × String)) → Observer → Observer
  send b none s = s
  send b (some sources) s = record s {
    flight = some (record { flight_op = b.op_id; sources = sources; started_in = s.generation });
  }

  pub start_views : PendingBatchRecord → List SourceEntryView → Moment → Observer → Observer
  start_views b [] m s = consume m b s
  start_views b (e ∷ es) m s = if not o.has_extractor then s else send b (redact_all (e ∷ es)) s

  pub start_batch : Option PendingBatchRecord → Moment → Observer → Observer
  start_batch none m s = s
  start_batch (some b) m s = start_views b (views_of m.entries b.entry_ids) m s

  -- The chain's next run begins, when none is in flight: `runBatch` up to its `await`.
  pub start_next : List String → Moment → Observer → Observer
  start_next [] m s = s
  start_next (op ∷ ops) m s = start_batch (find_batch op s.pending) m (record s { queue = ops })

  pub start_run : Moment → Observer → Observer
  start_run m s = if is_some s.flight then s else start_next s.queue m s

  pub note_failure : String → ℕ → List PendingBatchRecord → List PendingBatchRecord
  note_failure op now [] = []
  note_failure op now (b ∷ bs) =
      (if str_eq b.op_id op
        then record b {
          attempts = b.attempts + 1;
          next_attempt_at =
              some (now + min o.retry_cap_ms (o.retry_base_ms * 2 ^ min b.attempts 16));
        }
        else b)
      ∷ note_failure op now bs

  -- The retry bookkeeping of an accepted batch is reset, which shows while the record stays.
  pub reset_retry : String → List PendingBatchRecord → List PendingBatchRecord
  reset_retry op [] = []
  reset_retry op (b ∷ bs) =
      (if str_eq b.op_id op then record b { attempts = 0; next_attempt_at = none } else b)
      ∷ reset_retry op bs

  pub accept_batch : Moment → PendingBatchRecord → Observer → Observer
  accept_batch m b s =
      let s' = consume m b (record s {
        jobs = s.jobs ++ record { job_op = b.op_id; source_entry_ids = b.entry_ids } ∷ [];
      }) in
      record s' { pending = reset_retry b.op_id s'.pending }

  pub accept : Moment → Option PendingBatchRecord → Observer → Observer
  accept m none s = s
  accept m (some b) s = accept_batch m b s

  -- `runBatch` behind its `await`. The batch is the record as it is now.
  pub land : Extraction → Moment → Flight → Observer → Observer
  land throws m f s = record s { pending = note_failure f.flight_op m.now s.pending }
  land extracted_refused m f s = s
  land extracted_accepted m f s =
      if f.started_in == s.generation then accept m (find_batch f.flight_op s.pending) s else s

  pub finish_flight : Extraction → Moment → Option Flight → Observer → Observer
  finish_flight x m none s = s
  finish_flight x m (some f) s = land x m f (record s { flight = none })

  pub finish_run : Extraction → Moment → Observer → Observer
  finish_run x m s = finish_flight x m s.flight s

  pub observer_step : ObserverStep → Observer → Observer
  observer_step (settled m) s = on_agent_settled m s
  observer_step (idled m) s = on_idle m s
  observer_step (extracts_now m) s = extract_now m s
  observer_step (starts m) s = start_run m s
  observer_step (compacts aborted m) s = on_before_compact aborted m s
  observer_step (finishes x m) s = finish_run x m s
  observer_step new_generation s = record s { generation = s.generation + 1 }
