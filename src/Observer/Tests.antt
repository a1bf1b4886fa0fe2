-- ===== src/Observer/Tests.antt =====
-- Runs of src/observation/scheduler.ts, and its theorems at concrete inputs.
use pi_kiwifs_memory.Prelude.{◌≡◌, refl, String, true, false, none, some, List, [], ◌∷◌, arith}
use pi_kiwifs_memory.Observer.{
  SourceEntryView, PendingBatchRecord, Observer, ObserverOptions, Moment, Flight,
  extracted_accepted, settled, observer_step, threshold, member, in_batches, estimate_tokens,
  is_unprocessed, select_unprocessed, fill_batch, build_batch, union, merge_into, is_running,
  enqueue_run, enqueue_oldest, enqueue_all, add_batch, create_and_run, retry_pending, is_due,
  tokens_of, schedule, on_agent_settled, find_batch, remove_batch, later_view, view_of, add_view,
  views_of, add_source, redact_all, consume, send, start_views, start_batch, start_next, start_run,
  accept, land, finish_flight, finish_run, ids_of, merge_batch, accept_batch, reset_retry,
  mark_entries, mark_returns,
}
use pi_kiwifs_memory.Observer.Orderly.{IsOrderly, IsAdvance}
use pi_kiwifs_memory.Observer.Runs.{observer_step-IsAdvance}
use pi_kiwifs_memory.Observer.Sent.{IsSent, start_run-IsSent}

abbrev options : ObserverOptions
options = record {
  has_extractor = true;
  usable = λ t. true;
  text_length = λ t. 40;
  redact = λ t. some "safe";
  min_batch_tokens = 10;
  min_batch_turns = 2;
  input_budget_tokens = 100;
  max_pending_batches = 1;
  retry_base_ms = 1000;
  retry_cap_ms = 60000;
}

abbrev moment : String → List SourceEntryView → Moment
moment uuid entries = record {
  entries = entries;
  is_private = false;
  now = 5;
  uuid = uuid;
  marks_saved = true;
  state_saved = true;
}

abbrev entry : String → SourceEntryView
entry id = record { id = id; text = "hello" }

abbrev empty : Observer
empty = record {
  pending = [];
  consumed = [];
  queue = [];
  flight = none;
  generation = 0;
  jobs = [];
  private_skipped = 0;
  idle_armed = false;
}

empty-IsOrderly : IsOrderly empty
unfolding member
empty-IsOrderly = record { ops = λ op. omega arith; once = λ id. omega arith }

observer_step-IsAdvance_example :
    IsAdvance true empty (observer_step options (settled (moment "u" (entry "a" ∷ []))) empty)
observer_step-IsAdvance_example =
    observer_step-IsAdvance options (settled (moment "u" (entry "a" ∷ []))) empty empty-IsOrderly
      (λ op h. refl)

abbrev batch : PendingBatchRecord
batch = record {
  op_id = "u";
  trigger = threshold;
  entry_ids = "a" ∷ [];
  created_at = 5;
  attempts = 0;
  next_attempt_at = none;
}

abbrev waiting : Observer
waiting = record empty { pending = batch ∷ []; queue = "u" ∷ [] }

abbrev sent : Flight
sent = record { flight_op = "u"; sources = ("a", "safe") ∷ []; started_in = 0 }

-- The batch of one entry is made and waits for its run.
settled-waiting : observer_step options (settled (moment "u" (entry "a" ∷ []))) empty ≡ waiting
unfolding observer_step on_agent_settled select_unprocessed is_unprocessed member in_batches
    retry_pending enqueue_all schedule tokens_of estimate_tokens create_and_run build_batch
    fill_batch merge_into merge_batch add_batch enqueue_run is_running
settled-waiting = refl

run-sends : (start_run options (moment "v" (entry "a" ∷ [])) waiting).flight ≡ some sent
unfolding start_run start_next start_batch find_batch views_of view_of later_view add_view
    start_views redact_all add_source send
run-sends = refl

start_run-IsSent_example : IsSent options (moment "v" (entry "a" ∷ [])) waiting sent
start_run-IsSent_example =
    start_run-IsSent options (moment "v" (entry "a" ∷ [])) waiting sent refl run-sends

abbrev in_flight : Observer
in_flight = record empty { pending = batch ∷ []; flight = some sent }

-- An entry merged into the oldest batch while that is in flight is accepted with it, though it was
-- not sent.
merged_in_flight :
    (finish_run options extracted_accepted
      (moment "w" [])
      (on_agent_settled options (moment "v" (entry "a" ∷ entry "b" ∷ [])) in_flight)).jobs
    ≡ record { job_op = "u"; source_entry_ids = "a" ∷ "b" ∷ [] } ∷ []
unfolding finish_run finish_flight land accept find_batch on_agent_settled select_unprocessed
    is_unprocessed member in_batches retry_pending enqueue_all schedule tokens_of estimate_tokens
    create_and_run build_batch fill_batch union merge_into enqueue_oldest enqueue_run is_running
    consume remove_batch ids_of is_due merge_batch accept_batch reset_retry mark_entries
    mark_returns
merged_in_flight = refl

-- The registry cannot be written: the accepted batch stays pending, and its entry is in both.
marking_fails :
    let s =
      finish_run options extracted_accepted
        (record (moment "w" []) { marks_saved = false })
        in_flight in
    (s.pending ≡ batch ∷ []) × (s.consumed ≡ "a" ∷ [])
unfolding finish_run finish_flight land accept accept_batch find_batch consume mark_entries
    mark_returns member reset_retry
marking_fails = (refl, refl)
