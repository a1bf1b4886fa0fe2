-- ===== src/Board/Tests.antt =====
-- Runs of src/board/delivery.ts and src/board/cleanup-rules.ts, and their theorems at concrete
-- inputs.
use pi_kiwifs_memory.Prelude.{
  ℕ, ◌≡◌, ◌↔◌, refl, is_some, ◌||◌, String, true, false, Option, none, some, [], ◌∷◌,
}
use pi_kiwifs_memory.Board.Cleanup.{
  CandidateReadView, seconds, evaluate_cleanup_candidate, eligible,
}
use pi_kiwifs_memory.Board.Cleanup.Eligible.{IsRemovable, evaluate-IsRemovable}
use pi_kiwifs_memory.Board.Entries.{DeliveryEntry, DeliveryState, get_entry}
use pi_kiwifs_memory.Board.Cycle.{
  Message, feed, listing, Fetched, accepted, answered, CycleDeps, BoardDelivery, discover,
  run_cycle_inner,
}
use pi_kiwifs_memory.Board.Cycle.Fresh.{run_cycle_inner-fresh}
use pi_kiwifs_memory.Board.Cycle.Concluded.{
  is_delivered, is_skipped, IsConcluded, run_cycle_inner-IsConcluded,
}

abbrev path : String
path = "board/general/0123456789abcdef.md"

abbrev old_message : CandidateReadView
old_message = record { from = "agent"; created = "1970-01-01"; ttl_seconds = seconds 60 }

evaluate-IsRemovable_example :
    (evaluate_cleanup_candidate (λ text. some 0) old_message (some 70000) "agent" 2592070001
      ≡ eligible)
    ↔ IsRemovable (λ text. some 0) old_message (some 70000) "agent" 2592070001
evaluate-IsRemovable_example =
    evaluate-IsRemovable (λ text. some 0) old_message (some 70000) "agent" 2592070001

abbrev entry : String → Option ℕ → DeliveryEntry
entry id acked = record {
  msg_id = id;
  path = path;
  channel = "general";
  delivered_at = some 5;
  acked_at = acked;
  skip = none;
  skipped_at = none;
}

abbrev tracked : DeliveryState
tracked = record { last_seq = some "7"; entries = entry "a" (some 6) ∷ entry "b" none ∷ [] }

abbrev greeting : Message
greeting = record { from = "peer"; to = "agent"; created = "2026-01-01"; body = "hello" }

abbrev pages : ℕ → String → Fetched
pages page since =
    feed (record { paths = path ∷ "personal/memory/x.md" ∷ path ∷ []; last_seq = some "9" })

abbrev deps : CycleDeps
deps = record {
  changes_at = pages;
  list_paths = λ excluded. listing [] false;
  read = λ p. answered (accepted greeting);
  deliver = λ p m. none;
  private_at_start = false;
  private_at_read = λ p. false;
  private_at_deliver = λ id. false;
  start_clock = 10;
  clock = λ id. 11;
  created_le = λ a b. true;
  recipient = some "agent";
  backlog_pause_at = 500;
  max_changes_pages = 20;
}

abbrev idle : BoardDelivery
idle = record {
  state = tracked;
  stopped = false;
  consecutive_empty_polls = 2;
  last_cycle_at = none;
  last_error = none;
  last_discovery_fallback = false;
}

run_cycle_inner-IsConcluded_example :
    IsConcluded deps (discover deps tracked).0 (some "7") (run_cycle_inner deps idle)
run_cycle_inner-IsConcluded_example = run_cycle_inner-IsConcluded deps idle

-- A cycle over a feed that shows only the tracked message once more.
abbrev known_path : String
known_path = "board/general/00000000000000aa.md"

abbrev known : DeliveryState
known = record { last_seq = none; entries = entry "00000000000000aa" none ∷ [] }

abbrev repeating : CycleDeps
repeating = record deps {
  changes_at = λ page since. feed (record { paths = known_path ∷ path ∷ []; last_seq = some "9" });
}

abbrev waiting : BoardDelivery
waiting = record idle { state = known }

known-tracked : is_some (get_entry "00000000000000aa" known.entries) ≡ true
unfolding get_entry
known-tracked = refl

run_cycle_inner-fresh_example :
    (is_delivered "00000000000000aa" (run_cycle_inner repeating waiting).0.delivered
      || is_skipped "00000000000000aa" (run_cycle_inner repeating waiting).0.skipped)
    ≡ false
run_cycle_inner-fresh_example =
    run_cycle_inner-fresh repeating waiting "00000000000000aa" known-tracked
