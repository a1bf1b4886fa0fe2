-- ===== src/Board/Execution/Tests.antt =====
-- A run of src/board/cleanup-execute.ts, and its theorem there.
use pi_kiwifs_memory.Prelude.{ℕ, ◌≡◌, refl, max, String, true, false, Option, some, [], ◌∷◌}
use pi_kiwifs_memory.Board.Path.{
  board_msg_id_of_path, is_message_file, behind_channel, after_board, stem, before_slash,
  after_slash, is_channel, hex_digit, lower_or_digit,
}
use pi_kiwifs_memory.Guard.{strip_prefix}
use pi_kiwifs_memory.Board.Cleanup.{seconds, settled_long_ago, by_ttl, evaluate_cleanup_candidate}
use pi_kiwifs_memory.Board.Execution.{
  PreviewItem, Preview, FreshRead, read_ok, delete_done, Turn, DeleteCall, Execution,
  conclude_delete, record_and_delete, issue_delete, same_etag, same_message, is_path_of,
  by_eligibility, recheck, after_read, execute_item, go_on, execute_items, conclude_run, no_deletes,
  execute_board_cleanup,
}
use pi_kiwifs_memory.Board.Execution.Confirmed.{
  execution_of, IsCareful, execute_board_cleanup-IsCareful,
}

abbrev item : PreviewItem
item = record {
  item_msg_id = "0123456789abcdef";
  item_path = "board/general/0123456789abcdef.md";
  item_created = "1970-01-01";
  item_etag = some "e";
}

abbrev preview : Preview
preview = record { candidates = item ∷ []; planned_by = "agent" }

abbrev message : FreshRead
message = record {
  read_msg_id = "0123456789abcdef";
  read_view = record { from = "agent"; created = "1970-01-01"; ttl_seconds = seconds 60 };
  read_etag = some "e";
}

abbrev turn : Turn
turn = record {
  signal_aborted = false;
  private_now = false;
  read = read_ok message;
  acked_at = some 70000;
  minted = "op";
  recorded = true;
  deletion = delete_done;
}

abbrev parse : String → Option ℕ
parse text = some 0

abbrev call : DeleteCall
call = record { call_path = "board/general/0123456789abcdef.md"; op_id = "op" }

abbrev one_deleted : Execution
one_deleted = record {
  deleted = call ∷ [];
  skipped = [];
  calls = call ∷ [];
  ledger = "op" ∷ [];
  unknown_delete_op_ids = [];
  was_aborted = false;
  private_transition = false;
  deleted_bound_hit = false;
  rejected = false;
}

runs :
    execution_of (execute_board_cleanup parse "agent" 2592070001 (some preview) false 5 (λ n. turn))
    ≡ some one_deleted
unfolding execute_board_cleanup conclude_run no_deletes execute_items go_on execute_item after_read
    recheck same_message same_etag by_eligibility issue_delete record_and_delete conclude_delete
    is_path_of evaluate_cleanup_candidate by_ttl settled_long_ago board_msg_id_of_path
    is_message_file behind_channel after_board stem before_slash after_slash is_channel hex_digit
    lower_or_digit strip_prefix
runs = refl

execute_board_cleanup-IsCareful_example :
    (◌≡◌ {A = String} "agent" "agent")
    × IsCareful parse "agent" 2592070001 (max 1 5) (item ∷ []) (λ n. turn) one_deleted
execute_board_cleanup-IsCareful_example =
    execute_board_cleanup-IsCareful parse "agent" 2592070001 preview false 5 (λ n. turn) one_deleted
      runs
