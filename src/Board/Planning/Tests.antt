-- ===== src/Board/Planning/Tests.antt =====
-- A run of src/board/cleanup.ts, and its theorem there.
use pi_kiwifs_memory.Prelude.{ℕ, ◌≡◌, refl, max, String, false, Option, none, some, List, [], ◌∷◌}
use pi_kiwifs_memory.Guard.{strip_prefix}
use pi_kiwifs_memory.Board.Path.{
  board_msg_id_of_path, is_message_file, behind_channel, after_board, stem, before_slash,
  after_slash, is_channel, hex_digit, lower_or_digit,
}
use pi_kiwifs_memory.Board.Cleanup.{seconds, settled_long_ago, by_ttl, evaluate_cleanup_candidate}
use pi_kiwifs_memory.Board.Execution.{FreshRead}
use pi_kiwifs_memory.Board.Planning.{
  listed, plan_ok, Plan, planned, item_of, propose, plan_read, plan_path, is_full, plan_paths,
  plan_listing, plan_board_cleanup,
}
use pi_kiwifs_memory.Board.Planning.Planned.{occurrences, IsPlanned, plan_board_cleanup-IsPlanned}

-- A message whose own id is not the one of its path.
abbrev message : FreshRead
message = record {
  read_msg_id = "ffffffffffffffff";
  read_view = record { from = "agent"; created = "1970-01-01"; ttl_seconds = seconds 60 };
  read_etag = none;
}

abbrev paths : List String
paths = "board/general/0123456789abcdef.md" ∷ []

abbrev parse : String → Option ℕ
parse text = some 0

abbrev one_item : Plan
one_item = record {
  items = item_of "board/general/0123456789abcdef.md" message ∷ [];
  left_out = [];
  read_truncated = false;
}

-- It is proposed all the same.
mismatch_proposed :
    plan_board_cleanup parse "agent" 2592070001
      (λ path. plan_ok message)
      (λ id. some 70000)
      200
      500
      (listed paths false)
    ≡ planned one_item false
unfolding plan_board_cleanup plan_listing plan_paths is_full plan_path plan_read propose item_of
    evaluate_cleanup_candidate by_ttl settled_long_ago board_msg_id_of_path is_message_file
    behind_channel after_board stem before_slash after_slash is_channel hex_digit lower_or_digit
    strip_prefix
mismatch_proposed = refl

plan_board_cleanup-IsPlanned_example :
    IsPlanned parse "agent" 2592070001
      (λ path. plan_ok message)
      (λ id. some 70000)
      (max 1 200)
      (max 1 500)
      (λ p. occurrences p paths)
      one_item
plan_board_cleanup-IsPlanned_example =
    plan_board_cleanup-IsPlanned parse "agent" 2592070001 (λ path. plan_ok message)
      (λ id. some 70000) 200 500 paths false one_item mismatch_proposed
