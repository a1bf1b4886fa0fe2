-- ===== src/Board/Path/Tests.antt =====
-- Runs of the path rules of src/board/repository.ts.
use pi_kiwifs_memory.Prelude.{◌≡◌, refl, none, some}
use pi_kiwifs_memory.Guard.{strip_prefix, has_dot_dot}
use pi_kiwifs_memory.Board.Path.{
  board_channel_of_path, board_msg_id_of_path, behind_channel, after_board, after_slash,
  before_slash, is_channel, lower_or_digit, hex_digit, is_message_file, stem,
}

path_id : board_msg_id_of_path "board/general/0123456789abcdef.md" ≡ some "0123456789abcdef"
unfolding board_msg_id_of_path behind_channel after_board after_slash before_slash is_channel
    lower_or_digit hex_digit is_message_file stem strip_prefix has_dot_dot
path_id = refl

path_channel : board_channel_of_path "board/general/0123456789abcdef.md" ≡ some "general"
unfolding board_channel_of_path board_msg_id_of_path behind_channel after_board after_slash
    before_slash is_channel lower_or_digit hex_digit is_message_file stem strip_prefix has_dot_dot
path_channel = refl

other_suffix : board_msg_id_of_path "board/general/0123456789abcdef.mdx" ≡ none
unfolding board_msg_id_of_path behind_channel after_board after_slash before_slash is_channel
    lower_or_digit hex_digit is_message_file stem strip_prefix has_dot_dot
other_suffix = refl
