-- ===== src/Board/Path.antt =====
-- src/board/repository.ts: `boardChannelOfPath` and `boardMsgIdOfPath`.
mod Tests
use Prim.Native.Char.{code}
use pi_kiwifs_memory.Prelude.{
  ℕ, ◌+◌, String, Bool, true, false, ◌&&◌, ◌||◌, not, Option, none, some, List, [], ◌∷◌, all, codes,
  leb, ltb, length, ◌==◌, if◌then◌else◌,
}
use pi_kiwifs_memory.Guard.{strip_prefix, has_dot_dot}

unfoldable pub lower_or_digit : ℕ → Bool
lower_or_digit c = (leb b'a' c && leb c b'z') || (leb b'0' c && leb c b'9')

unfoldable pub hex_digit : ℕ → Bool
hex_digit c = (leb b'a' c && leb c b'f') || (leb b'0' c && leb c b'9')

-- `[a-z0-9][a-z0-9-]{0,63}`, which `validateId` tests again.
unfoldable pub is_channel : List ℕ → Bool
is_channel [] = false
is_channel (c ∷ cs) =
    lower_or_digit c && all (λ d. lower_or_digit d || d == b'-') cs && leb (length cs) 63

-- The text before the first slash, and what follows it.
unfoldable pub before_slash : String → String
before_slash String.[] = ""
before_slash (String.◌∷◌ c s) = if code c == b'/' then "" else String.◌∷◌ c (before_slash s)

unfoldable pub after_slash : String → Option String
after_slash String.[] = none
after_slash (String.◌∷◌ c s) = if code c == b'/' then some s else after_slash s

-- The text before the first full stop, and what follows it.
unfoldable pub stem : String → String
stem String.[] = ""
stem (String.◌∷◌ c s) = if code c == b'.' then "" else String.◌∷◌ c (stem s)

-- What is left of a path behind "board/".
unfoldable pub after_board : String → Option String
after_board s = if starts_board (codes s) then after_slash s else none
  where
    starts_board : List ℕ → Bool
    starts_board cs = elim (strip_prefix (codes "board/") cs) [ none ↦ false | some rest ↦ true ]

-- The text behind the channel's slash, once the channel has its form.
unfoldable pub behind_channel : String → Option (String × String)
behind_channel path = elim (after_board path) [
  | none ↦ none
  | some inside ↦ elim (after_slash inside) [
    | none ↦ none
    | some rest ↦
        if is_channel (codes (before_slash inside)) then some (before_slash inside, rest) else none
  ]
]

pub board_channel_of_path : String → Option String
board_channel_of_path path = elim (behind_channel path) [
  | none ↦ none
  | some p ↦ if has_dot_dot 0 (codes p.1) then none else some p.0
]

-- `([0-9a-f]{16,64})\.md$` behind the channel.
unfoldable pub is_message_file : String → Bool
is_message_file rest =
    let id = codes (stem rest) in
    all hex_digit id
    && leb 16 (length id)
    && leb (length id) 64
    && (elim (strip_prefix id (codes rest)) [
      | none ↦ false
      | some suffix ↦ elim (strip_prefix (codes ".md") suffix) [ some [] ↦ true | _ ↦ false ]
    ])

unfoldable pub board_msg_id_of_path : String → Option String
board_msg_id_of_path path = elim (behind_channel path) [
  | none ↦ none
  | some p ↦ if is_message_file p.1 then some (stem p.1) else none
]
