-- ===== src/Backup/Json.antt =====
-- The values of JSON, as far as src/backup reads them, and the functions of the platform that the
-- backup relies on.
use pi_kiwifs_memory.Prelude.{ℕ, String, Bool, Option, none, some, str_eq, if◌then◌else◌, ◌≡◌}

-- `negative n` is minus `n + 1`; `fraction` is a number that is no integer.
mutual
  pub data Json : Type 0 where
    null fraction : Json
    boolean : Bool → Json
    number negative : ℕ → Json
    text : String → Json
    array : Items → Json
    object : Fields → Json

  pub data Items : Type 0 where
    no_item : Items
    item : Json → Items → Items

  pub data Fields : Type 0 where
    no_field : Fields
    field : String → Json → Fields → Fields

unfoldable pub find_field : String → Fields → Option Json
find_field key no_field = none
find_field key (field k v rest) = if str_eq k key then some v else find_field key rest

-- `obj[key]`, which is undefined for what is no object.
unfoldable pub get_field : String → Json → Option Json
get_field key (object fields) = find_field key fields
get_field key _ = none

-- `JSON.stringify` with the newline behind it, `JSON.parse`, SHA-256 and `Buffer.byteLength`, over
-- a type of texts that the backup only passes on.
pub record Platform : Type 1 where
  pub Text : Type 0
  pub json_stringify : Json → Text
  pub json_parse : Text → Option Json
  pub sha256 : Text → String
  pub byte_length : Text → ℕ

-- What is written can be read back.
unfoldable pub IsFaithful : Platform → Type 0
IsFaithful p = (j : Json) → p.json_parse (p.json_stringify j) ≡ some j
