-- ===== src/Backend.antt =====
-- src/backend/errors.ts: the error codes and the retry classification, with the other things that a
-- sender may throw.
use Prim.Native.String
use pi_kiwifs_memory.Prelude.{String, Bool, true, false, str_eq, if◌then◌else◌}

pub data ErrorCode : Type 0 where
  auth validation conflict timeout cancelled availability response_format capability : ErrorCode
  not_persisted : ErrorCode

abbrev pub code_text : ErrorCode → String
code_text auth = "auth"
code_text validation = "validation"
code_text conflict = "conflict"
code_text timeout = "timeout"
code_text cancelled = "cancelled"
code_text availability = "availability"
code_text response_format = "response-format"
code_text capability = "capability"
code_text not_persisted = "not-persisted"

-- A `BackendError` by its name and code, a `PrivateModeActiveError`, another `Error` by its name
-- and the text of its `code` (empty when it has none), or a value that is no `Error`.
pub data Thrown : Type 0 where
  backend_error : String → ErrorCode → Thrown
  private_mode_active : Thrown
  other_error : String → String → Thrown
  not_an_error : Thrown

unfoldable pub is_retryable : Thrown → Bool
is_retryable (backend_error name availability) = true
is_retryable _ = false

abbrev pub is_private_error : Thrown → Bool
is_private_error private_mode_active = true
is_private_error _ = false

with_code : String → String → String
with_code name code = if str_eq code "" then name else String.◌++◌ name (String.◌++◌ ":" code)

unfoldable pub error_fingerprint : Thrown → String
unfolding with_code
error_fingerprint (backend_error name code) = with_code name (code_text code)
error_fingerprint private_mode_active = "PrivateModeActiveError"
error_fingerprint (other_error name code) = with_code name code
error_fingerprint not_an_error = "unknown"
