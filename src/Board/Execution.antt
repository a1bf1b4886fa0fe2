-- ===== src/Board/Execution.antt =====
-- src/board/cleanup-execute.ts: the confirmed removal of messages (executeBoardCleanup).
pub mod Confirmed
mod Tests
use pi_kiwifs_memory.Prelude.{
  ℕ, zero, suc, max, String, Bool, true, false, ◌&&◌, ◌||◌, not, Option, none, some, List, [], ◌∷◌,
  ◌++◌, length, leb, str_eq, if◌then◌else◌,
}
use pi_kiwifs_memory.Board.Path.{board_msg_id_of_path}
use pi_kiwifs_memory.Board.Cleanup.{
  CandidateReadView, Reason, Eligibility, eligible, ineligible, evaluate_cleanup_candidate,
}

-- The fields that the run reads.
pub record PreviewItem : Type 0 where
  pub item_msg_id : String
  pub item_path : String
  pub item_created : String
  pub item_etag : Option String

pub record Preview : Type 0 where
  pub candidates : List PreviewItem
  pub planned_by : String

-- A message as the recheck reads it.
pub record FreshRead : Type 0 where
  pub read_msg_id : String
  pub read_view : CandidateReadView
  pub read_etag : Option String

pub data ReadAnswer : Type 0 where
  read_private read_cancelled read_failed read_ineligible : ReadAnswer
  read_ok : FreshRead → ReadAnswer

pub data DeleteAnswer : Type 0 where
  delete_done delete_cancelled delete_private delete_failed : DeleteAnswer

-- What the turn of one candidate meets.
pub record Turn : Type 0 where
  pub signal_aborted : Bool
  pub private_now : Bool
  pub read : ReadAnswer
  pub acked_at : Option ℕ
  pub minted : String
  pub recorded : Bool  -- whether `ledger.record` returns
  pub deletion : DeleteAnswer

pub data ExecuteReason : Type 0 where
  id_mismatch unavailable ineligible_read changed failed_delete : ExecuteReason
  not_eligible : Reason → ExecuteReason

-- A call of the adapter's `del`.
pub record DeleteCall : Type 0 where
  pub call_path : String
  pub op_id : String

-- The variables of the run, with the adapter's calls and the ledger.
pub record Execution : Type 0 where
  pub deleted : List DeleteCall
  pub skipped : List (String × ExecuteReason)
  pub calls : List DeleteCall
  pub ledger : List String
  pub unknown_delete_op_ids : List String
  pub was_aborted : Bool
  pub private_transition : Bool
  pub deleted_bound_hit : Bool
  pub rejected : Bool  -- the promise, by an error of the ledger

pub data ExecuteOutcome : Type 0 where
  no_preview no_identity identity_changed private_mode : ExecuteOutcome
  stopped_private completed rejects : Execution → ExecuteOutcome

pub skip : PreviewItem → ExecuteReason → Execution → Execution × Bool
skip item reason x = (record x { skipped = x.skipped ++ (item.item_path, reason) ∷ [] }, true)

-- The answer to a delete that was issued.
pub conclude_delete : PreviewItem → Turn → DeleteAnswer → Execution → Execution × Bool
conclude_delete item t delete_done x = (
  record x { deleted = x.deleted ++ record { call_path = item.item_path; op_id = t.minted } ∷ [] },
  true,
)
conclude_delete item t delete_cancelled x = (
  record x { was_aborted = true; unknown_delete_op_ids = x.unknown_delete_op_ids ++ t.minted ∷ [] },
  false,
)
conclude_delete item t delete_private x = (
  record x {
    private_transition = true;
    unknown_delete_op_ids = x.unknown_delete_op_ids ++ t.minted ∷ [];
  },
  false,
)
conclude_delete item t delete_failed x = skip item failed_delete x

pub record_and_delete : PreviewItem → Turn → Execution → Execution × Bool
record_and_delete item t x = conclude_delete item t t.deletion (record x {
  ledger = x.ledger ++ t.minted ∷ [];
  calls = x.calls ++ record { call_path = item.item_path; op_id = t.minted } ∷ [];
})

-- The operation id is recorded before the call; an error of the ledger ends the run.
pub issue_delete : PreviewItem → Turn → Execution → Execution × Bool
issue_delete item t x =
    if t.recorded then record_and_delete item t x else (record x { rejected = true }, false)

pub same_etag : Option String → Option String → Bool
same_etag none read = true
same_etag (some e) none = false
same_etag (some e) (some r) = str_eq r e

pub same_message : PreviewItem → String → FreshRead → Bool
same_message item own_from r =
    str_eq r.read_msg_id item.item_msg_id
    && str_eq r.read_view.created item.item_created
    && str_eq r.read_view.from own_from

pub is_path_of : Option String → String → Bool
is_path_of none id = false
is_path_of (some p) id = str_eq p id

-- `parse` is `Date.parse`; `now` is one for the run.
module _ (parse : String → Option ℕ) (own_from : String) (now : ℕ) where
  pub by_eligibility : PreviewItem → Turn → Eligibility → Execution → Execution × Bool
  by_eligibility item t eligible x = issue_delete item t x
  by_eligibility item t (ineligible reason) x = skip item (not_eligible reason) x

  pub recheck : PreviewItem → Turn → FreshRead → Execution → Execution × Bool
  recheck item t r x =
      if not (same_message item own_from r)
      then skip item changed x
      else if not (same_etag item.item_etag r.read_etag)
      then skip item changed x
      else by_eligibility item t
          (evaluate_cleanup_candidate parse r.read_view t.acked_at own_from now) x

  pub after_read : PreviewItem → Turn → ReadAnswer → Execution → Execution × Bool
  after_read item t read_private x = (record x { private_transition = true }, false)
  after_read item t read_cancelled x = (record x { was_aborted = true }, false)
  after_read item t read_failed x = skip item unavailable x
  after_read item t read_ineligible x = skip item ineligible_read x
  after_read item t (read_ok r) x = recheck item t r x

  -- One round of the loop, and whether the loop goes on.
  pub execute_item : ℕ → PreviewItem → Turn → Execution → Execution × Bool
  execute_item max_deletes item t x =
      if t.signal_aborted
      then (record x { was_aborted = true }, false)
      else if t.private_now
      then (record x { private_transition = true }, false)
      else if leb max_deletes (length x.deleted)
      then (record x { deleted_bound_hit = true }, false)
      else if not (is_path_of (board_msg_id_of_path item.item_path) item.item_msg_id)
      then skip item id_mismatch x
      else after_read item t t.read x

  pub go_on : Bool → Execution → Execution → Execution
  go_on true rest x = rest
  go_on false rest x = x

  -- `turns` gives the turn of the candidate that has this many before it.
  pub execute_items : ℕ → (ℕ → Turn) → ℕ → List PreviewItem → Execution → Execution
  execute_items max_deletes turns n [] x = x
  execute_items max_deletes turns n (item ∷ items) x =
      let r = execute_item max_deletes item (turns n) x in
      go_on r.1 (execute_items max_deletes turns (suc n) items r.0) r.0

  pub conclude_run : Execution → ExecuteOutcome
  conclude_run x =
      if x.rejected
      then rejects x
      else if x.private_transition
      then stopped_private x
      else completed x

  pub no_deletes : Execution
  no_deletes = record {
    deleted = [];
    skipped = [];
    calls = [];
    ledger = [];
    unknown_delete_op_ids = [];
    was_aborted = false;
    private_transition = false;
    deleted_bound_hit = false;
    rejected = false;
  }

  pub execute_board_cleanup : Option Preview → Bool → ℕ → (ℕ → Turn) → ExecuteOutcome
  execute_board_cleanup none is_private max_deletes turns = no_preview
  execute_board_cleanup (some p) is_private max_deletes turns =
      if str_eq own_from ""
      then no_identity
      else if not (str_eq own_from p.planned_by)
      then identity_changed
      else if is_private
      then private_mode
      else conclude_run (execute_items (max 1 max_deletes) turns 0 p.candidates no_deletes)
