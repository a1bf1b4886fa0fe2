-- ===== src/Board/Planning.antt =====
-- src/board/cleanup.ts: the preview of a removal (planBoardCleanup).
pub mod Planned
mod Tests
use pi_kiwifs_memory.Prelude.{
  ℕ, zero, suc, ◌+◌, max, String, Bool, true, false, ◌||◌, not, Option, none, some, List, [], ◌∷◌,
  ◌++◌, length, leb, str_eq, if◌then◌else◌,
}
use pi_kiwifs_memory.Board.Path.{board_msg_id_of_path}
use pi_kiwifs_memory.Board.Cleanup.{
  CandidateReadView, Reason, Eligibility, eligible, ineligible, evaluate_cleanup_candidate,
}
use pi_kiwifs_memory.Board.Execution.{FreshRead, PreviewItem, Preview}

-- The listing of the board's paths.
pub data ListAnswer : Type 0 where
  list_private list_failed : ListAnswer
  listed : List String → Bool → ListAnswer

pub data PlanRead : Type 0 where
  plan_failed plan_ineligible : PlanRead
  plan_ok : FreshRead → PlanRead

pub data PlanReason : Type 0 where
  no_id unreadable refused_read : PlanReason
  not_eligible : Reason → PlanReason

pub record Plan : Type 0 where
  pub items : List PreviewItem
  pub left_out : List (String × PlanReason)
  pub read_truncated : Bool

pub data PlanOutcome : Type 0 where
  plan_no_identity plan_listing_failed plan_private : PlanOutcome
  planned : Plan → Bool → PlanOutcome

pub leave_out : String → PlanReason → Plan → Plan
leave_out path reason x = record x { left_out = x.left_out ++ (path, reason) ∷ [] }

pub item_of : String → FreshRead → PreviewItem
item_of path r = record {
  item_msg_id = r.read_msg_id;
  item_path = path;
  item_created = r.read_view.created;
  item_etag = r.read_etag;
}

pub propose : String → FreshRead → Eligibility → Plan → Plan
propose path r eligible x = record x { items = x.items ++ item_of path r ∷ [] }
propose path r (ineligible reason) x = leave_out path (not_eligible reason) x

-- `read` is the repository's fresh read of a path, `acked` the local acknowledgments.
module _ (parse : String → Option ℕ) (own_from : String) (now : ℕ) (read : String → PlanRead)
    (acked : String → Option ℕ) where
  pub plan_read : String → String → PlanRead → Plan → Plan
  plan_read path id plan_failed x = leave_out path unreadable x
  plan_read path id plan_ineligible x = leave_out path refused_read x
  plan_read path id (plan_ok r) x =
      propose path r (evaluate_cleanup_candidate parse r.read_view (acked id) own_from now) x

  pub plan_path : String → Option String → Plan → Plan
  plan_path path none x = leave_out path no_id x
  plan_path path (some id) x = plan_read path id (read path) x

  pub is_full : ℕ → ℕ → Plan → Bool
  is_full max_candidates max_reads x =
      leb max_candidates (length x.items) || leb max_reads (length x.left_out + length x.items)

  pub plan_paths : ℕ → ℕ → List String → Plan → Plan
  plan_paths max_candidates max_reads [] x = x
  plan_paths max_candidates max_reads (path ∷ paths) x =
      let rest =
        plan_paths max_candidates max_reads paths (plan_path path (board_msg_id_of_path path) x) in
      if is_full max_candidates max_reads x then record x { read_truncated = true } else rest

  pub plan_listing : ℕ → ℕ → ListAnswer → PlanOutcome
  plan_listing max_candidates max_reads list_private = plan_private
  plan_listing max_candidates max_reads list_failed = plan_listing_failed
  plan_listing max_candidates max_reads (listed paths truncated) =
      planned
        (plan_paths max_candidates max_reads paths
          (record { items = []; left_out = []; read_truncated = false }))
        truncated

  pub plan_board_cleanup : ℕ → ℕ → ListAnswer → PlanOutcome
  plan_board_cleanup max_candidates max_reads listing =
      if str_eq own_from ""
      then plan_no_identity
      else plan_listing (max 1 max_candidates) (max 1 max_reads) listing
