-- ===== src/Coordinator/Tests.antt =====
-- Runs of src/pi/coordinator.ts, and its theorems at concrete inputs.
use pi_kiwifs_memory.Prelude.{◌≡◌, refl, String, true, false, not, ◌||◌, some, [], ◌∷◌, arith}
use pi_kiwifs_memory.Outbox.{completes, fails_before_rename}
use pi_kiwifs_memory.Coordinator.{
  Coordinator, CoordinatorOptions, CoordinatorStep, returned, starts_session, tree, crashes,
  switches, missing, open_with, empty_state, coordinator_step, run_steps, on_session_start, mint,
  publish, persist, activate, start_timer, same_id, apply_if_current, on_tree, is_duplicate,
  enter_branch, commit_pending, invalidate_work, mark_consumed, includes, add_consumed,
  register_work,
}
use pi_kiwifs_memory.Coordinator.Current.{IsDurable, IsLater}
use pi_kiwifs_memory.Coordinator.Stale.{coordinator_step-IsLater, transition-IsStale}

abbrev options : CoordinatorOptions
options = record {
  has_tick = true;
  has_retention = true;
  tick_interval_ms = 30000;
  retention_every = 10;
}

abbrev start : CoordinatorStep
start = starts_session "s" (some "a") completes

abbrev opened : Coordinator
opened = open_with missing empty_state

opened-IsDurable : IsDurable opened
unfolding open_with empty_state includes
opened-IsDurable = record { published = omega arith; counted = omega arith; registered = λ id h. h }

coordinator_step-IsLater_example : IsLater opened (coordinator_step options start opened).0
coordinator_step-IsLater_example = coordinator_step-IsLater options start opened opened-IsDurable

started : (coordinator_step options start opened).1 ≡ returned
unfolding coordinator_step on_session_start mint publish persist activate start_timer open_with
    empty_state same_id
started = refl

first_start : (not opened.active || not (same_id (some "s") opened.state.session_id)) ≡ true
unfolding open_with empty_state
first_start = refl

-- After the first start, a crash and a switch, a result of the generation 0 is not applied.
transition-IsStale_example :
    apply_if_current {V = String} {S = String} 0
      (λ x y. x)
      "new"
      (run_steps options (crashes ∷ switches ∷ []) (coordinator_step options start opened).0)
      "old"
    ≡ ("old", false)
transition-IsStale_example =
    transition-IsStale {V = String} {S = String} options start (crashes ∷ switches ∷ []) opened 0
      (λ x y. x) "new" "old" opened-IsDurable first_start started (omega arith)

abbrev working : Coordinator
working = register_work 0 7 opened

-- A write that fails leaves the mark in memory, so that the next call returns without a write.
marked_twice :
    (mark_consumed ("e" ∷ []) completes (mark_consumed ("e" ∷ []) fails_before_rename opened).0).1
    ≡ returned
unfolding mark_consumed persist includes add_consumed open_with empty_state
marked_twice = refl

not_on_disk :
    (mark_consumed
      ("e" ∷ [])
      completes
      (mark_consumed ("e" ∷ []) fails_before_rename opened).0).0.file
    ≡ missing
unfolding mark_consumed persist includes add_consumed open_with empty_state
not_on_disk = refl

-- A navigation whose write fails is a repetition when it comes again, so that no generation is
-- minted for it.
abbrev moved : CoordinatorStep
moved = tree "s" (some "b") (some "a") (some "b") completes fails_before_rename

abbrev moved_again : CoordinatorStep
moved_again = tree "s" (some "b") (some "a") (some "b") completes completes

not_minted : (run_steps options (start ∷ moved ∷ moved_again ∷ []) opened).current_generation ≡ 1
unfolding run_steps coordinator_step on_session_start mint publish persist activate start_timer
    open_with empty_state same_id on_tree is_duplicate enter_branch commit_pending invalidate_work
not_minted = refl

-- A start for another session while one is active mints, and leaves the work of the first one
-- running.
abbrev start_other : CoordinatorStep
start_other = starts_session "t" (some "l") completes

other_session_aborts_nothing :
    let c =
      (coordinator_step options start_other
        (register_work 1 7 (coordinator_step options start opened).0)).0 in
    (c.current_generation ≡ 2) × (c.aborted ≡ [])
unfolding coordinator_step on_session_start register_work activate start_timer mint persist publish
    same_id open_with empty_state
other_session_aborts_nothing = (refl, refl)
