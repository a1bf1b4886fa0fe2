-- ===== src/Coordinator/Stale.antt =====
-- src/pi/coordinator.ts: what a change of session or branch means for results that are still under
-- way.
use pi_kiwifs_memory.Prelude.{
  ℕ, ◌+◌, ◌≤◌, ◌<◌, ◌≡◌, refl, sym, ◌∙◌, String, Bool, true, false, ◌&&◌, ◌||◌, not, Option, some,
  List, [], ◌∷◌, arith, Bool-cases, inl, inr, if◌then◌else◌, ◌==◌,
}
use pi_kiwifs_memory.Outbox.{Io}
use pi_kiwifs_memory.Coordinator.{
  StateFile, missing, corrupt, newer, readable, Coordinator, CoordinatorOptions, Ended, returned,
  threw, CoordinatorStep, starts_session, forks, switches, ticks, crashes, before_tree, tree,
  shuts_down, marks, registers, settles, empty_state, open_with, open_coordinator, persist,
  is_current, apply_if_current, register_work, settle_work, invalidate_work, includes, mint,
  same_id, is_duplicate, start_timer, count_tick, tick, activate, on_session_start, on_before_fork,
  on_before_switch, on_before_tree, commit_pending, enter_branch, on_tree, on_shutdown, reopen,
  coordinator_step, run_steps,
}
use pi_kiwifs_memory.Coordinator.Current.{
  stored, stored_entries, IsDurable, IsLater, IsLater-trans, IsLater-same, persist-IsLater,
  mint-fresh, mark_consumed-IsLater, invalidate_work-IsLater, on_session_start-IsLater,
  commit_pending-IsLater, enter_branch-IsLater,
}

-- A first start, a start for another session, or a navigation to another leaf that is no
-- repetition.
abbrev pub is_transition : CoordinatorStep → Coordinator → Bool
is_transition (starts_session session leaf io) c =
    not c.active || not (same_id (some session) c.state.session_id)
is_transition (tree session leaf old_leaf new_leaf io io') c =
    if not c.active
    then true
    else not (is_duplicate c.last_tree old_leaf new_leaf) && not (same_id old_leaf new_leaf)
is_transition forks c = false
is_transition switches c = false
is_transition ticks c = false
is_transition crashes c = false
is_transition (before_tree is_aborted ids) c = false
is_transition (shuts_down io) c = false
is_transition (marks ids io) c = false
is_transition (registers g controller) c = false
is_transition (settles controller) c = false

module _ (o : CoordinatorOptions) where
  on_tree-IsLater :
      (session : String) (leaf old_leaf new_leaf : Option String) (io io' : Io) (c : Coordinator)
      → IsDurable c
      → IsLater c (on_tree o session leaf old_leaf new_leaf io io' c).0
  unfolding on_tree
  on_tree-IsLater session leaf old_leaf new_leaf io io' c h = elim (Bool-cases (not c.active)) [
    | inl asleep ↦ simp asleep (on_session_start-IsLater o session leaf io c h)
    | inr awake ↦
        let c2 : Coordinator = record c { last_tree = some (old_leaf, new_leaf) } in
        let same : IsLater c c2 = IsLater-same c c2 h refl refl refl refl in
        let r = commit_pending o c.pending_consumed io c2 in
        let committed : IsLater c r.0 =
          IsLater-trans c c2 r.0 same
            (commit_pending-IsLater o c.pending_consumed io c2 same.durable) in
        simp awake (
          enter_branch-IsLater o
            (not (is_duplicate c.last_tree old_leaf new_leaf) && not (same_id old_leaf new_leaf))
            session new_leaf io' c r committed)
  ]

  reopen-IsLater :
      (c : Coordinator) → IsDurable c → IsLater c (reopen o (open_coordinator c.file) c)
  unfolding reopen open_coordinator open_with empty_state
  reopen-IsLater c h = at_file c.file h.published (λ id k. k)
    where
      at_file :
          (f : StateFile)
          → c.current_generation ≤ stored f
          → ((id : String)
              → includes (stored_entries c.file) id ≡ true
              → includes (stored_entries f) id ≡ true)
          → IsLater c (reopen o (open_coordinator f) c)
      at_file missing below none_lost = record {
        durable = record { published = omega arith; counted = omega arith; registered = λ id k. k };
        later = below;
        kept = none_lost;
      }
      at_file corrupt below none_lost = record {
        durable = record { published = omega arith; counted = omega arith; registered = λ id k. k };
        later = below;
        kept = none_lost;
      }
      at_file newer below none_lost = IsLater-same c c h refl refl refl refl
      at_file (readable s) below none_lost = record {
        durable = record { published = omega arith; counted = omega arith; registered = λ id k. k };
        later = below;
        kept = none_lost;
      }

  count_tick-IsLater : (c : Coordinator) → IsDurable c → IsLater c (count_tick o c).0
  unfolding count_tick
  count_tick-IsLater c h =
      IsLater-same c (record c { tick_count = c.tick_count + 1 }) h refl refl refl refl

  tick-IsLater : (c : Coordinator) → IsDurable c → IsLater c (tick o c).0
  unfolding tick
  tick-IsLater c h = elim (Bool-cases c.timer) [
    | inl on ↦ simp on (count_tick-IsLater c h)
    | inr off ↦ simp off (IsLater-same c c h refl refl refl refl)
  ]

  -- When the published generation is on disk and memory has the registry of the file, every step,
  -- with a write that fails or a crash, keeps this so, does not lower the published generation, and
  -- loses no entry that was consumed on disk.
  pub coordinator_step-IsLater :
      (step : CoordinatorStep) (c : Coordinator)
      → IsDurable c
      → IsLater c (coordinator_step o step c).0
  unfolding coordinator_step on_before_fork on_before_switch on_before_tree on_shutdown
      register_work settle_work invalidate_work
  coordinator_step-IsLater (starts_session session leaf io) c h =
      on_session_start-IsLater o session leaf io c h
  coordinator_step-IsLater forks c h = IsLater-same c c h refl refl refl refl
  coordinator_step-IsLater switches c h = invalidate_work-IsLater c.current_generation c h
  coordinator_step-IsLater ticks c h = tick-IsLater c h
  coordinator_step-IsLater crashes c h = reopen-IsLater c h
  coordinator_step-IsLater (before_tree is_aborted ids) c h = elim (Bool-cases is_aborted) [
    | inl gone ↦ simp gone (IsLater-same c c h refl refl refl refl)
    | inr live ↦
        simp live (IsLater-same c (record c { pending_consumed = ids }) h refl refl refl refl)
  ]
  coordinator_step-IsLater (tree session leaf old_leaf new_leaf io io') c h =
      on_tree-IsLater session leaf old_leaf new_leaf io io' c h
  coordinator_step-IsLater (shuts_down io) c h =
      let c2 : Coordinator =
        record (invalidate_work c.current_generation
          (record c { timer = false; pending_consumed = [] })) { active = false } in
      let same : IsLater c c2 = IsLater-same c c2 h refl refl refl refl in
      IsLater-trans c c2 (persist io c2).0 same (persist-IsLater io c2 same.durable)
  coordinator_step-IsLater (marks ids io) c h = mark_consumed-IsLater ids io c h
  coordinator_step-IsLater (registers g controller) c h =
      IsLater-same c (register_work g controller c) h refl refl refl refl
  coordinator_step-IsLater (settles controller) c h =
      IsLater-same c (settle_work controller c) h refl refl refl refl

  run_steps-IsLater :
      (steps : List CoordinatorStep) (c : Coordinator)
      → IsDurable c
      → IsLater c (run_steps o steps c)
  unfolding run_steps
  run_steps-IsLater [] c h = IsLater-same c c h refl refl refl refl
  run_steps-IsLater (step ∷ steps) c h =
      let first = coordinator_step-IsLater step c h in
      let next = (coordinator_step o step c).0 in
      IsLater-trans c next (run_steps o steps next) first
        (run_steps-IsLater steps next first.durable)

  activate-kept :
      (r : Coordinator × Ended)
      → ((activate o r).1 ≡ r.1) × ((activate o r).0.current_generation ≡ r.0.current_generation)
  unfolding activate start_timer
  activate-kept (c, threw) = (refl, refl)
  activate-kept (c, returned) =
      elim (Bool-cases (not o.has_tick || c.timer || o.tick_interval_ms == 0)) [
        | inl off ↦ (refl, simp off refl)
        | inr on ↦ (refl, simp on refl)
      ]

  on_session_start-fresh :
      (session : String) (leaf : Option String) (io : Io) (c : Coordinator)
      → IsDurable c
      → not c.active || not (same_id (some session) c.state.session_id) ≡ true
      → (on_session_start o session leaf io c).1 ≡ returned
      → c.current_generation < (on_session_start o session leaf io c).0.current_generation
  unfolding on_session_start
  on_session_start-fresh session leaf io c h starts done =
      let r = mint (some session) leaf io c in
      let (ended, current) = activate-kept r in
      let minted : (activate o r).1 ≡ returned = simp starts at done in
      simp (starts, current) (mint-fresh (some session) leaf io c h (sym ended ∙ minted))

  enter_branch-fresh :
      (session : String) (new_leaf : Option String) (io : Io) (c : Coordinator)
      (r : Coordinator × Ended)
      → IsLater c r.0
      → (enter_branch o true session new_leaf io r).1 ≡ returned
      → c.current_generation < (enter_branch o true session new_leaf io r).0.current_generation
  unfolding enter_branch
  enter_branch-fresh session new_leaf io c (c', threw) h done = cc done
  enter_branch-fresh session new_leaf io c (c', returned) h done =
      let c2 = invalidate_work c'.current_generation c' in
      let stopped = invalidate_work-IsLater c'.current_generation c' h.durable in
      omega (
        arith,
        h.later,
        stopped.later,
        mint-fresh (some session) new_leaf io c2 stopped.durable done,
      )

  on_tree-fresh :
      (session : String) (leaf old_leaf new_leaf : Option String) (io io' : Io) (c : Coordinator)
      → IsDurable c
      → is_transition (tree session leaf old_leaf new_leaf io io') c ≡ true
      → (on_tree o session leaf old_leaf new_leaf io io' c).1 ≡ returned
      → c.current_generation
        < (on_tree o session leaf old_leaf new_leaf io io' c).0.current_generation
  unfolding on_tree
  on_tree-fresh session leaf old_leaf new_leaf io io' c h moves done =
      elim (Bool-cases (not c.active)) [
        | inl asleep ↦
            let started : (on_session_start o session leaf io c).1 ≡ returned =
              simp asleep at done in
            simp asleep (on_session_start-fresh session leaf io c h (simp asleep refl) started)
        | inr awake ↦
            let c2 : Coordinator = record c { last_tree = some (old_leaf, new_leaf) } in
            let same : IsLater c c2 = IsLater-same c c2 h refl refl refl refl in
            let r = commit_pending o c.pending_consumed io c2 in
            let committed : IsLater c r.0 =
              IsLater-trans c c2 r.0 same
                (commit_pending-IsLater o c.pending_consumed io c2 same.durable) in
            let navigated : not (is_duplicate c.last_tree old_leaf new_leaf)
                  && not (same_id old_leaf new_leaf)
                ≡ true =
              simp awake at moves in
            let entered : (enter_branch o true session new_leaf io' r).1 ≡ returned =
              simp (awake, navigated) at done in
            simp (awake, navigated) (enter_branch-fresh session new_leaf io' c r committed entered)
      ]

  coordinator_step-fresh :
      (step : CoordinatorStep) (c : Coordinator)
      → IsDurable c
      → is_transition step c ≡ true
      → (coordinator_step o step c).1 ≡ returned
      → c.current_generation < (coordinator_step o step c).0.current_generation
  unfolding coordinator_step
  coordinator_step-fresh (starts_session session leaf io) c h moves done =
      on_session_start-fresh session leaf io c h moves done
  coordinator_step-fresh (tree session leaf old_leaf new_leaf io io') c h moves done =
      on_tree-fresh session leaf old_leaf new_leaf io io' c h moves done
  coordinator_step-fresh forks c h moves done = cc moves
  coordinator_step-fresh switches c h moves done = cc moves
  coordinator_step-fresh ticks c h moves done = cc moves
  coordinator_step-fresh crashes c h moves done = cc moves
  coordinator_step-fresh (before_tree is_aborted ids) c h moves done = cc moves
  coordinator_step-fresh (shuts_down io) c h moves done = cc moves
  coordinator_step-fresh (marks ids io) c h moves done = cc moves
  coordinator_step-fresh (registers g controller) c h moves done = cc moves
  coordinator_step-fresh (settles controller) c h moves done = cc moves

-- When the published generation is on disk, and a first start, a start for another session or a
-- navigation to another leaf returns that is no repetition of the last, then whatever steps follow,
-- crashes and failed writes among them, a result of the generation that was current before, or of
-- an earlier one, is never applied.
pub transition-IsStale :
    {V S : Type 0} (o : CoordinatorOptions) (step : CoordinatorStep) (steps : List CoordinatorStep)
    (c : Coordinator) (g : ℕ) (apply : V → S → S) (v : V) (s : S)
    → IsDurable c
    → is_transition step c ≡ true
    → (coordinator_step o step c).1 ≡ returned
    → g ≤ c.current_generation
    → apply_if_current g apply v (run_steps o steps (coordinator_step o step c).0) s ≡ (s, false)
unfolding apply_if_current is_current
transition-IsStale o step steps c g apply v s h moves done old =
    let first = coordinator_step-IsLater o step c h in
    let last = run_steps-IsLater o steps (coordinator_step o step c).0 first.durable in
    let fresh = coordinator_step-fresh o step c h moves done in
    let stale : (g == (run_steps o steps (coordinator_step o step c).0).current_generation)
        ≡ false =
      ground (arith, last.later, fresh, old) in
    simp stale refl
