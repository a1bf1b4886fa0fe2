-- ===== src/Coordinator.antt =====
-- src/pi/coordinator.ts: the generations of a session, its in-flight work and the registry of
-- consumed entries.
pub mod Current
pub mod Stale
pub mod Aborts
mod Tests
use pi_kiwifs_memory.Prelude.{
  ℕ, zero, suc, ◌+◌, ◌%◌, String, Bool, true, false, ◌&&◌, ◌||◌, not, Option, none, some, List, [],
  ◌∷◌, ◌++◌, map, any, filter, length, ltb, ◌==◌, str_eq, if◌then◌else◌,
}
use pi_kiwifs_memory.Outbox.{Io, completes, fails_before_rename, fails_after_rename}

pub record CoordinatorState : Type 0 where
  pub generation : ℕ
  pub session_id : Option String
  pub branch_id : Option String
  pub consumed_entries : List String

-- The state file: `readable` is one of a supported version, its fields already checked.
pub data StateFile : Type 0 where
  missing corrupt newer : StateFile
  readable : CoordinatorState → StateFile

-- A registered `AbortController`, by a number.
pub record Work : Type 0 where
  pub work_generation : ℕ
  pub controller : ℕ

-- `aborted` has the controllers whose signal has fired.
pub record Coordinator : Type 0 where
  pub state : CoordinatorState
  pub file : StateFile
  pub current_generation : ℕ
  pub active : Bool
  pub work : List Work
  pub aborted : List ℕ
  pub last_tree : Option (Option String × Option String)
  pub pending_consumed : List String
  pub timer : Bool
  pub tick_count : ℕ

pub record CoordinatorOptions : Type 0 where
  pub has_tick : Bool
  pub has_retention : Bool
  pub tick_interval_ms : ℕ
  pub retention_every : ℕ

pub data Ended : Type 0 where
  returned threw : Ended

-- The calls of the handlers, with how the writes of the state file end; `crashes` is a new process
-- on the same file.
pub data CoordinatorStep : Type 0 where
  starts_session : String → Option String → Io → CoordinatorStep
  forks switches ticks crashes : CoordinatorStep
  before_tree : Bool → List String → CoordinatorStep
  tree : String → Option String → Option String → Option String → Io → Io → CoordinatorStep
  shuts_down : Io → CoordinatorStep
  marks : List String → Io → CoordinatorStep
  registers : ℕ → ℕ → CoordinatorStep
  settles : ℕ → CoordinatorStep

pub empty_state : CoordinatorState
empty_state = record { generation = 0; session_id = none; branch_id = none; consumed_entries = [] }

pub open_with : StateFile → CoordinatorState → Coordinator
open_with f s = record {
  state = s;
  file = f;
  current_generation = s.generation;
  active = false;
  work = [];
  aborted = [];
  last_tree = none;
  pending_consumed = [];
  timer = false;
  tick_count = 0;
}

-- The constructor with `loadState`; `none` is the error for a newer version.
pub open_coordinator : StateFile → Option Coordinator
open_coordinator missing = some (open_with missing empty_state)
open_coordinator corrupt = some (open_with corrupt empty_state)
open_coordinator newer = none
open_coordinator (readable s) = some (open_with (readable s) s)

pub persist : Io → Coordinator → Coordinator × Ended
persist completes c = (record c { file = readable c.state }, returned)
persist fails_before_rename c = (c, threw)
persist fails_after_rename c = (record c { file = readable c.state }, threw)

pub is_current : ℕ → Coordinator → Bool
is_current g c = g == c.current_generation

-- `applyIfCurrent`, for a value and what applying it makes of a store.
pub apply_if_current : {V S : Type 0} → ℕ → (V → S → S) → V → Coordinator → S → S × Bool
apply_if_current g apply v c s = if is_current g c then (apply v s, true) else (s, false)

pub register_work : ℕ → ℕ → Coordinator → Coordinator
register_work g controller c = record c {
  work = c.work ++ record { work_generation = g; controller = controller } ∷ [];
}

-- The token's `done`.
pub settle_work : ℕ → Coordinator → Coordinator
settle_work controller c = record c { work = filter (λ w. not (w.controller == controller)) c.work }

pub invalidate_work : ℕ → Coordinator → Coordinator
invalidate_work g c = record c {
  aborted = c.aborted ++ map (λ w. w.controller) (filter (λ w. w.work_generation == g) c.work);
  work = filter (λ w. not (w.work_generation == g)) c.work;
}

pub includes : List String → String → Bool
includes ids id = any (λ x. str_eq x id) ids

pub add_consumed : List String → List String → List String
add_consumed consumed [] = consumed
add_consumed consumed (id ∷ ids) =
    add_consumed (if includes consumed id then consumed else consumed ++ id ∷ []) ids

pub mark_consumed : List String → Io → Coordinator → Coordinator × Ended
mark_consumed ids io c =
    let marked : Coordinator = record c {
      state = record c.state { consumed_entries = add_consumed c.state.consumed_entries ids };
    } in
    if any (λ id. not (includes c.state.consumed_entries id)) ids
    then persist io marked
    else (c, returned)

-- The generation is published when its state is written.
pub publish : Coordinator × Ended → Coordinator × Ended
publish (c, returned) = (record c { current_generation = c.state.generation }, returned)
publish (c, threw) = (c, threw)

pub mint : Option String → Option String → Io → Coordinator → Coordinator × Ended
mint session branch io c = publish (
    persist io (record c {
      state = record c.state {
        generation = c.state.generation + 1;
        session_id = session;
        branch_id = branch;
      };
    }))

pub same_id : Option String → Option String → Bool
same_id none none = true
same_id none (some b) = false
same_id (some a) none = false
same_id (some a) (some b) = str_eq a b

pub is_duplicate : Option (Option String × Option String) → Option String → Option String → Bool
is_duplicate none old_leaf new_leaf = false
is_duplicate (some (from, to)) old_leaf new_leaf = same_id from old_leaf && same_id to new_leaf

module _ (o : CoordinatorOptions) where
  pub start_timer : Coordinator → Coordinator
  start_timer c =
      if not o.has_tick || c.timer || o.tick_interval_ms == 0 then c else record c { timer = true }

  pub count_tick : Coordinator → Coordinator × Bool
  count_tick c = (
    record c { tick_count = c.tick_count + 1 },
    o.has_retention && ltb 0 o.retention_every && (c.tick_count + 1) % o.retention_every == 0,
  )

  -- One call of the timer, and whether it runs the retention.
  pub tick : Coordinator → Coordinator × Bool
  tick c = if c.timer then count_tick c else (c, false)

  pub activate : Coordinator × Ended → Coordinator × Ended
  activate (c, returned) = (start_timer (record c { active = true }), returned)
  activate (c, threw) = (c, threw)

  pub on_session_start : String → Option String → Io → Coordinator → Coordinator × Ended
  on_session_start session leaf io c =
      if not c.active || not (same_id (some session) c.state.session_id)
      then activate (mint (some session) leaf io c)
      else activate (
          persist io
            (record c { state = record c.state { session_id = some session; branch_id = leaf } }))

  pub on_before_fork : Coordinator → Coordinator
  on_before_fork c = c

  pub on_before_switch : Coordinator → Coordinator
  on_before_switch c = invalidate_work c.current_generation c

  pub on_before_tree : Bool → List String → Coordinator → Coordinator
  on_before_tree is_aborted ids c = if is_aborted then c else record c { pending_consumed = ids }

  pub clear_pending : Coordinator × Ended → Coordinator × Ended
  clear_pending (c, returned) = (record c { pending_consumed = [] }, returned)
  clear_pending (c, threw) = (c, threw)

  -- The entries stashed before the navigation.
  pub commit_pending : List String → Io → Coordinator → Coordinator × Ended
  commit_pending [] io c = (c, returned)
  commit_pending (id ∷ ids) io c = clear_pending (mark_consumed (id ∷ ids) io c)

  -- `navigated`: the leaves differ and the pair is no repetition.
  pub enter_branch : Bool → String → Option String → Io → Coordinator × Ended → Coordinator × Ended
  enter_branch navigated session new_leaf io (c, threw) = (c, threw)
  enter_branch navigated session new_leaf io (c, returned) =
      let c' = invalidate_work c.current_generation c in
      if navigated then mint (some session) new_leaf io c' else (c', returned)

  pub on_tree :
      String
      → Option String
      → Option String
      → Option String
      → Io
      → Io
      → Coordinator
      → Coordinator × Ended
  on_tree session leaf old_leaf new_leaf io io' c =
      if not c.active
      then on_session_start session leaf io c
      else enter_branch
          (not (is_duplicate c.last_tree old_leaf new_leaf) && not (same_id old_leaf new_leaf))
          session new_leaf io'
          (commit_pending c.pending_consumed io
            (record c { last_tree = some (old_leaf, new_leaf) }))

  pub on_shutdown : Io → Coordinator → Coordinator × Ended
  on_shutdown io c =
      persist io
        (record (invalidate_work c.current_generation
          (record c { timer = false; pending_consumed = [] })) { active = false })

  -- A process that cannot open the file leaves it as it is.
  pub reopen : Option Coordinator → Coordinator → Coordinator
  reopen none c = c
  reopen (some opened) c = opened

  pub coordinator_step : CoordinatorStep → Coordinator → Coordinator × Ended
  coordinator_step (starts_session session leaf io) c = on_session_start session leaf io c
  coordinator_step forks c = (on_before_fork c, returned)
  coordinator_step switches c = (on_before_switch c, returned)
  coordinator_step ticks c = ((tick c).0, returned)
  coordinator_step crashes c = (reopen (open_coordinator c.file) c, returned)
  coordinator_step (before_tree is_aborted ids) c = (on_before_tree is_aborted ids c, returned)
  coordinator_step (tree session leaf old_leaf new_leaf io io') c =
      on_tree session leaf old_leaf new_leaf io io' c
  coordinator_step (shuts_down io) c = on_shutdown io c
  coordinator_step (marks ids io) c = mark_consumed ids io c
  coordinator_step (registers g controller) c = (register_work g controller c, returned)
  coordinator_step (settles controller) c = (settle_work controller c, returned)

  pub run_steps : List CoordinatorStep → Coordinator → Coordinator
  run_steps [] c = c
  run_steps (step ∷ steps) c = run_steps steps (coordinator_step step c).0
