-- ===== src/Coordinator/Aborts.antt =====
-- src/pi/coordinator.ts: the work of a generation that is left.
use pi_kiwifs_memory.Prelude.{ℕ, ◌≡◌, ◌≢◌, Bool, true, false, Memᴰ}
use pi_kiwifs_memory.Coordinator.{
  Work, Coordinator, CoordinatorStep, starts_session, forks, switches, ticks, crashes, before_tree,
  tree, shuts_down, marks, registers, settles,
}

-- The work of the generation `g` has had its signal and is gone; other work is untouched.
pub record IsAborted (g : ℕ) (c c' : Coordinator) : Type 0 where
  pub fired : (w : Work) → Memᴰ w c.work → w.work_generation ≡ g → Memᴰ w.controller c'.aborted
  pub gone : (w : Work) → Memᴰ w c'.work → w.work_generation ≢ g
  pub spared : (w : Work) → Memᴰ w c.work → w.work_generation ≢ g → Memᴰ w c'.work

-- A switch, a shutdown, or a navigation in an active session. A start for another session mints
-- too, but fires no signal.
abbrev pub is_ending : CoordinatorStep → Coordinator → Bool
is_ending switches c = true
is_ending (shuts_down io) c = true
is_ending (tree session leaf old_leaf new_leaf io io') c = c.active
is_ending (starts_session session leaf io) c = false
is_ending forks c = false
is_ending ticks c = false
is_ending crashes c = false
is_ending (before_tree is_aborted ids) c = false
is_ending (marks ids io) c = false
is_ending (registers g controller) c = false
is_ending (settles controller) c = false
