-- ===== src/Board/Lock.antt =====
-- src/board/lock.ts: the lock of a board consumer. Each system call is a step, between which other
-- processes may act.
pub mod Guarded
mod Tests
use pi_kiwifs_memory.Prelude.{
  ℕ, zero, suc, ◌+◌, ◌-◌, ◌*◌, Bool, true, false, ◌||◌, not, Option, none, some, List, [], ◌∷◌, ltb,
  ◌==◌, if◌then◌else◌,
}

pub lock_stale_ms : ℕ
lock_stale_ms = 12 * 60 * 60 * 1000

-- The file at the lock's path: `holder` is the pid that `readHolderPid` finds in it.
pub record LockFile : Type 0 where
  pub inode : ℕ
  pub holder : Option ℕ
  pub modified : ℕ

-- Where a process is in `acquireConsumerLock`, with its attempt, or the inode that it has open or
-- has written.
pub data Phase : Type 0 where
  outside : Phase
  opening looking breaking : ℕ → Phase
  aging : ℕ → Option ℕ → Phase
  writing owning : ℕ → Phase
  refused : Option ℕ → Phase

pub record World : Type 0 where
  pub file : Option LockFile
  pub next_inode : ℕ
  pub phase : ℕ → Phase

-- What a system call meets; `fails` is an error other than EEXIST.
pub record Answer : Type 0 where
  pub now : ℕ
  pub pid_alive : ℕ → Bool
  pub fails : Bool

pub data LockStep : Type 0 where
  acts : Answer → ℕ → LockStep
  dies : ℕ → LockStep

pub set_phase : ℕ → Phase → World → World
set_phase p ph w = record w { phase = λ q. if q == p then ph else w.phase q }

pub holder_of : Option LockFile → Option ℕ
holder_of none = none
holder_of (some f) = f.holder

-- `statMtimeMs`, which is 0 for a missing file.
pub modified_of : Option LockFile → ℕ
modified_of none = 0
modified_of (some f) = f.modified

pub is_dead : Answer → Option ℕ → Bool
is_dead a none = true
is_dead a (some pid) = not (a.pid_alive pid)

pub is_stale : Answer → Option ℕ → ℕ → Bool
is_stale a pid modified = is_dead a pid || ltb lock_stale_ms (a.now - modified)

-- `openSync(path, "wx")`.
pub open_exclusive : Answer → ℕ → ℕ → Option LockFile → World → World
open_exclusive a p attempt (some f) w = set_phase p (looking attempt) w
open_exclusive a p attempt none w = set_phase p (writing w.next_inode) (record w {
  file = some (record { inode = w.next_inode; holder = none; modified = a.now });
  next_inode = w.next_inode + 1;
})

pub next_attempt : ℕ → Phase
next_attempt attempt = if ltb attempt 2 then opening attempt else refused none

-- A write goes to the open inode, whether or not the path still leads there.
pub write_pid : Answer → ℕ → ℕ → Option LockFile → Option LockFile
write_pid a p i none = none
write_pid a p i (some f) =
    some (if f.inode == i then record f { holder = some p; modified = a.now } else f)

pub act : Answer → ℕ → Phase → World → World
act a p outside w = set_phase p (opening 0) w
act a p (opening attempt) w =
    if a.fails then set_phase p (refused none) w else open_exclusive a p attempt w.file w
act a p (looking attempt) w = set_phase p (aging attempt (holder_of w.file)) w
act a p (aging attempt pid) w =
    set_phase p (if is_stale a pid (modified_of w.file) then breaking attempt else refused pid) w
act a p (breaking attempt) w = set_phase p (next_attempt (attempt + 1)) (record w { file = none })
act a p (writing i) w =
    if a.fails
    then set_phase p (refused none) w
    else set_phase p (owning i) (record w { file = write_pid a p i w.file })
act a p (owning i) w = set_phase p outside (record w { file = none })
act a p (refused pid) w = w

pub lock_step : LockStep → World → World
lock_step (acts a p) w = act a p (w.phase p) w
lock_step (dies p) w = set_phase p outside w

pub run_lock : List LockStep → World → World
run_lock [] w = w
run_lock (step ∷ steps) w = run_lock steps (lock_step step w)
