-- ===== src/Board/Lock/Tests.antt =====
-- Runs of src/board/lock.ts, and its theorem at a concrete input.
use pi_kiwifs_memory.Prelude.{
  ℕ, ◌≡◌, refl, arith, All, if◌then◌else◌, false, not, none, some, List, [], ◌∷◌, ◌==◌,
}
use pi_kiwifs_memory.Board.Lock.{
  outside, refused, owning, World, Answer, LockStep, acts, set_phase, holder_of, modified_of,
  is_dead, is_stale, open_exclusive, next_attempt, write_pid, act, lock_step, run_lock,
  lock_stale_ms,
}
use pi_kiwifs_memory.Board.Lock.Guarded.{IsGuarded, IsOutsider, run_lock-IsGuarded}

-- The process 9 has died.
abbrev answer : Answer
answer = record { now = 100; pid_alive = λ q. not (q == 9); fails = false }

-- The process 1 owns the lock since the time 50, and the process 2 begins.
abbrev owned : World
owned = record {
  file = some (record { inode = 5; holder = some 1; modified = 50 });
  next_inode = 6;
  phase = λ q. if q == 1 then owning 5 else outside;
}

owned-IsGuarded : IsGuarded 1 5 50 owned
owned-IsGuarded = record {
  owns = refl;
  standing = refl;
  others = λ q far. (let other : (q == 1) ≡ false = ground (arith, far) in simp other tt);
}

abbrev tries : List LockStep
tries = acts answer 2 ∷ acts answer 2 ∷ acts answer 2 ∷ acts answer 2 ∷ []

outsiders : All (IsOutsider 1 50) tries
outsiders =
    let one : IsOutsider 1 50 (acts answer 2) = (omega arith, refl, omega arith) in
    (one, (one, (one, (one, tt))))

run_lock-IsGuarded_example : IsGuarded 1 5 50 (run_lock tries owned)
run_lock-IsGuarded_example = run_lock-IsGuarded 1 5 50 tries owned outsiders owned-IsGuarded

-- It is refused, with the pid of the owner.
second_refused : (run_lock tries owned).phase 2 ≡ refused (some 1)
unfolding run_lock lock_step act set_phase holder_of modified_of is_dead is_stale open_exclusive
    lock_stale_ms
second_refused = refl

-- The lock of a dead process.
abbrev left_behind : World
left_behind = record {
  file = some (record { inode = 1; holder = some 9; modified = 0 });
  next_inode = 2;
  phase = λ q. outside;
}

abbrev by : ℕ → LockStep
by p = acts answer p

-- Two processes find the lock stale; the second then removes the one that the first has just made.
abbrev race : List LockStep
race =
    by 1
    ∷ by 1
    ∷ by 1
    ∷ by 1
    ∷ by 2
    ∷ by 2
    ∷ by 2
    ∷ by 2
    ∷ by 1
    ∷ by 1
    ∷ by 1
    ∷ by 2
    ∷ by 2
    ∷ by 2
    ∷ []

first_owns : (run_lock race left_behind).phase 1 ≡ owning 2
unfolding run_lock lock_step act set_phase holder_of modified_of is_dead is_stale open_exclusive
    next_attempt write_pid lock_stale_ms
first_owns = refl

second_owns : (run_lock race left_behind).phase 2 ≡ owning 3
unfolding run_lock lock_step act set_phase holder_of modified_of is_dead is_stale open_exclusive
    next_attempt write_pid lock_stale_ms
second_owns = refl

-- Two processes at a path without a file: the second finds the file of the first before its pid is
-- written.
abbrev fresh : World
fresh = record { file = none; next_inode = 2; phase = λ q. outside }

abbrev early : List LockStep
early = by 1 ∷ by 1 ∷ by 2 ∷ by 2 ∷ by 2 ∷ by 2 ∷ by 2 ∷ by 1 ∷ by 2 ∷ by 2 ∷ []

creator_owns : (run_lock early fresh).phase 1 ≡ owning 2
unfolding run_lock lock_step act set_phase holder_of modified_of is_dead is_stale open_exclusive
    next_attempt write_pid lock_stale_ms
creator_owns = refl

breaker_owns : (run_lock early fresh).phase 2 ≡ owning 3
unfolding run_lock lock_step act set_phase holder_of modified_of is_dead is_stale open_exclusive
    next_attempt write_pid lock_stale_ms
breaker_owns = refl
