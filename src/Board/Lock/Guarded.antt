-- ===== src/Board/Lock/Guarded.antt =====
-- src/board/lock.ts: the lock of a live process keeps newcomers out.
use pi_kiwifs_memory.Prelude.{
  ℕ, ◌+◌, ◌*◌, ◌≤◌, ◌≡◌, ◌≢◌, refl, true, false, Option, none, some, List, [], ◌∷◌, arith, All,
  Bool-cases, inl, inr, ◌==◌,
}
use pi_kiwifs_memory.Board.Lock.{
  LockFile, Phase, outside, opening, looking, breaking, aging, writing, owning, refused, World,
  Answer, LockStep, acts, dies, set_phase, holder_of, modified_of, is_dead, is_stale,
  open_exclusive, lock_stale_ms, act, lock_step, run_lock,
}

-- A process that has found nothing stale: whatever it read of a holder was `p`.
abbrev pub IsNewcomer : ℕ → Phase → Type 0
IsNewcomer p outside = Unit
IsNewcomer p (opening attempt) = Unit
IsNewcomer p (looking attempt) = Unit
IsNewcomer p (aging attempt pid) = pid ≡ some p
IsNewcomer p (refused pid) = Unit
IsNewcomer p (breaking attempt) = false ≡ true
IsNewcomer p (writing i) = false ≡ true
IsNewcomer p (owning i) = false ≡ true

-- The lock that `p` acquired at the time `t`, its pid written, and every other process a newcomer.
pub record IsGuarded (p i t : ℕ) (w : World) : Type 0 where
  pub owns : w.phase p ≡ owning i
  pub standing : w.file ≡ some (record { inode = i; holder = some p; modified = t })
  pub others : (q : ℕ) → q ≢ p → IsNewcomer p (w.phase q)

-- A step of another process, to which `p` is alive and the lock not older than twelve hours.
abbrev pub IsOutsider : ℕ → ℕ → LockStep → Type 0
IsOutsider p t (acts a q) = (q ≢ p) × (a.pid_alive p ≡ true) × (a.now ≤ t + 12 * 60 * 60 * 1000)
IsOutsider p t (dies q) = q ≢ p

module _ (p i t : ℕ) where
  set_phase-IsGuarded :
      (q : ℕ) (ph : Phase) (w : World)
      → q ≢ p
      → IsNewcomer p ph
      → IsGuarded p i t w
      → IsGuarded p i t (set_phase q ph w)
  unfolding set_phase
  set_phase-IsGuarded q ph w apart fits h =
      let other : (p == q) ≡ false = ground (arith, apart) in
      record {
        owns = simp other h.owns;
        standing = h.standing;
        others = λ r far. elim (Bool-cases (r == q)) [
          | inl same ↦ simp same fits
          | inr away ↦ simp away (h.others r far)
        ];
      }

  open_exclusive-IsGuarded :
      (a : Answer) (q attempt : ℕ) (w : World) (file : Option LockFile)
      → q ≢ p
      → w.file ≡ file
      → IsGuarded p i t w
      → IsGuarded p i t (open_exclusive a q attempt file w)
  unfolding open_exclusive
  open_exclusive-IsGuarded a q attempt w (some f) apart eq h =
      set_phase-IsGuarded q (looking attempt) w apart tt h
  open_exclusive-IsGuarded a q attempt w none apart eq h = cc (eq, h.standing)

  -- The verdict on a holder that is alive and young enough.
  not_stale :
      (a : Answer) (w : World)
      → a.pid_alive p ≡ true
      → a.now ≤ t + 12 * 60 * 60 * 1000
      → IsGuarded p i t w
      → is_stale a (some p) (modified_of w.file) ≡ false
  unfolding is_stale is_dead modified_of lock_stale_ms
  not_stale a w alive young h = simp (h.standing, alive) (ground (arith, young))

  act-IsGuarded :
      (a : Answer) (q : ℕ) (ph : Phase) (w : World)
      → IsOutsider p t (acts a q)
      → IsNewcomer p ph
      → IsGuarded p i t w
      → IsGuarded p i t (act a q ph w)
  unfolding act
  act-IsGuarded a q outside w (apart, alive, young) fits h =
      set_phase-IsGuarded q (opening 0) w apart tt h
  act-IsGuarded a q (opening attempt) w (apart, alive, young) fits h = elim (Bool-cases a.fails) [
    | inl failed ↦ simp failed (set_phase-IsGuarded q (refused none) w apart tt h)
    | inr works ↦ simp works (open_exclusive-IsGuarded a q attempt w w.file apart refl h)
  ]
  act-IsGuarded a q (looking attempt) w (apart, alive, young) fits h =
      set_phase-IsGuarded q (aging attempt (holder_of w.file)) w apart
        (unfold holder_of in simp h.standing refl) h
  act-IsGuarded a q (aging attempt pid) w (apart, alive, young) fits h =
      let verdict : is_stale a pid (modified_of w.file) ≡ false =
        simp fits (not_stale a w alive young h) in
      simp verdict (set_phase-IsGuarded q (refused pid) w apart tt h)
  act-IsGuarded a q (refused pid) w (apart, alive, young) fits h = h
  act-IsGuarded a q (breaking attempt) w (apart, alive, young) fits h = cc fits
  act-IsGuarded a q (writing j) w (apart, alive, young) fits h = cc fits
  act-IsGuarded a q (owning j) w (apart, alive, young) fits h = cc fits

  lock_step-IsGuarded :
      (step : LockStep) (w : World)
      → IsOutsider p t step
      → IsGuarded p i t w
      → IsGuarded p i t (lock_step step w)
  unfolding lock_step
  lock_step-IsGuarded (acts a q) w out h = act-IsGuarded a q (w.phase q) w out (h.others q out.0) h
  lock_step-IsGuarded (dies q) w apart h = set_phase-IsGuarded q outside w apart tt h

-- When a process owns the lock, its pid written, and every other process is before the start of the
-- acquisition, at its exclusive open, at the reading, at the verdict on that very pid, or refused,
-- then this stays so through any sequence of system calls and deaths of the others for which the
-- owner is alive and the lock not older than twelve hours: the file stays as it is, and no other
-- process ever breaks or owns the lock.
pub run_lock-IsGuarded :
    (p i t : ℕ) (steps : List LockStep) (w : World)
    → All (IsOutsider p t) steps
    → IsGuarded p i t w
    → IsGuarded p i t (run_lock steps w)
unfolding run_lock
run_lock-IsGuarded p i t [] w out h = h
run_lock-IsGuarded p i t (step ∷ steps) w out h =
    run_lock-IsGuarded p i t steps (lock_step step w) out.1
      (lock_step-IsGuarded p i t step w out.0 h)
