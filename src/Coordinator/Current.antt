-- ===== src/Coordinator/Current.antt =====
-- src/pi/coordinator.ts: a generation that has lost currency never becomes current again, over
-- crashes too.
use pi_kiwifs_memory.Prelude.{
  ℕ, ◌≤◌, ◌<◌, ◌≡◌, refl, String, Bool, true, ◌||◌, not, Option, some, List, [], ◌∷◌, ◌++◌, arith,
  str_eq, Bool-cases, inl, inr, any, ◌==◌,
}
use pi_kiwifs_memory.Outbox.{Io, completes, fails_before_rename, fails_after_rename}
use pi_kiwifs_memory.Coordinator.{
  StateFile, missing, corrupt, newer, readable, Coordinator, CoordinatorOptions, Ended, returned,
  threw, persist, invalidate_work, includes, add_consumed, mark_consumed, publish, mint, same_id,
  start_timer, activate, on_session_start, clear_pending, commit_pending, enter_branch,
}

-- The generation that a new process starts from.
abbrev pub stored : StateFile → ℕ
stored missing = 0
stored corrupt = 0
stored newer = 0
stored (readable s) = s.generation

abbrev pub stored_entries : StateFile → List String
stored_entries missing = []
stored_entries corrupt = []
stored_entries newer = []
stored_entries (readable s) = s.consumed_entries

-- A published generation is on disk, and an entry that is consumed on disk is so in memory.
pub record IsDurable (c : Coordinator) : Type 0 where
  pub published : c.current_generation ≤ stored c.file
  pub counted : stored c.file ≤ c.state.generation
  pub registered :
      (id : String)
      → includes (stored_entries c.file) id ≡ true
      → includes c.state.consumed_entries id ≡ true

-- The generation does not go down, and what is consumed on disk stays so.
pub record IsLater (c c' : Coordinator) : Type 0 where
  pub durable : IsDurable c'
  pub later : c.current_generation ≤ c'.current_generation
  pub kept :
      (id : String)
      → includes (stored_entries c.file) id ≡ true
      → includes (stored_entries c'.file) id ≡ true

pub IsLater-trans : (a b c : Coordinator) → IsLater a b → IsLater b c → IsLater a c
IsLater-trans a b c h k = record {
  durable = k.durable;
  later = omega (arith, h.later, k.later);
  kept = λ id x. k.kept id (h.kept id x);
}

-- A state with the same generations.
pub IsLater-same :
    (c c' : Coordinator)
    → IsDurable c
    → c'.current_generation ≡ c.current_generation
    → c'.file ≡ c.file
    → c'.state.generation ≡ c.state.generation
    → c'.state.consumed_entries ≡ c.state.consumed_entries
    → IsLater c c'
IsLater-same c c' h current same_file counter entries = record {
  durable = record {
    published = simp (current, same_file) h.published;
    counted = simp (same_file, counter) h.counted;
    registered = simp (same_file, entries) h.registered;
  };
  later = simp current (omega arith);
  kept = simp same_file (λ id k. k);
}

pub persist-IsLater : (io : Io) (c : Coordinator) → IsDurable c → IsLater c (persist io c).0
unfolding persist
persist-IsLater completes c h = record {
  durable = record {
    published = omega (arith, h.published, h.counted);
    counted = omega arith;
    registered = λ id k. k;
  };
  later = omega arith;
  kept = h.registered;
}
persist-IsLater fails_before_rename c h = IsLater-same c c h refl refl refl refl
persist-IsLater fails_after_rename c h = record {
  durable = record {
    published = omega (arith, h.published, h.counted);
    counted = omega arith;
    registered = λ id k. k;
  };
  later = omega arith;
  kept = h.registered;
}

mint-IsLater :
    (session branch : Option String) (io : Io) (c : Coordinator)
    → IsDurable c
    → IsLater c (mint session branch io c).0
unfolding mint persist publish
mint-IsLater session branch completes c h = record {
  durable = record { published = omega arith; counted = omega arith; registered = λ id k. k };
  later = omega (arith, h.published, h.counted);
  kept = h.registered;
}
mint-IsLater session branch fails_before_rename c h = record {
  durable = record {
    published = h.published;
    counted = omega (arith, h.counted);
    registered = h.registered;
  };
  later = omega arith;
  kept = λ id k. k;
}
mint-IsLater session branch fails_after_rename c h = record {
  durable = record {
    published = omega (arith, h.published, h.counted);
    counted = omega arith;
    registered = λ id k. k;
  };
  later = omega arith;
  kept = h.registered;
}

-- A mint that returns publishes a generation that was never current before.
pub mint-fresh :
    (session branch : Option String) (io : Io) (c : Coordinator)
    → IsDurable c
    → (mint session branch io c).1 ≡ returned
    → c.current_generation < (mint session branch io c).0.current_generation
unfolding mint persist publish
mint-fresh session branch completes c h done = omega (arith, h.published, h.counted)
mint-fresh session branch fails_before_rename c h done = cc done
mint-fresh session branch fails_after_rename c h done = cc done

includes-append :
    (xs : List String) (x id : String) → includes (xs ++ x ∷ []) id ≡ includes xs id || str_eq x id
unfolding includes
includes-append [] x id = ground arith
includes-append (y ∷ xs) x id = ground (arith, includes-append xs x id)

pub add_consumed-keeps :
    (consumed ids : List String) (id : String)
    → includes consumed id ≡ true
    → includes (add_consumed consumed ids) id ≡ true
unfolding add_consumed
add_consumed-keeps consumed [] id h = h
add_consumed-keeps consumed (x ∷ ids) id h = elim (Bool-cases (includes consumed x)) [
  | inl known ↦ simp known (add_consumed-keeps consumed ids id h)
  | inr new ↦ simp new (
      add_consumed-keeps (consumed ++ x ∷ []) ids id (simp (includes-append consumed x id, h) refl))
]

pub mark_consumed-IsLater :
    (ids : List String) (io : Io) (c : Coordinator)
    → IsDurable c
    → IsLater c (mark_consumed ids io c).0
unfolding mark_consumed
mark_consumed-IsLater ids io c h =
    elim (Bool-cases (any (λ id. not (includes c.state.consumed_entries id)) ids)) [
      | inr known ↦ simp known (IsLater-same c c h refl refl refl refl)
      | inl changed ↦
          let marked : Coordinator = record c {
            state = record c.state { consumed_entries = add_consumed c.state.consumed_entries ids };
          } in
          let same : IsLater c marked = record {
            durable = record {
              published = h.published;
              counted = h.counted;
              registered =
                  λ id k. add_consumed-keeps c.state.consumed_entries ids id (h.registered id k);
            };
            later = omega arith;
            kept = λ id k. k;
          } in
          simp changed (
            IsLater-trans c marked (persist io marked).0 same
              (persist-IsLater io marked same.durable))
    ]

pub invalidate_work-IsLater :
    (g : ℕ) (c : Coordinator) → IsDurable c → IsLater c (invalidate_work g c)
unfolding invalidate_work
invalidate_work-IsLater g c h = IsLater-same c (invalidate_work g c) h refl refl refl refl

module _ (o : CoordinatorOptions) where
  start_timer-IsLater : (c : Coordinator) → IsDurable c → IsLater c (start_timer o c)
  unfolding start_timer
  start_timer-IsLater c h =
      elim (Bool-cases (not o.has_tick || c.timer || o.tick_interval_ms == 0)) [
        | inl off ↦ simp off (IsLater-same c c h refl refl refl refl)
        | inr on ↦ simp on (IsLater-same c (record c { timer = true }) h refl refl refl refl)
      ]

  activate-IsLater :
      (c : Coordinator) (r : Coordinator × Ended) → IsLater c r.0 → IsLater c (activate o r).0
  unfolding activate
  activate-IsLater c (c', threw) h = h
  activate-IsLater c (c', returned) h =
      let c2 : Coordinator = record c' { active = true } in
      let same : IsLater c' c2 = IsLater-same c' c2 h.durable refl refl refl refl in
      IsLater-trans c c2 (start_timer o c2) (IsLater-trans c c' c2 h same)
        (start_timer-IsLater c2 same.durable)

  pub on_session_start-IsLater :
      (session : String) (leaf : Option String) (io : Io) (c : Coordinator)
      → IsDurable c
      → IsLater c (on_session_start o session leaf io c).0
  unfolding on_session_start
  on_session_start-IsLater session leaf io c h =
      elim (Bool-cases (not c.active || not (same_id (some session) c.state.session_id))) [
        | inl starts ↦ simp starts (
            activate-IsLater c (mint (some session) leaf io c)
              (mint-IsLater (some session) leaf io c h))
        | inr repeated ↦
            let c2 : Coordinator = record c {
              state = record c.state { session_id = some session; branch_id = leaf };
            } in
            let same : IsLater c c2 = IsLater-same c c2 h refl refl refl refl in
            simp repeated (
              activate-IsLater c (persist io c2)
                (IsLater-trans c c2 (persist io c2).0 same (persist-IsLater io c2 same.durable)))
      ]

  clear_pending-IsLater :
      (c : Coordinator) (r : Coordinator × Ended) → IsLater c r.0 → IsLater c (clear_pending o r).0
  unfolding clear_pending
  clear_pending-IsLater c (c', threw) h = h
  clear_pending-IsLater c (c', returned) h =
      IsLater-trans c c' (record c' { pending_consumed = [] }) h
        (IsLater-same c' (record c' { pending_consumed = [] }) h.durable refl refl refl refl)

  pub commit_pending-IsLater :
      (ids : List String) (io : Io) (c : Coordinator)
      → IsDurable c
      → IsLater c (commit_pending o ids io c).0
  unfolding commit_pending
  commit_pending-IsLater [] io c h = IsLater-same c c h refl refl refl refl
  commit_pending-IsLater (id ∷ ids) io c h =
      clear_pending-IsLater c (mark_consumed (id ∷ ids) io c)
        (mark_consumed-IsLater (id ∷ ids) io c h)

  pub enter_branch-IsLater :
      (navigated : Bool) (session : String) (new_leaf : Option String) (io : Io) (c : Coordinator)
      (r : Coordinator × Ended)
      → IsLater c r.0
      → IsLater c (enter_branch o navigated session new_leaf io r).0
  unfolding enter_branch
  enter_branch-IsLater navigated session new_leaf io c (c', threw) h = h
  enter_branch-IsLater navigated session new_leaf io c (c', returned) h =
      let c2 = invalidate_work c'.current_generation c' in
      let stopped = invalidate_work-IsLater c'.current_generation c' h.durable in
      let entered : IsLater c c2 = IsLater-trans c c' c2 h stopped in
      elim (Bool-cases navigated) [
        | inr stays ↦ simp stays entered
        | inl moves ↦ simp moves (
            IsLater-trans c c2 (mint (some session) new_leaf io c2).0 entered
              (mint-IsLater (some session) new_leaf io c2 stopped.durable))
      ]
