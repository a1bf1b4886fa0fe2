-- ===== src/Outbox/Outcomes.antt =====
-- Every call of the store in src/outbox/store.ts, on every branch, ends in one of five ways.
use pi_kiwifs_memory.Prelude.{
  ◌≡◌, refl, suc, Bool, not, Option, none, some, [], ◌∷◌, ◌++◌, ◌-◌, inl, inr, Bool-cases,
  Option-cases, filter, is_some, find, length, ltb, ◌==◌, ◌&&◌, ℕ, String, ltb,
}
use pi_kiwifs_memory.Outbox.{
  Job, Outbox, Config, Op, Io, Err, EnqueueInput, Result, ok, threw, outcome, persist, settle,
  plain, update_seq, mutate, find_seq, ack, retry, quarantine, discard_quarantined, enqueue,
  run_retention, close, step, supported, new_job, enqueuing, acking, retrying, quarantining,
  discarding, retaining, closing, acknowledged, rescheduled, set_aside, is_retained, is_quarantined,
  refusal,
}
use pi_kiwifs_memory.Outbox.Writes.{written, persist-cases}

-- The store that a call means to reach, when no guard refuses it and its write completes.
unfoldable pub intended : Config → Op → Outbox → Outbox
intended c (enqueuing i now random io) s = record s {
  jobs = s.jobs ++ new_job c i now random s.next_seq ∷ [];
  next_seq = suc s.next_seq;
}
intended c (acking n now io) s = record s { jobs = update_seq n (acknowledged now) s.jobs }
intended c (retrying n attempts at io) s = record s {
  jobs = update_seq n (rescheduled attempts at) s.jobs;
}
intended c (quarantining n reason io) s = record s { jobs = update_seq n (set_aside reason) s.jobs }
intended c (discarding n io) s = record s { jobs = filter (λ j. not (j.seq == n)) s.jobs }
intended c (retaining now io) s = record s { jobs = filter (is_retained c now) s.jobs }
intended c closing s = close s

abbrev pub rolled_back : Outbox → Outbox → Outbox
rolled_back s w = record w { jobs = s.jobs; next_seq = s.next_seq }

-- From `s`, with the store `t` intended.
pub data Outcome (s t : Outbox) : Outbox × Option Err → Type 0 where
  kept : (e : Option Err) → Outcome s t (s, e)
  shut : Outcome s t (close s, none)
  done : Outcome s t (written t, none)
  failed_after : (e : Err) → Outcome s t (rolled_back s (written t), some e)
  failed_before :
      (e : Err) (b : Bool) → Outcome s t (rolled_back s (record t { persist_fault = b }), some e)

pub settle-Outcome :
    {A : Type 0} (io : Io) (s t : Outbox) (a : A) → Outcome s t (plain (settle s a (persist io t)))
unfolding settle plain
settle-Outcome io s t a = elim (persist-cases io t) [
  | inl w ↦ rw w done
  | inr (inl (e, w)) ↦ rw w (failed_after e)
  | inr (inr (e, b, w)) ↦ rw w (failed_before e b)
]

mutate-Outcome :
    (n : ℕ) (f : Job → Job) (io : Io) (s : Outbox)
    → Outcome s (record s { jobs = update_seq n f s.jobs }) (plain (mutate n f io s))
unfolding mutate plain
mutate-Outcome n f io s = elim (Bool-cases (is_some s.read_only)) [
  | inl newer ↦ rw newer (kept _)
  | inr writable ↦ elim (Option-cases (find_seq n s.jobs)) [
    | inl missing ↦ rw (writable, missing) (kept _)
    | inr (j, found) ↦ elim (Bool-cases (supported j)) [
      | inl fit ↦ rw (writable, found, fit) (settle-Outcome io s _ tt)
      | inr unfit ↦ rw (writable, found, unfit) (kept _)
    ]
  ]
]

enqueue-Outcome :
    (c : Config) (i : EnqueueInput) (now : ℕ) (random : String) (io : Io) (s : Outbox)
    → Outcome s (intended c (enqueuing i now random io) s) (plain (enqueue c i now random io s))
unfolding enqueue plain intended
enqueue-Outcome c i now random io s = elim (Option-cases (refusal c i s)) [
  | inl passed ↦ rw (passed, enqueue) (settle-Outcome io s _ _)
  | inr (e, refused) ↦ rw (refused, enqueue) (kept (some e))
]

discard-Outcome :
    (n : ℕ) (io : Io) (s : Outbox)
    → Outcome s
        (record s { jobs = filter (λ j. not (j.seq == n)) s.jobs })
        (plain (discard_quarantined n io s))
unfolding discard_quarantined plain
discard-Outcome n io s =
    elim (Option-cases (find (λ j. j.seq == n && is_quarantined j.status) s.jobs)) [
      | inl missing ↦ rw (missing, discard_quarantined) (kept _)
      | inr (j, found) ↦ rw (found, discard_quarantined) (settle-Outcome io s _ tt)
    ]

retention-Outcome :
    (c : Config) (now : ℕ) (io : Io) (s : Outbox)
    → Outcome s (intended c (retaining now io) s) (plain (run_retention c now io s))
unfolding run_retention plain intended
retention-Outcome c now io s = elim (Bool-cases (is_some s.read_only)) [
  | inl newer ↦ rw newer (kept _)
  | inr writable ↦
      elim (Bool-cases (ltb 0 (length s.jobs - length (filter (is_retained c now) s.jobs)))) [
        | inl some_old ↦ rw (writable, some_old) (settle-Outcome io s _ _)
        | inr none_old ↦ rw (writable, none_old) (kept _)
      ]
]

pub step-Outcome : (c : Config) (op : Op) (s : Outbox) → Outcome s (intended c op s) (step c op s)
unfolding step intended ack retry quarantine
step-Outcome c (enqueuing i now random io) s = enqueue-Outcome c i now random io s
step-Outcome c (acking n now io) s = mutate-Outcome n _ io s
step-Outcome c (retrying n attempts at io) s = mutate-Outcome n _ io s
step-Outcome c (quarantining n reason io) s = mutate-Outcome n _ io s
step-Outcome c (discarding n io) s = discard-Outcome n io s
step-Outcome c (retaining now io) s = retention-Outcome c now io s
step-Outcome c closing s = shut

-- What a component that calls the store learns from `step`.
pub step-acking :
    (c : Config) (n now : ℕ) (io : Io) (s : Outbox)
    → step c (acking n now io) s ≡ plain (ack n now io s)
unfolding step
step-acking c n now io s = refl

pub step-retrying :
    (c : Config) (n attempts at : ℕ) (io : Io) (s : Outbox)
    → step c (retrying n attempts at io) s ≡ plain (retry n attempts at io s)
unfolding step
step-retrying c n attempts at io s = refl

pub step-quarantining :
    (c : Config) (n : ℕ) (reason : String) (io : Io) (s : Outbox)
    → step c (quarantining n reason io) s ≡ plain (quarantine n reason io s)
unfolding step
step-quarantining c n reason io s = refl

pub store-plain : {A : Type 0} (r : Outbox × Result A) → (plain r).0 ≡ r.0
unfolding plain
store-plain (s, r) = refl

pub threw-plain :
    {A : Type 0} (r : Outbox × Result A) (e : Err) → r.1 ≡ threw e → (plain r).1 ≡ some e
unfolding plain outcome
threw-plain (s, ok a) e h = cc
threw-plain (s, threw x) e h = cc
