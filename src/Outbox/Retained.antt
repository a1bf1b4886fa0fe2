-- ===== src/Outbox/Retained.antt =====
-- src/outbox/store.ts: "pending jobs are never dropped", and what retention removes.
use pi_kiwifs_memory.Prelude.{
  ℕ, ◌≡◌, refl, sym, ap, Bool, true, false, not, Option, some, ◌⊎◌, inl, inr, arith, List, [], ◌∷◌,
  Bool-cases, Option-cases, String, ◌==◌, find, Memᴰ, Mem-append_left, mem-filter, filter-mem,
  mem-find, and_true, ◌&&◌, ==_iff, ◌∙◌,
}
use pi_kiwifs_memory.Outbox.{
  Outbox, Config, Op, Err, Io, Job, pending, update_seq, close, step, is_retained, acknowledged,
  rescheduled, set_aside, is_quarantined, discard_quarantined, pending_jobs, plain,
}
use pi_kiwifs_memory.Outbox.Outcomes.{
  intended, Outcome, kept, shut, done, failed_after, failed_before, step-Outcome, settle-Outcome,
}
use pi_kiwifs_memory.Outbox.Invariant.{Numbered, Numbered-unique, IsValid}

-- The calls that take job `n` out of the pending ones on purpose.
abbrev pub settles : ℕ → Op → Bool
settles n (Op.acking m now io) = m == n
settles n (Op.quarantining m reason io) = m == n
settles n op = false

-- `j` is still among the jobs, with its identity and what it is to send; and if it was pending, it
-- is pending, unless `op` settles it.
pub record Survives (op : Op) (j : Job) (js : List Job) : Type 0 where
  pub job : Job
  pub stored : Memᴰ job js
  pub same_seq : job.seq ≡ j.seq
  pub same_id : job.op_id ≡ j.op_id
  pub same_payload : job.payload ≡ j.payload
  pub waits : j.status ≡ pending → (job.status ≡ pending) ⊎ (settles j.seq op ≡ true)

Survives-self : (op : Op) (j : Job) (js : List Job) → Memᴰ j js → Survives op j js
Survives-self op j js m = record {
  job = j;
  stored = m;
  same_seq = refl;
  same_id = refl;
  same_payload = refl;
  waits = λ p. inl p;
}

Survives-cons :
    {op : Op} {j : Job} {js : List Job} (x : Job) → Survives op j js → Survives op j (x ∷ js)
Survives-cons x v = record {
  job = v.job;
  stored = Memᴰ.tail v.stored;
  same_seq = v.same_seq;
  same_id = v.same_id;
  same_payload = v.same_payload;
  waits = v.waits;
}

-- A change in place that keeps identity, and the status unless the call settles that number.
record IsBenign (op : Op) (n : ℕ) (f : Job → Job) : Type 0 where
  seq : (j : Job) → (f j).seq ≡ j.seq
  id : (j : Job) → (f j).op_id ≡ j.op_id
  payload : (j : Job) → (f j).payload ≡ j.payload
  waits :
      (j : Job)
      → j.seq ≡ n
      → j.status ≡ pending
      → ((f j).status ≡ pending) ⊎ (settles j.seq op ≡ true)

Survives-update_seq :
    (op : Op) (n : ℕ) (f : Job → Job) (j : Job) (js : List Job)
    → IsBenign op n f
    → Memᴰ j js
    → Survives op j (update_seq n f js)
unfolding update_seq
Survives-update_seq op n f j [] b m = elim m [ ]
Survives-update_seq op n f j (x ∷ js) b (Memᴰ.head e) = elim (Bool-cases (x.seq == n)) [
  | inl hit ↦ rw hit (record {
    job = f x;
    stored = Memᴰ.head refl;
    same_seq = b.seq x ∙ ap (λ (y : Job). y.seq) (sym e);
    same_id = b.id x ∙ ap (λ (y : Job). y.op_id) (sym e);
    same_payload = b.payload x ∙ ap (λ (y : Job). y.payload) (sym e);
    waits = λ p. rw e (b.waits x ((==_iff x.seq n).0 hit) (rw e at p));
  })
  | inr miss ↦ rw miss (Survives-self op j (x ∷ update_seq n f js) (Memᴰ.head e))
]
Survives-update_seq op n f j (x ∷ js) b (Memᴰ.tail m) = elim (Bool-cases (x.seq == n)) [
  | inl hit ↦ rw hit (Survives-cons (f x) (Survives-self op j js m))
  | inr miss ↦ rw miss (Survives-cons x (Survives-update_seq op n f j js b m))
]

Outcome-Survives :
    {op : Op} {j : Job} {s t : Outbox} {w : Outbox × Option Err}
    → Outcome s t w
    → Survives op j s.jobs
    → Survives op j t.jobs
    → Survives op j w.0.jobs
unfolding close
Outcome-Survives (kept e) h k = h
Outcome-Survives shut h k = h
Outcome-Survives done h k = k
Outcome-Survives (failed_after e) h k = h
Outcome-Survives (failed_before e b) h k = h

-- Under the numbering, a pending job is not the one that a discard finds.
not_discarded :
    (n lo hi : ℕ) (js : List Job) (j q : Job)
    → Numbered lo hi js
    → Memᴰ j js
    → j.status ≡ pending
    → find (λ x. x.seq == n && is_quarantined x.status) js ≡ some q
    → not (j.seq == n) ≡ true
not_discarded n lo hi js j q u m p found =
    let (stored, hit) = mem-find (λ x. x.seq == n && is_quarantined x.status) js found in
    elim (Bool-cases (j.seq == n)) [
      | inl same ↦
          let one : j ≡ q = Numbered-unique lo hi js u m stored (ground (arith, hit, same)) in
          let (_, set_apart) = and_true (q.seq == n) (is_quarantined q.status) hit in
          let clash : is_quarantined j.status ≡ true = rw one set_apart in
          absurd (cc (sym (rw p at clash)))
      | inr other ↦ rw other
    ]

discard-Survives :
    (c : Config) (n : ℕ) (io : Io) (s : Outbox) (j : Job)
    → IsValid s
    → Memᴰ j s.jobs
    → j.status ≡ pending
    → Survives (Op.discarding n io) j (plain (discard_quarantined n io s)).0.jobs
unfolding discard_quarantined plain
discard-Survives c n io s j v m p =
    let self = Survives-self (Op.discarding n io) j s.jobs m in
    elim (Option-cases (find (λ j. j.seq == n && is_quarantined j.status) s.jobs)) [
      | inl missing ↦ rw (missing, discard_quarantined) self
      | inr (q, found) ↦
          rw (found, discard_quarantined)
            (Outcome-Survives (settle-Outcome io s _ tt) self (
              Survives-self (Op.discarding n io) j _ (
                mem-filter _ s.jobs m
                  (not_discarded n 1 s.next_seq s.jobs j q v.numbered m p found))))
    ]

pending-is_retained :
    (c : Config) (now : ℕ) (j : Job) → j.status ≡ pending → is_retained c now j ≡ true
unfolding is_retained
pending-is_retained c now j p = ground arith

acking-IsBenign : (n now : ℕ) (io : Io) → IsBenign (Op.acking n now io) n (acknowledged now)
acking-IsBenign n now io = record {
  seq = λ j. refl;
  id = λ j. refl;
  payload = λ j. refl;
  waits = λ j e p. inr (ground arith);
}

retrying-IsBenign :
    (n attempts at : ℕ) (io : Io)
    → IsBenign (Op.retrying n attempts at io) n (rescheduled attempts at)
retrying-IsBenign n attempts at io = record {
  seq = λ j. refl;
  id = λ j. refl;
  payload = λ j. refl;
  waits = λ j e p. inl p;
}

quarantining-IsBenign :
    (n : ℕ) (reason : String) (io : Io)
    → IsBenign (Op.quarantining n reason io) n (set_aside reason)
quarantining-IsBenign n reason io = record {
  seq = λ j. refl;
  id = λ j. refl;
  payload = λ j. refl;
  waits = λ j e p. inr (ground arith);
}

-- The calls that remove jobs.
abbrev pub removes : Op → Bool
removes (Op.discarding n io) = true
removes (Op.retaining now io) = true
removes _ = false

-- A call that is neither a discard nor the retention keeps every job, whatever its status.
pub step-Survives_any :
    (c : Config) (op : Op) (s : Outbox) (j : Job)
    → removes op ≡ false
    → Memᴰ j s.jobs
    → Survives op j (step c op s).0.jobs
step-Survives_any c (Op.enqueuing i now random io) s j r m =
    Outcome-Survives (step-Outcome c _ s) (Survives-self _ j s.jobs m)
      (unfold intended in Survives-self _ j _ (Mem-append_left s.jobs _ m))
step-Survives_any c (Op.acking n now io) s j r m =
    Outcome-Survives (step-Outcome c _ s) (Survives-self _ j s.jobs m)
      (unfold intended in Survives-update_seq _ n _ j s.jobs (acking-IsBenign n now io) m)
step-Survives_any c (Op.retrying n attempts at io) s j r m =
    Outcome-Survives (step-Outcome c _ s) (Survives-self _ j s.jobs m)
      (unfold intended in Survives-update_seq _ n _ j s.jobs (retrying-IsBenign n attempts at io) m)
step-Survives_any c (Op.quarantining n reason io) s j r m =
    Outcome-Survives (step-Outcome c _ s) (Survives-self _ j s.jobs m)
      (unfold intended in Survives-update_seq _ n _ j s.jobs (quarantining-IsBenign n reason io) m)
step-Survives_any c (Op.discarding n io) s j r m = cc
step-Survives_any c (Op.retaining now io) s j r m = cc
step-Survives_any c Op.closing s j r m =
    Outcome-Survives (step-Outcome c _ s) (Survives-self _ j s.jobs m)
      (unfold intended close in Survives-self _ j s.jobs m)

-- A pending job stays in the store, under its number, `opId` and payload, through every call and
-- every way that a write may end; and it stays pending, unless the call is an `ack` or a
-- `quarantine` of that very job.
pub step-Survives :
    (c : Config) (op : Op) (s : Outbox) (j : Job)
    → IsValid s
    → Memᴰ j s.jobs
    → j.status ≡ pending
    → Survives op j (step c op s).0.jobs
step-Survives c (Op.discarding n io) s j v m p = unfold step in discard-Survives c n io s j v m p
step-Survives c (Op.retaining now io) s j v m p =
    Outcome-Survives (step-Outcome c _ s) (Survives-self _ j s.jobs m) (
      unfold intended in
      Survives-self _ j _ (mem-filter _ s.jobs m (pending-is_retained c now j p)))
step-Survives c (Op.enqueuing i now random io) s j v m p = step-Survives_any c _ s j refl m
step-Survives c (Op.acking n now io) s j v m p = step-Survives_any c _ s j refl m
step-Survives c (Op.retrying n attempts at io) s j v m p = step-Survives_any c _ s j refl m
step-Survives c (Op.quarantining n reason io) s j v m p = step-Survives_any c _ s j refl m
step-Survives c Op.closing s j v m p = step-Survives_any c _ s j refl m

pub pending_jobs-mem : (js : List Job) {j : Job} → Memᴰ j (pending_jobs js) → Memᴰ j js
unfolding pending_jobs
pending_jobs-mem js m = (filter-mem _ js m).0
