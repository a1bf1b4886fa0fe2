-- ===== src/Outbox/Invariant.antt =====
-- The numbering of jobs: strictly ascending, and below the next number, in memory and on disk.
use pi_kiwifs_memory.Prelude.{
  Memᴰ, ap, sym, ◌∙◌, ℕ, suc, ◌≤◌, ◌≡◌, refl, Bool, Option, List, [], ◌∷◌, ◌++◌, arith, filter,
  Bool-cases, inl, inr, ◌==◌,
}
use pi_kiwifs_memory.Outbox.{
  Job, Outbox, Config, Op, Err, journal, update_seq, step, supported, new_job, enqueuing, acking,
  retrying, quarantining, discarding, retaining, closing, close,
}
use pi_kiwifs_memory.Outbox.Outcomes.{
  intended, Outcome, kept, shut, done, failed_after, failed_before, step-Outcome,
}

abbrev pub Numbered : ℕ → ℕ → List Job → Type 0
Numbered lo hi [] = lo ≤ hi
Numbered lo hi (j ∷ js) = (lo ≤ j.seq) × Numbered (suc j.seq) hi js

pub record IsValid (s : Outbox) : Type 0 where
  pub numbered : Numbered 1 s.next_seq s.jobs
  pub disk_numbered : Numbered 1 (suc s.next_seq) s.disk

Numbered-lo : (lo lo' hi : ℕ) (js : List Job) → lo ≤ lo' → Numbered lo' hi js → Numbered lo hi js
Numbered-lo lo lo' hi [] h n = omega arith
Numbered-lo lo lo' hi (j ∷ js) h n = (omega (arith, n.0), n.1)

pub Numbered-upto :
    (lo hi hi' : ℕ) (js : List Job) → hi ≤ hi' → Numbered lo hi js → Numbered lo hi' js
Numbered-upto lo hi hi' [] h n = omega arith
Numbered-upto lo hi hi' (j ∷ js) h n = (n.0, Numbered-upto (suc j.seq) hi hi' js h n.1)

pub Numbered-filter :
    (p : Job → Bool) (lo hi : ℕ) (js : List Job) → Numbered lo hi js → Numbered lo hi (filter p js)
Numbered-filter p lo hi [] n = n
Numbered-filter p lo hi (j ∷ js) n =
    let rest = Numbered-filter p (suc j.seq) hi js n.1 in
    elim (Bool-cases (p j)) [
      | inl in_it ↦ rw in_it (n.0, rest)
      | inr out ↦ rw out (Numbered-lo lo (suc j.seq) hi (filter p js) (omega (arith, n.0)) rest)
    ]

pub Numbered-append :
    (lo hi : ℕ) (js : List Job) (job : Job)
    → Numbered lo hi js
    → job.seq ≡ hi
    → Numbered lo (suc hi) (js ++ job ∷ [])
Numbered-append lo hi [] job n e = (omega arith, omega arith)
Numbered-append lo hi (j ∷ js) job n e = (n.0, Numbered-append (suc j.seq) hi js job n.1 e)

-- A change that keeps the number.
abbrev pub KeepsSeq : (Job → Job) → Type 0
KeepsSeq f = (j : Job) → (f j).seq ≡ j.seq

Numbered-update_seq :
    (n : ℕ) (f : Job → Job) (lo hi : ℕ) (js : List Job)
    → KeepsSeq f
    → Numbered lo hi js
    → Numbered lo hi (update_seq n f js)
unfolding update_seq
Numbered-update_seq n f lo hi [] k h = h
Numbered-update_seq n f lo hi (j ∷ js) k h = elim (Bool-cases (j.seq == n)) [
  | inl hit ↦ rw (hit, k j) h
  | inr miss ↦ rw miss (h.0, Numbered-update_seq n f (suc j.seq) hi js k h.1)
]

Numbered-ge : (lo hi : ℕ) (js : List Job) {a : Job} → Numbered lo hi js → Memᴰ a js → lo ≤ a.seq
Numbered-ge lo hi [] n m = elim m [ ]
Numbered-ge lo hi (j ∷ js) n (Memᴰ.head e) = rw e n.0
Numbered-ge lo hi (j ∷ js) n (Memᴰ.tail m) = omega (arith, Numbered-ge (suc j.seq) hi js n.1 m, n.0)

-- A number stands for one job.
pub Numbered-unique :
    (lo hi : ℕ) (js : List Job) {a b : Job}
    → Numbered lo hi js
    → Memᴰ a js
    → Memᴰ b js
    → a.seq ≡ b.seq
    → a ≡ b
Numbered-unique lo hi [] n m m' e = elim m [ ]
Numbered-unique lo hi (j ∷ js) n (Memᴰ.head p) (Memᴰ.head q) e = p ∙ sym q
Numbered-unique lo hi (j ∷ js) n (Memᴰ.head p) (Memᴰ.tail m) e =
    absurd (omega (arith, Numbered-ge (suc j.seq) hi js n.1 m, ap (λ (x : Job). x.seq) p, e))
Numbered-unique lo hi (j ∷ js) n (Memᴰ.tail m) (Memᴰ.head q) e =
    absurd (omega (arith, Numbered-ge (suc j.seq) hi js n.1 m, ap (λ (x : Job). x.seq) q, e))
Numbered-unique lo hi (j ∷ js) n (Memᴰ.tail m) (Memᴰ.tail m') e =
    Numbered-unique (suc j.seq) hi js n.1 m m' e

-- What the intended store keeps of the numbering.
record Grows (s t : Outbox) : Type 0 where
  numbered : Numbered 1 t.next_seq t.jobs
  up : s.next_seq ≤ t.next_seq
  one : t.next_seq ≤ suc s.next_seq
  disk : t.disk ≡ s.disk

intended-Grows : (c : Config) (op : Op) (s : Outbox) → IsValid s → Grows s (intended c op s)
unfolding intended close new_job
intended-Grows c (enqueuing i now random io) s v = record {
  numbered = Numbered-append 1 s.next_seq s.jobs _ v.numbered refl;
  up = omega arith;
  one = omega arith;
  disk = refl;
}
intended-Grows c (acking n now io) s v = record {
  numbered = Numbered-update_seq n _ 1 s.next_seq s.jobs (λ j. refl) v.numbered;
  up = omega arith;
  one = omega arith;
  disk = refl;
}
intended-Grows c (retrying n attempts at io) s v = record {
  numbered = Numbered-update_seq n _ 1 s.next_seq s.jobs (λ j. refl) v.numbered;
  up = omega arith;
  one = omega arith;
  disk = refl;
}
intended-Grows c (quarantining n reason io) s v = record {
  numbered = Numbered-update_seq n _ 1 s.next_seq s.jobs (λ j. refl) v.numbered;
  up = omega arith;
  one = omega arith;
  disk = refl;
}
intended-Grows c (discarding n io) s v = record {
  numbered = Numbered-filter _ 1 s.next_seq s.jobs v.numbered;
  up = omega arith;
  one = omega arith;
  disk = refl;
}
intended-Grows c (retaining now io) s v = record {
  numbered = Numbered-filter _ 1 s.next_seq s.jobs v.numbered;
  up = omega arith;
  one = omega arith;
  disk = refl;
}
intended-Grows c closing s v = record {
  numbered = v.numbered;
  up = omega arith;
  one = omega arith;
  disk = refl;
}

Outcome-IsValid :
    {s t : Outbox} {w : Outbox × Option Err} → Outcome s t w → IsValid s → Grows s t → IsValid w.0
unfolding close journal
Outcome-IsValid (kept e) v g = v
Outcome-IsValid shut v g = record { numbered = v.numbered; disk_numbered = v.disk_numbered }
Outcome-IsValid {t} done v g = record {
  numbered = g.numbered;
  disk_numbered =
      Numbered-upto 1 t.next_seq (suc t.next_seq) (filter supported t.jobs) (omega arith)
        (Numbered-filter supported 1 t.next_seq t.jobs g.numbered);
}
Outcome-IsValid {s} {t} (failed_after e) v g = record {
  numbered = v.numbered;
  disk_numbered =
      Numbered-upto 1 t.next_seq (suc s.next_seq) (filter supported t.jobs) g.one
        (Numbered-filter supported 1 t.next_seq t.jobs g.numbered);
}
Outcome-IsValid {s} {t} (failed_before e b) v g = record {
  numbered = v.numbered;
  disk_numbered = rw g.disk v.disk_numbered;
}

-- Every call, on every branch and however its journal write ends, keeps the numbering: the jobs
-- in memory are in strictly ascending order of `seq` below `next_seq`, and so are those on disk,
-- where at most the number of a rolled-back job is in use again.
pub step-IsValid : (c : Config) (op : Op) (s : Outbox) → IsValid s → IsValid (step c op s).0
step-IsValid c op s v = Outcome-IsValid (step-Outcome c op s) v (intended-Grows c op s v)
