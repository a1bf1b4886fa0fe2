-- ===== src/Outbox/Journal/Recovery.antt =====
-- src/outbox/store.ts: opening the store again on the journal that a process left, at any point.
use pi_kiwifs_memory.Prelude.{
  ℕ, ◌≡◌, refl, sym, ap, true, none, ◌⊎◌, inl, inr, arith, ◌≤◌, suc, List, [], ◌∷◌, ◌++◌, map, max,
  All, Bool-cases, ◌∙◌,
}
use mathlib.Core.List.{append_assoc, append-nil}
use pi_kiwifs_memory.Outbox.{Outbox, Config, Op, Job, ok, supported, journal, step}
use pi_kiwifs_memory.Outbox.Journal.{entry, empty, add_job, load, open_store, reopen}
use pi_kiwifs_memory.Outbox.Invariant.{Numbered, Numbered-upto, IsValid, step-IsValid}
use pi_kiwifs_memory.Outbox.Outcomes.{intended}
use pi_kiwifs_memory.Outbox.Atomicity.{step_disk_whole}

-- The loop of `load` over entries alone.
add_jobs : List Job → Outbox → Outbox
add_jobs [] s = s
add_jobs (j ∷ js) s = add_jobs js (add_job j s)

load-entries : (js : List Job) (s : Outbox) → load (map entry js) s ≡ ok (add_jobs js s)
unfolding load add_jobs
load-entries [] s = refl
load-entries (j ∷ js) s = load-entries js (add_job j s)

jobs-add_jobs : (js : List Job) (s : Outbox) → (add_jobs js s).jobs ≡ s.jobs ++ js
unfolding add_jobs add_job
jobs-add_jobs [] s = sym (append-nil s.jobs)
jobs-add_jobs (j ∷ js) s =
    jobs-add_jobs js (unfold add_job in add_job j s) ∙ append_assoc s.jobs (j ∷ []) js

abbrev pub AllSupported : List Job → Type 0
AllSupported = All (λ j. supported j ≡ true)

read_only-add_jobs :
    (js : List Job) (s : Outbox) → AllSupported js → (add_jobs js s).read_only ≡ s.read_only
unfolding add_jobs add_job
read_only-add_jobs [] s h = refl
read_only-add_jobs (j ∷ js) s h = read_only-add_jobs js (add_job j s) h.1 ∙ rw h.0

-- The next number after the loop: above every job, and no higher than it has to be.
next_seq-add_jobs :
    (js : List Job) (s : Outbox) (hi : ℕ)
    → Numbered s.next_seq hi js
    → (add_jobs js s).next_seq ≤ hi
unfolding add_jobs add_job
next_seq-add_jobs [] s hi n = n
next_seq-add_jobs (j ∷ js) s hi n =
    let top : max s.next_seq (suc j.seq) ≡ suc j.seq = omega (arith, n.0) in
    next_seq-add_jobs js (add_job j s) hi (rw top n.1)

Numbered-next_seq :
    (js : List Job) (s : Outbox) (lo hi : ℕ)
    → Numbered lo hi js
    → lo ≡ s.next_seq
    → Numbered lo (add_jobs js s).next_seq js
unfolding add_jobs add_job
Numbered-next_seq [] s lo hi n e = omega arith
Numbered-next_seq (j ∷ js) s lo hi n e =
    (n.0, Numbered-next_seq js (add_job j s) (suc j.seq) hi n.1 (omega (arith, n.0)))

journal-AllSupported : (js : List Job) → AllSupported (journal js)
unfolding journal
journal-AllSupported [] = tt
journal-AllSupported (j ∷ js) = elim (Bool-cases (supported j)) [
  | inl fit ↦ rw fit (fit, unfold journal in journal-AllSupported js)
  | inr newer ↦ rw newer (unfold journal in journal-AllSupported js)
]

-- A new process opens the journal that `s` left: it finds the supported jobs of `js`, in order, may
-- write, and is numbered well, in memory and on disk.
pub record Recovers (s : Outbox) (js : List Job) : Type 0 where
  pub store : Outbox
  pub opened : reopen s ≡ ok store
  pub found : store.jobs ≡ journal js
  pub writable : store.read_only ≡ none
  pub valid : IsValid store
  pub in_step : store.disk ≡ store.jobs

reopen-Recovers :
    (s : Outbox) (js : List Job) (hi : ℕ)
    → s.disk ≡ journal js
    → Numbered 1 hi s.disk
    → Recovers s js
unfolding reopen open_store
reopen-Recovers s js hi e n =
    let end = add_jobs s.disk empty in
    let found : end.jobs ≡ s.disk = jobs-add_jobs s.disk empty in
    let numbered = Numbered-next_seq s.disk empty 1 hi n refl in
    record {
      store = record end { disk = end.jobs };
      opened = rw (load-entries s.disk empty);
      found = found ∙ e;
      writable = read_only-add_jobs s.disk empty (rw e (journal-AllSupported js));
      valid = record {
        numbered = rw found numbered;
        disk_numbered =
            rw found
              (Numbered-upto 1 end.next_seq (suc end.next_seq) s.disk (omega arith) numbered);
      };
      in_step = refl;
    }

journal_unchanged : (js : List Job) → AllSupported js → journal js ≡ js
unfolding journal
journal_unchanged [] h = refl
journal_unchanged (j ∷ js) h = rw h.0 (ap (λ l. j ∷ l) (unfold journal in journal_unchanged js h.1))

-- From a store that is numbered well and whose journal file has no job of a newer format, whether
-- or not the file agrees with the jobs in memory: a process that dies after any call, however the
-- call's write ended, leaves a file that again has no such job and opens without an error, and the
-- next process finds exactly the jobs that the file had before the call, or exactly the supported
-- jobs that the call meant to store.
pub step-Recovers :
    (c : Config) (op : Op) (s : Outbox)
    → IsValid s
    → AllSupported s.disk
    → AllSupported (step c op s).0.disk
      × (Recovers (step c op s).0 s.disk ⊎ Recovers (step c op s).0 (intended c op s).jobs)
step-Recovers c op s v clean =
    let w = (step c op s).0 in
    let n = (step-IsValid c op s v).disk_numbered in
    elim (step_disk_whole c op s) [
      | inl before ↦ (
        rw before clean,
        inl (
            reopen-Recovers w s.disk (suc w.next_seq)
              (before ∙ sym (journal_unchanged s.disk clean)) n),
      )
      | inr after ↦ (
        rw after (journal-AllSupported (intended c op s).jobs),
        inr (reopen-Recovers w (intended c op s).jobs (suc w.next_seq) after n),
      )
    ]
