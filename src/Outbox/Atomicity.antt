-- ===== src/Outbox/Atomicity.antt =====
-- What a call of src/outbox/store.ts leaves behind when it throws, and when it returns.
use pi_kiwifs_memory.Prelude.{
  ℕ, String, sym, ap, ◌∙◌, ◌≡◌, refl, Option, none, some, ◌⊎◌, inl, inr, ℕ,
}
use pi_kiwifs_memory.Outbox.{
  Outbox, Config, Op, Err, Io, journal, quarantine, threw, Result, outcome, plain, step, close,
}
use pi_kiwifs_memory.Outbox.Outcomes.{
  intended, Outcome, kept, shut, done, failed_after, failed_before, step-Outcome,
}

abbrev pub InSync : Outbox → Type 0
InSync s = s.disk ≡ journal s.jobs

Outcome-threw :
    {s t : Outbox} {w : Outbox × Option Err} {e : Err}
    → Outcome s t w
    → w.1 ≡ some e
    → (w.0.jobs ≡ s.jobs) × (w.0.next_seq ≡ s.next_seq)
Outcome-threw (kept e) h = (refl, refl)
Outcome-threw shut h = cc
Outcome-threw done h = cc
Outcome-threw (failed_after e) h = (refl, refl)
Outcome-threw (failed_before e b) h = (refl, refl)

-- A call that throws, whatever the reason, leaves the jobs in memory and the next number as they
-- were.
pub step-threw_unchanged :
    (c : Config) (op : Op) (s : Outbox) {e : Err}
    → (step c op s).1 ≡ some e
    → ((step c op s).0.jobs ≡ s.jobs) × ((step c op s).0.next_seq ≡ s.next_seq)
step-threw_unchanged c op s h = Outcome-threw (step-Outcome c op s) h

Outcome-InSync :
    {s t : Outbox} {w : Outbox × Option Err} → Outcome s t w → w.1 ≡ none → InSync s → InSync w.0
unfolding close
Outcome-InSync (kept e) h y = y
Outcome-InSync shut h y = y
Outcome-InSync done h y = refl
Outcome-InSync (failed_after e) h y = cc
Outcome-InSync (failed_before e b) h y = cc

-- From a store whose journal holds its jobs, a call that returns without throwing leaves a journal
-- that holds the new jobs.
pub step-InSync :
    (c : Config) (op : Op) (s : Outbox) → (step c op s).1 ≡ none → InSync s → InSync (step c op s).0
step-InSync c op s h y = Outcome-InSync (step-Outcome c op s) h y

-- The fields that a plan leaves alone.
intended-disk : (c : Config) (op : Op) (s : Outbox) → (intended c op s).disk ≡ s.disk
unfolding intended close
intended-disk c (Op.enqueuing i now random io) s = refl
intended-disk c (Op.acking n now io) s = refl
intended-disk c (Op.retrying n attempts at io) s = refl
intended-disk c (Op.quarantining n reason io) s = refl
intended-disk c (Op.discarding n io) s = refl
intended-disk c (Op.retaining now io) s = refl
intended-disk c Op.closing s = refl

Outcome-disk :
    {s t : Outbox} {w : Outbox × Option Err}
    → Outcome s t w
    → t.disk ≡ s.disk
    → (w.0.disk ≡ s.disk) ⊎ (w.0.disk ≡ journal t.jobs)
unfolding close
Outcome-disk (kept e) h = inl refl
Outcome-disk shut h = inl refl
Outcome-disk done h = inr refl
Outcome-disk (failed_after e) h = inr refl
Outcome-disk (failed_before e b) h = inl h

-- After any call, and however its write ended, the file is the journal from before or the complete
-- journal of the jobs that the call meant to store: never anything between.
pub step_disk_whole :
    (c : Config) (op : Op) (s : Outbox)
    → ((step c op s).0.disk ≡ s.disk) ⊎ ((step c op s).0.disk ≡ journal (intended c op s).jobs)
step_disk_whole c op s = Outcome-disk (step-Outcome c op s) (intended-disk c op s)

pub quarantine-threw_jobs :
    (c : Config) (n : ℕ) (reason : String) (io : Io) (s : Outbox) {s' : Outbox} {e : Err}
    → quarantine n reason io s ≡ (s', threw e)
    → s'.jobs ≡ s.jobs
unfolding step plain outcome
quarantine-threw_jobs c n reason io s {s'} {e} h =
    let thrown : (step c (Op.quarantining n reason io) s).1 ≡ some e = rw h in
    sym (ap (λ (r : Outbox × Result (Unit {0})). r.0.jobs) h)
    ∙ (step-threw_unchanged c (Op.quarantining n reason io) s thrown).0
