-- ===== src/Outbox/Admission.antt =====
-- src/outbox/store.ts, `enqueue`: what a returned job promises, and the high-water mark.
use pi_kiwifs_memory.Prelude.{
  ℕ, String, ◌≡◌, refl, true, inl, inr, arith, suc, List, [], ◌∷◌, ◌++◌, Bool-cases, Option-cases,
  Memᴰ, eq_refl,
}
use pi_kiwifs_memory.Outbox.{
  Outbox, Config, Io, Job, Result, EnqueueInput, ok, pending, journal, enqueue, refusal, new_job,
  has_op_id, supported, settle, persist,
}
use mathlib.Core.Path.{ap, subst₂}
use pi_kiwifs_memory.Outbox.Writes.{written, persist-cases}

journal-append_new :
    (js : List Job) (j : Job) → supported j ≡ true → Memᴰ j (journal (js ++ j ∷ []))
unfolding journal
journal-append_new [] j h = rw h (Memᴰ.head refl)
journal-append_new (x ∷ js) j h = elim (Bool-cases (supported x)) [
  | inl kept ↦ rw kept (Memᴰ.tail (unfold journal in journal-append_new js j h))
  | inr dropped ↦ rw dropped (unfold journal in journal-append_new js j h)
]

has_op_id-append : (js : List Job) (j : Job) → has_op_id j.op_id (js ++ j ∷ []) ≡ true
unfolding has_op_id
has_op_id-append [] j = rw (eq_refl j.op_id)
has_op_id-append (x ∷ js) j = ground (arith, has_op_id-append js j)

-- What `enqueue` promises when it returns the job `j`.
pub record IsAccepted (i : EnqueueInput) (s s' : Outbox) (j : Job) : Type 0 where
  pub on_disk : Memᴰ j s'.disk
  pub known : has_op_id j.op_id s'.jobs ≡ true
  pub appended : s'.jobs ≡ s.jobs ++ j ∷ []
  pub numbered : (j.seq ≡ s.next_seq) × (s'.next_seq ≡ suc s.next_seq)
  pub waiting : (j.status ≡ pending) × (j.attempts ≡ 0)
  pub same : (j.payload ≡ i.payload) × (j.scope ≡ i.scope)

module _ (c : Config) (i : EnqueueInput) (now : ℕ) (random : String) (io : Io) (s : Outbox) where
  abbrev fresh : Job
  fresh = new_job c i now random s.next_seq

  abbrev next : Outbox
  next = record s { jobs = s.jobs ++ fresh ∷ []; next_seq = suc s.next_seq }

  written-IsAccepted : IsAccepted i s (written next) fresh
  unfolding new_job
  written-IsAccepted = record {
    on_disk = journal-append_new s.jobs fresh refl;
    known = has_op_id-append s.jobs fresh;
    appended = refl;
    numbered = (refl, refl);
    waiting = (refl, refl);
    same = (refl, refl);
  }

  settle-IsAccepted :
      {s' : Outbox} {j : Job} → settle s fresh (persist io next) ≡ (s', ok j) → IsAccepted i s s' j
  unfolding settle
  settle-IsAccepted {s'} {j} h = elim (persist-cases io next) [
    | inl w ↦
        let r : ◌≡◌ {A = Outbox × Result Job} (written next, ok fresh) (s', ok j) = rw w at h in
        let same_job : fresh ≡ j = cc (ap (λ (p : Outbox × Result Job). p.1) r) in
        subst₂ (IsAccepted i s) (ap (λ (p : Outbox × Result Job). p.0) r) same_job
          written-IsAccepted
    | inr (inl (e, w)) ↦
        let r : ◌≡◌ {A = Outbox × Result Job} _ (s', ok j) = rw w at h in
        absurd (cc (ap (λ (p : Outbox × Result Job). p.1) r))
    | inr (inr (e, b, w)) ↦
        let r : ◌≡◌ {A = Outbox × Result Job} _ (s', ok j) = rw w at h in
        absurd (cc (ap (λ (p : Outbox × Result Job). p.1) r))
  ]

-- When `enqueue` returns a job, that job is in the journal on disk and known by its `opId`; it is
-- appended behind the jobs of before under the next free number, pending with no attempt made, and
-- carries the payload and scope of the input.
pub enqueue-IsAccepted :
    (c : Config) (i : EnqueueInput) (now : ℕ) (random : String) (io : Io) (s : Outbox) {s' : Outbox}
    {j : Job}
    → enqueue c i now random io s ≡ (s', ok j)
    → IsAccepted i s s' j
unfolding enqueue
enqueue-IsAccepted c i now random io s {s'} {j} h = elim (Option-cases (refusal c i s)) [
  | inl passed ↦ settle-IsAccepted c i now random io s (rw (passed, enqueue) at h)
  | inr (e, refused) ↦
      let r : ◌≡◌ {A = Outbox × Result Job} _ (s', ok j) = rw (refused, enqueue) at h in
      absurd (cc (ap (λ (p : Outbox × Result Job). p.1) r))
]
