-- ===== src/Outbox/ReadOnly.antt =====
-- src/outbox/store.ts: the read-only mode that a newer journal format sets.
use pi_kiwifs_memory.Prelude.{
  ℕ, ◌≡◌, refl, Bool, true, false, some, inl, inr, arith, List, Bool-cases, Option-cases, ◌==◌,
  ◌&&◌, find, Memᴰ, filter-mem,
}
use pi_kiwifs_memory.Outbox.{
  Outbox, Config, Op, Err, Io, Job, Result, EnqueueInput, ok, read_only, closed, supported, journal,
  step, plain, enqueue, refusal, mutate, ack, retry, quarantine, run_retention, discard_quarantined,
  is_quarantined, settle, persist, close,
}
use pi_kiwifs_memory.Outbox.Writes.{persist-cases}

-- Every call but the explicit discard.
abbrev pub is_discard : Op → Bool
is_discard (Op.discarding n io) = true
is_discard _ = false

mutate-read_only :
    (n : ℕ) (f : Job → Job) (io : Io) (s : Outbox) {v : ℕ}
    → s.read_only ≡ some v
    → mutate n f io s ≡ (s, Result.threw read_only)
unfolding mutate
mutate-read_only n f io s h = simp h

refusal-read_only :
    (c : Config) (i : EnqueueInput) (s : Outbox) {v : ℕ}
    → s.read_only ≡ some v
    → (e : Err) × (refusal c i s ≡ some e)
unfolding refusal
refusal-read_only c i s h = elim (Bool-cases s.closed) [
  | inl over ↦ (closed, ground arith)
  | inr working ↦ (read_only, ground arith)
]

abbrev pub Untouched : Outbox → Outbox → Type 0
Untouched s w = (w.jobs ≡ s.jobs) × (w.next_seq ≡ s.next_seq) × (w.disk ≡ s.disk)

-- In read-only mode no call but `discardQuarantined` changes the jobs, the numbering or the file.
pub read_only-Untouched :
    (c : Config) (op : Op) (s : Outbox) {v : ℕ}
    → s.read_only ≡ some v
    → is_discard op ≡ false
    → Untouched s (step c op s).0
unfolding step plain ack retry quarantine close
read_only-Untouched c (Op.enqueuing i now random io) s h d =
    let (e, refused) = refusal-read_only c i s h in
    unfold enqueue in rw (refused, enqueue) (refl, refl, refl)
read_only-Untouched c (Op.acking n now io) s h d =
    rw (mutate-read_only n _ io s h) (refl, refl, refl)
read_only-Untouched c (Op.retrying n attempts at io) s h d =
    rw (mutate-read_only n _ io s h) (refl, refl, refl)
read_only-Untouched c (Op.quarantining n reason io) s h d =
    rw (mutate-read_only n _ io s h) (refl, refl, refl)
read_only-Untouched c (Op.discarding n io) s h d = cc
read_only-Untouched c (Op.retaining now io) s h d =
    unfold run_retention in simp h (refl, refl, refl)
read_only-Untouched c Op.closing s h d = (refl, refl, refl)

not-Mem-journal : (js : List Job) (j : Job) → supported j ≡ false → ¬ Memᴰ j (journal js)
unfolding journal
not-Mem-journal js j newer m = let (_, fit) = filter-mem supported js m in cc (fit, newer)

settle-drops_newer :
    (s t : Outbox) (io : Io) (j : Job)
    → supported j ≡ false
    → (settle s tt (persist io t)).1 ≡ ok tt
    → ¬ Memᴰ j (settle s tt (persist io t)).0.disk
unfolding settle
settle-drops_newer s t io j newer h = elim (persist-cases io t) [
  | inl w ↦ rw w (not-Mem-journal t.jobs j newer)
  | inr (inl (e, w)) ↦ absurd (cc (rw w at h))
  | inr (inr (e, b, w)) ↦ absurd (cc (rw w at h))
]

-- A `discardQuarantined` that returns leaves no job of a newer format in the file: not even in
-- read-only mode, where such jobs were in it and must not be rewritten.
pub discard-drops_newer :
    (n : ℕ) (io : Io) (s : Outbox) (j : Job)
    → supported j ≡ false
    → (discard_quarantined n io s).1 ≡ ok tt
    → ¬ Memᴰ j (discard_quarantined n io s).0.disk
unfolding discard_quarantined
discard-drops_newer n io s j newer h =
    elim (Option-cases (find (λ j. j.seq == n && is_quarantined j.status) s.jobs)) [
      | inl missing ↦ absurd (cc (rw (missing, discard_quarantined) at h))
      | inr (q, found) ↦
          rw (found, discard_quarantined)
            (settle-drops_newer s _ io j newer (rw (found, discard_quarantined) at h))
    ]
