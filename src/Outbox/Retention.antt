-- ===== src/Outbox/Retention.antt =====
-- src/outbox/store.ts, `runRetention`: exactly the old acknowledged jobs go.
use pi_kiwifs_memory.Prelude.{
  ℕ, ◌≡◌, refl, ap, sym, ◌∙◌, Bool, true, Option, none, some, ◌⊎◌, inl, inr, arith, List, [], ◌∷◌,
  ◌≤◌, ◌+◌, ◌-◌, Bool-cases, filter, Memᴰ, filter-mem, mem-filter, length, length-filter, ltb,
}
use pi_kiwifs_memory.Outbox.{
  Outbox, Config, Io, Job, Result, ok, acked, is_retained, run_retention, settle, persist,
}
use pi_kiwifs_memory.Outbox.Writes.{written, persist-cases}

abbrev acked_time : Option ℕ → ℕ
acked_time none = 0
acked_time (some t) = t

-- Acknowledged, and `retentionMs` or more ago.
pub IsExpired : Config → ℕ → Job → Type 0
IsExpired c now j = (j.status ≡ acked) × (acked_time j.acked_at + c.retention_ms ≤ now)

is_retained-or : (c : Config) (now : ℕ) (j : Job) → (is_retained c now j ≡ true) ⊎ IsExpired c now j
unfolding is_retained IsExpired
is_retained-or c now j = ground arith

is_retained-not :
    (c : Config) (now : ℕ) (j : Job) → is_retained c now j ≡ true → ¬ IsExpired c now j
unfolding is_retained IsExpired
is_retained-not c now j h e = ground arith

filter_all : (p : Job → Bool) (js : List Job) → length js ≤ length (filter p js) → filter p js ≡ js
filter_all p [] h = refl
filter_all p (j ∷ js) h = elim (Bool-cases (p j)) [
  | inl in_it ↦ rw in_it (ap (λ r. j ∷ r) (filter_all p js (omega (arith, rw in_it at h))))
  | inr out ↦ absurd (omega (arith, rw out at h, length-filter p js))
]

-- The retained jobs are those of `s` that are not expired.
pub record IsSwept (c : Config) (now : ℕ) (s s' : Outbox) : Type 0 where
  pub keeps : (j : Job) → Memᴰ j s.jobs → Memᴰ j s'.jobs ⊎ IsExpired c now j
  pub drops : (j : Job) → Memᴰ j s'.jobs → Memᴰ j s.jobs × (¬ IsExpired c now j)
  pub order : s'.jobs ≡ filter (is_retained c now) s.jobs

swept :
    (c : Config) (now : ℕ) (s s' : Outbox)
    → s'.jobs ≡ filter (is_retained c now) s.jobs
    → IsSwept c now s s'
swept c now s s' e = record {
  keeps = λ j m. elim (is_retained-or c now j) [
    | inl stays ↦ inl (rw e (mem-filter (is_retained c now) s.jobs m stays))
    | inr old ↦ inr old
  ];
  drops = λ j m.
      let (m', stays) = filter-mem (is_retained c now) s.jobs (rw e at m) in
      (m', is_retained-not c now j stays);
  order = e;
}

settle-swept :
    (c : Config) (now n : ℕ) (io : Io) (s t : Outbox) {s' : Outbox} {k : ℕ}
    → t.jobs ≡ filter (is_retained c now) s.jobs
    → settle s n (persist io t) ≡ (s', ok k)
    → s'.jobs ≡ filter (is_retained c now) s.jobs
unfolding settle
settle-swept c now n io s t {s'} {k} e h = elim (persist-cases io t) [
  | inl w ↦
      let r : ◌≡◌ {A = Outbox × Result ℕ} (written t, ok n) (s', ok k) = rw w at h in
      sym (ap (λ (p : Outbox × Result ℕ). p.0.jobs) r) ∙ e
  | inr (inl (x, w)) ↦
      let r : ◌≡◌ {A = Outbox × Result ℕ} _ (s', ok k) = rw w at h in
      absurd (cc (ap (λ (p : Outbox × Result ℕ). p.1) r))
  | inr (inr (x, b, w)) ↦
      let r : ◌≡◌ {A = Outbox × Result ℕ} _ (s', ok k) = rw w at h in
      absurd (cc (ap (λ (p : Outbox × Result ℕ). p.1) r))
]

-- When retention returns on a writable store, the jobs that are left are exactly those that are
-- not acknowledged, or were acknowledged less than `retentionMs` ago, in their order.
pub run_retention-IsSwept :
    (c : Config) (now : ℕ) (io : Io) (s : Outbox) {s' : Outbox} {n : ℕ}
    → s.read_only ≡ none
    → run_retention c now io s ≡ (s', ok n)
    → IsSwept c now s s'
unfolding run_retention
run_retention-IsSwept c now io s {s'} {n} writable h =
    swept c now s s'
      (elim (Bool-cases (ltb 0 (length s.jobs - length (filter (is_retained c now) s.jobs)))) [
        | inl some_old ↦ settle-swept c now _ io s _ refl (simp (writable, some_old) at h)
        | inr none_old ↦
            let r : ◌≡◌ {A = Outbox × Result ℕ} (s, ok 0) (s', ok n) =
              simp (writable, none_old) at h in
            sym (ap (λ (p : Outbox × Result ℕ). p.0.jobs) r)
            ∙ sym (filter_all _ s.jobs (ground arith))
      ])
