-- ===== src/Cursor/Reconcile.antt =====
-- src/outbox/cursor.ts, `reconcile`: how a pass may end, and what it leaves of the cursor.
use pi_kiwifs_memory.Prelude.{
  ℕ, zero, suc, ◌+◌, ◌≤◌, ◌≡◌, refl, sym, true, false, ◌⊎◌, inl, inr, Option, none, some,
  Bool-cases, Option-cases, ltb, arith, length, String,
}
use pi_kiwifs_memory.Outbox.{Io, completes, fails_before_rename, fails_after_rename}
use pi_kiwifs_memory.Cursor.{
  CursorFile, Outcome, returns, throws, save, set_backend, flag_reconcile_needed, ReconcilePage,
  ReconcileLimits, ReconcileResult, Fetch, drifted, more, caught_up, Verdict, verdict, finish,
  pause, reconcile_loop, reconcile, last_of,
}

-- How a pass that began with the cursor `f` may return.
pub record IsConcluded (limits : ReconcileLimits) (widest : ℕ) (f f' : CursorFile)
    (r : ReconcileResult) : Type 0 where
  pub pages_bounded : r.pages ≤ limits.max_pages
  pub changes_bounded : r.changes ≤ limits.max_changes + widest
  pub one_reason : (r.drift ≡ false) ⊎ (r.paused ≡ false)
  pub flagged :
      (r.drift ≡ true) ⊎ (r.paused ≡ true) → f'.state ≡ record f.state { reconcile_needed = true }
  pub adopted :
      r.drift ≡ false
      → r.paused ≡ false
      → (f'.state.reconcile_needed ≡ false) × (f.newer_schema ≡ none)

-- In every case, an error included, the authoritative cursor stays as it was.
pub record IsUntouched (f f' : CursorFile) : Type 0 where
  pub local_kept : f'.state.local_seq ≡ f.state.local_seq
  pub newer_kept : f'.newer_schema ≡ f.newer_schema

abbrev pub Concluded :
    ReconcileLimits → ℕ → CursorFile → CursorFile × Outcome ReconcileResult → Type 0
Concluded limits widest f (f', returns r) = IsUntouched f f' × IsConcluded limits widest f f' r
Concluded limits widest f (f', throws e) = IsUntouched f f'

same :
    (f f' : CursorFile)
    → f'.state.local_seq ≡ f.state.local_seq
    → f'.newer_schema ≡ f.newer_schema
    → IsUntouched f f'
same f f' p q = record { local_kept = p; newer_kept = q }

-- The results that the loop has made so far.
record IsSoFar (limits : ReconcileLimits) (widest : ℕ) (r : ReconcileResult) : Type 0 where
  pages : r.pages ≤ limits.max_pages
  changes : r.changes ≤ limits.max_changes + widest
  quiet : (r.drift ≡ false) × (r.paused ≡ false)

not_quiet :
    (r : ReconcileResult)
    → (r.drift ≡ false) × (r.paused ≡ false)
    → ¬ ((r.drift ≡ true) ⊎ (r.paused ≡ true))
not_quiet r q (inl d) = cc (q.0, d)
not_quiet r q (inr p) = cc (q.1, p)

module _ (limits : ReconcileLimits) (widest : ℕ) (f : CursorFile) (r : ReconcileResult)
    (soFar : IsSoFar limits widest r) where
  pause-Concluded :
      (fetch : Fetch) (io : Io) → Concluded limits widest f (pause limits fetch io r f)
  unfolding pause flag_reconcile_needed save finish
  pause-Concluded fetch completes = (
    same f _ refl refl,
    record {
      pages_bounded = soFar.pages;
      changes_bounded = soFar.changes;
      one_reason = inl soFar.quiet.0;
      flagged = λ h. refl;
      adopted = λ d p. absurd (cc p);
    },
  )
  pause-Concluded fetch fails_before_rename = same f _ refl refl
  pause-Concluded fetch fails_after_rename = same f _ refl refl

  drift-Concluded :
      (io : Io)
      → Concluded limits widest f (finish (record r { drift = true }) (flag_reconcile_needed io f))
  unfolding flag_reconcile_needed save finish
  drift-Concluded completes = (
    same f _ refl refl,
    record {
      pages_bounded = soFar.pages;
      changes_bounded = soFar.changes;
      one_reason = inr soFar.quiet.1;
      flagged = λ h. refl;
      adopted = λ d p. absurd (cc d);
    },
  )
  drift-Concluded fails_before_rename = same f _ refl refl
  drift-Concluded fails_after_rename = same f _ refl refl

  adopt-Concluded :
      (seq : ℕ) (hash : String) (io : Io)
      → Concluded limits widest f (finish r (set_backend seq hash io f))
  unfolding set_backend finish save
  adopt-Concluded seq hash completes = elim (Option-cases f.newer_schema) [
    | inl current ↦ simp current (
      same f _ refl (sym current),
      record {
        pages_bounded = soFar.pages;
        changes_bounded = soFar.changes;
        one_reason = inl soFar.quiet.0;
        flagged = λ h. absurd (not_quiet r soFar.quiet h);
        adopted = λ d p. (refl, current);
      },
    )
    | inr (v, newer) ↦ simp newer (same f f refl refl)
  ]
  adopt-Concluded seq hash fails_before_rename = elim (Option-cases f.newer_schema) [
    | inl current ↦ simp current (same f _ refl (sym current))
    | inr (v, newer) ↦ simp newer (same f f refl refl)
  ]
  adopt-Concluded seq hash fails_after_rename = elim (Option-cases f.newer_schema) [
    | inl current ↦ simp current (same f _ refl (sym current))
    | inr (v, newer) ↦ simp newer (same f f refl refl)
  ]

-- No page holds more than `widest` changes.
abbrev pub NoWider : ℕ → Fetch → Type 0
NoWider widest fetch =
    (n : ℕ) (since : Option String) (page : ReconcilePage)
    → fetch n since ≡ some page
    → length page.changes ≤ widest

module _ (limits : ReconcileLimits) (fetch : Fetch) (io : Io) (widest : ℕ)
    (narrow : NoWider widest fetch) (f : CursorFile) where
  loop-Concluded :
      (fuel : ℕ) (r : ReconcileResult) (since : Option String) (last : ℕ)
      → IsSoFar limits widest r
      → r.pages + fuel ≡ limits.max_pages
      → Concluded limits widest f (reconcile_loop limits fetch io fuel r since last f)
  unfolding reconcile_loop
  loop-Concluded zero r since last soFar e = pause-Concluded limits widest f r soFar fetch io
  loop-Concluded (suc fuel) r since last soFar e =
      elim (Bool-cases (ltb r.changes limits.max_changes)) [
        | inr bound ↦ rw (bound, reconcile_loop) (pause-Concluded limits widest f r soFar fetch io)
        | inl room ↦ elim (Option-cases (fetch r.pages since)) [
          | inl failed ↦ rw (room, failed, reconcile_loop) (same f f refl refl)
          | inr (page, got) ↦
              rw (room, got, reconcile_loop)
                (by_verdict (verdict page last) page (narrow r.pages since page got) room
                  (loop-Concluded fuel))
        ]
      ]
    where
      counted : ReconcilePage → ReconcileResult
      counted page = record r { pages = r.pages + 1; changes = r.changes + length page.changes }

      by_verdict :
          (v : Verdict) (page : ReconcilePage)
          → length page.changes ≤ widest
          → ltb r.changes limits.max_changes ≡ true
          → ((r' : ReconcileResult) (since' : Option String) (last' : ℕ)
              → IsSoFar limits widest r'
              → r'.pages + fuel ≡ limits.max_pages
              → Concluded limits widest f (reconcile_loop limits fetch io fuel r' since' last' f))
          → Concluded limits widest f (elim v [
            | drifted ↦ finish (record (counted page) { drift = true }) (flag_reconcile_needed io f)
            | more ↦
                reconcile_loop limits fetch io fuel
                  (counted page)
                  (some page.commit_hash)
                  (last_of last page.changes)
                  f
            | caught_up ↦
                finish
                  (counted page)
                  (set_backend (last_of last page.changes) page.commit_hash io f)
          ])
      by_verdict v page wide room again = go v
        where
          soFar' : IsSoFar limits widest (counted page)
          soFar' = record {
            pages = omega (arith, e);
            changes = ground (arith, soFar.changes);
            quiet = soFar.quiet;
          }

          go :
              (v : Verdict)
              → Concluded limits widest f (elim v [
                | drifted ↦
                    finish (record (counted page) { drift = true }) (flag_reconcile_needed io f)
                | more ↦
                    reconcile_loop limits fetch io fuel
                      (counted page)
                      (some page.commit_hash)
                      (last_of last page.changes)
                      f
                | caught_up ↦
                    finish
                      (counted page)
                      (set_backend (last_of last page.changes) page.commit_hash io f)
              ])
          go drifted = drift-Concluded limits widest f (counted page) soFar' io
          go more = again (counted page) (some page.commit_hash) _ soFar' (omega (arith, e))
          go caught_up = adopt-Concluded limits widest f (counted page) soFar' _ page.commit_hash io

-- A pass over any feed whose pages hold at most `widest` changes, the save failing or not: the
-- authoritative `localSeq` is never changed. A pass that returns has read at most `maxPages` pages
-- and at most `maxChanges + widest` changes, and has not both drifted and paused; if it did either,
-- the only change of the cursor is the flag; if neither, the flag is cleared, on a cursor of a
-- supported format.
pub reconcile-Concluded :
    (limits : ReconcileLimits) (fetch : Fetch) (io : Io) (widest : ℕ)
    → NoWider widest fetch
    → (f : CursorFile) → Concluded limits widest f (reconcile limits fetch io f)
unfolding reconcile
reconcile-Concluded limits fetch io widest narrow f =
    loop-Concluded limits fetch io widest narrow f limits.max_pages _ _ _
      (record { pages = omega arith; changes = omega arith; quiet = (refl, refl) }) (omega arith)
