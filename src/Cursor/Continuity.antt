-- ===== src/Cursor/Continuity.antt =====
-- src/outbox/cursor.ts, `reconcile`: when the adopted cursor accounts for every change.
use pi_kiwifs_memory.Prelude.{
  ℕ, zero, suc, ◌+◌, ◌<◌, ◌≡◌, refl, ap, true, false, inl, inr, Option, none, some, List, [], ◌∷◌,
  Bool-cases, Option-cases, ltb, arith, length, String,
}
use pi_kiwifs_memory.Outbox.{Io, completes, fails_before_rename, fails_after_rename}
use pi_kiwifs_memory.Cursor.{
  CursorFile, Outcome, returns, throws, save, set_backend, flag_reconcile_needed, ReconcilePage,
  ReconcileLimits, ReconcileResult, Fetch, drifts, drifted, more, caught_up, Verdict, verdict,
  finish, pause, reconcile_loop, reconcile, last_of, advisory,
}

-- Each change follows the one before without a gap.
abbrev pub Consecutive : List ℕ → Type 0
Consecutive [] = Unit
Consecutive (x ∷ []) = Unit
Consecutive (x ∷ y ∷ ys) = (y ≡ x + 1) × Consecutive (y ∷ ys)

last_of-Consecutive : (x : ℕ) (xs : List ℕ) → Consecutive (x ∷ xs) → last_of x xs ≡ x + length xs
unfolding last_of
last_of-Consecutive x [] h = omega arith
last_of-Consecutive x (y ∷ ys) h = omega (arith, last_of-Consecutive y ys h.1, h.0)

-- A page that passes the drift tests begins right behind the cursor.
last_of-page :
    (last : ℕ) (xs : List ℕ)
    → Consecutive xs
    → 0 < last
    → drifts xs last ≡ false
    → last_of last xs ≡ last + length xs
unfolding last_of drifts
last_of-page last [] h p d = omega arith
last_of-page last (x ∷ xs) h p d =
    let start : x ≡ last + 1 = ground arith in omega (arith, last_of-Consecutive x xs h, start)

-- The advisory cursor after a pass: the one before, and the changes that were counted.
abbrev pub Accounts : ℕ → CursorFile × Outcome ReconcileResult → Type 0
Accounts base (f', returns r) =
    r.drift ≡ false → r.paused ≡ false → f'.state.backend_last_seq ≡ some (base + r.changes)
Accounts base (f', throws e) = Unit

abbrev pub AllConsecutive : Fetch → Type 0
AllConsecutive fetch =
    (n : ℕ) (since : Option String) (page : ReconcilePage)
    → fetch n since ≡ some page
    → Consecutive page.changes

verdict-not_drifted :
    (page : ReconcilePage) (last : ℕ)
    → (verdict page last ≡ drifted → ⊥)
    → drifts page.changes last ≡ false
unfolding verdict
verdict-not_drifted page last h = elim (Bool-cases (drifts page.changes last)) [
  | inl d ↦ absurd (h (rw d))
  | inr ok_page ↦ ok_page
]

module _ (limits : ReconcileLimits) (fetch : Fetch) (io : Io) (base : ℕ) where
  pause-Accounts :
      (r : ReconcileResult) (f : CursorFile) → Accounts base (pause limits fetch io r f)
  unfolding pause finish
  pause-Accounts r f = by_save (flag_reconcile_needed io f)
    where
      by_save :
          (w : CursorFile × Outcome (Unit {0}))
          → Accounts base (finish (record r { paused = true }) w)
      by_save (f', returns u) = λ d p. absurd (cc p)
      by_save (f', throws e) = tt

  drift-Accounts :
      (r : ReconcileResult) (f : CursorFile)
      → Accounts base (finish (record r { drift = true }) (flag_reconcile_needed io f))
  unfolding finish
  drift-Accounts r f = by_save (flag_reconcile_needed io f)
    where
      by_save :
          (w : CursorFile × Outcome (Unit {0}))
          → Accounts base (finish (record r { drift = true }) w)
      by_save (f', returns u) = λ d p. absurd (cc d)
      by_save (f', throws e) = tt

  adopt-Accounts :
      (io : Io) (r : ReconcileResult) (f : CursorFile) (seq : ℕ) (hash : String)
      → seq ≡ base + r.changes
      → Accounts base (finish r (set_backend seq hash io f))
  unfolding finish set_backend save
  adopt-Accounts completes r f seq hash e = elim (Option-cases f.newer_schema) [
    | inl current ↦ simp current (λ d p. ap some e)
    | inr (v, newer) ↦ simp newer tt
  ]
  adopt-Accounts fails_before_rename r f seq hash e = elim (Option-cases f.newer_schema) [
    | inl current ↦ simp current tt
    | inr (v, newer) ↦ simp newer tt
  ]
  adopt-Accounts fails_after_rename r f seq hash e = elim (Option-cases f.newer_schema) [
    | inl current ↦ simp current tt
    | inr (v, newer) ↦ simp newer tt
  ]

  module _ (whole : AllConsecutive fetch) (f : CursorFile) where
    loop-Accounts :
        (fuel : ℕ) (r : ReconcileResult) (since : Option String) (last : ℕ)
        → last ≡ base + r.changes
        → 0 < last
        → Accounts base (reconcile_loop limits fetch io fuel r since last f)
    unfolding reconcile_loop
    loop-Accounts zero r since last e p = pause-Accounts r f
    loop-Accounts (suc fuel) r since last e p =
        elim (Bool-cases (ltb r.changes limits.max_changes)) [
          | inr bound ↦ rw (bound, reconcile_loop) (pause-Accounts r f)
          | inl room ↦ elim (Option-cases (fetch r.pages since)) [
            | inl failed ↦ rw (room, failed, reconcile_loop) tt
            | inr (page, got) ↦
                rw (room, got, reconcile_loop)
                  (by_verdict page (whole r.pages since page got) (verdict page last) refl
                    (loop-Accounts fuel))
          ]
        ]
      where
        counted : ReconcilePage → ReconcileResult
        counted page = record r { pages = r.pages + 1; changes = r.changes + length page.changes }

        onward :
            (page : ReconcilePage)
            → Consecutive page.changes
            → (verdict page last ≡ drifted → ⊥)
            → (last_of last page.changes ≡ base + (r.changes + length page.changes))
        onward page h not_drifted = omega (
          arith,
          e,
          last_of-page last page.changes h p (verdict-not_drifted page last not_drifted),
        )

        by_verdict :
            (page : ReconcilePage)
            → Consecutive page.changes
            → (v : Verdict) → verdict page last ≡ v
            → ((r' : ReconcileResult) (since' : Option String) (last' : ℕ)
                → last' ≡ base + r'.changes
                → 0 < last'
                → Accounts base (reconcile_loop limits fetch io fuel r' since' last' f))
            → Accounts base (elim v [
              | drifted ↦
                  finish (record (counted page) { drift = true }) (flag_reconcile_needed io f)
              | more ↦
                  reconcile_loop limits fetch io fuel
                    (counted page)
                    (some page.commit_hash)
                    (last_of last page.changes)
                    f
              | caught_up ↦
                  finish
                    (counted page)
                    (set_backend (last_of last page.changes) page.commit_hash io f)
            ])
        by_verdict page h drifted q again = drift-Accounts (counted page) f
        by_verdict page h more q again =
            let next = onward page h (λ d. cc (d, q)) in
            again (counted page) (some page.commit_hash) _ next (omega (arith, next, e, p))
        by_verdict page h caught_up q again =
            adopt-Accounts io (counted page) f _ page.commit_hash (onward page h (λ d. cc (d, q)))

-- A pass that has a cursor to begin from, over a feed whose pages have no gap inside, and that
-- returns neither drifted nor paused, moves the advisory cursor on by exactly the number of changes
-- that it counted: between the pages nothing was skipped and nothing read twice.
pub reconcile-Accounts :
    (limits : ReconcileLimits) (fetch : Fetch) (io : Io)
    → AllConsecutive fetch
    → (f : CursorFile) (base : ℕ) → f.state.backend_last_seq ≡ some base
    → 0 < base
    → Accounts base (reconcile limits fetch io f)
unfolding reconcile
reconcile-Accounts limits fetch io whole f base e p =
    let start : advisory f.state.backend_last_seq ≡ base = rw e (unfold advisory in refl) in
    loop-Accounts limits fetch io base whole f limits.max_pages _ _ _ (omega (arith, start))
      (omega (arith, start, p))

-- A gap inside a page is not seen: behind a first change that follows the cursor, a pass adopts any
-- second one, with no drift and no flag.
pub reconcile-page_gap :
    (n m : ℕ) (fetch : Fetch) (f : CursorFile) (base beyond : ℕ) (hash : String)
    → f.newer_schema ≡ none
    → f.state.backend_last_seq ≡ some base
    → fetch 0 f.state.last_commit_hash
      ≡ some (record { changes = suc base ∷ beyond ∷ []; commit_hash = hash; has_more = false })
    → let w = reconcile (record { max_pages = suc n; max_changes = suc m }) fetch completes f in
      (w.0.state.backend_last_seq ≡ some beyond)
      × (w.0.state.reconcile_needed ≡ false)
      × (w.1 ≡ returns (record { pages = 1; changes = 2; drift = false; paused = false }))
unfolding reconcile reconcile_loop advisory verdict drifts last_of set_backend save finish
reconcile-page_gap n m fetch f base beyond hash current e got = ground arith
