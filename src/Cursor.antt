-- ===== src/Cursor.antt =====
-- src/outbox/cursor.ts: the durable pipeline cursor and the bounded reconciliation with the feed.
pub mod Local
pub mod Reconcile
pub mod Continuity
mod Tests
use pi_kiwifs_memory.Prelude.{
  ℕ, zero, suc, ◌+◌, String, Bool, true, false, ◌&&◌, ◌||◌, not, Option, none, some, List, [], ◌∷◌,
  ltb, leb, is_some, if◌then◌else◌, length,
}
use pi_kiwifs_memory.Outbox.{Io, completes, fails_before_rename, fails_after_rename}

pub record CursorState : Type 0 where
  pub schema_version : ℕ
  pub local_seq : ℕ
  pub backend_last_seq : Option ℕ
  pub last_commit_hash : Option String
  pub reconcile_needed : Bool

-- A `CursorFile` and the file that it stands for.
pub record CursorFile : Type 0 where
  pub state : CursorState
  pub newer_schema : Option ℕ
  pub file : Option CursorState

pub data CursorErr : Type 0 where
  cursor_corrupt cursor_read_only cursor_io fetch_failed : CursorErr

pub data Outcome (A : Type 0) : Type 0 where
  returns : A → Outcome A
  throws : CursorErr → Outcome A

-- What the constructor finds: no file, text that is no JSON, JSON that is no cursor state.
pub data Found : Type 0 where
  absent not_json not_a_state : Found
  parsed : CursorState → Found

pub save : Io → CursorFile → CursorFile × Outcome (Unit {0})
save completes f = (record f { file = some f.state }, returns tt)
save fails_before_rename f = (f, throws cursor_io)
save fails_after_rename f = (record f { file = some f.state }, throws cursor_io)

-- The constructor, with its default state as an argument.
pub open_cursor : CursorState → Found → Io → CursorFile × Outcome (Unit {0})
open_cursor start absent io = save io (record { state = start; newer_schema = none; file = none })
open_cursor start not_json io =
    (record { state = start; newer_schema = none; file = none }, throws cursor_corrupt)
open_cursor start not_a_state io =
    (record { state = start; newer_schema = none; file = none }, throws cursor_corrupt)
open_cursor start (parsed s) io =
    if ltb start.schema_version s.schema_version
    then (
      record {
        state = record s { reconcile_needed = true };
        newer_schema = some s.schema_version;
        file = some s;
      },
      returns tt,
    )
    else (record { state = s; newer_schema = none; file = some s }, returns tt)

pub advance_local_seq : ℕ → Io → CursorFile → CursorFile × Outcome (Unit {0})
advance_local_seq seq io f =
    if is_some f.newer_schema
    then (f, throws cursor_read_only)
    else if leb seq f.state.local_seq
    then (f, returns tt)
    else save io (record f { state = record f.state { local_seq = seq } })

pub set_backend : ℕ → String → Io → CursorFile → CursorFile × Outcome (Unit {0})
set_backend seq hash io f =
    if is_some f.newer_schema
    then (f, throws cursor_read_only)
    else save io (record f {
      state = record f.state {
        backend_last_seq = some seq;
        last_commit_hash = some hash;
        reconcile_needed = false;
      };
    })

pub flag_reconcile_needed : Io → CursorFile → CursorFile × Outcome (Unit {0})
flag_reconcile_needed io f =
    save io (record f { state = record f.state { reconcile_needed = true } })

pub record ReconcilePage : Type 0 where
  pub changes : List ℕ  -- the `seq` of each change
  pub commit_hash : String
  pub has_more : Bool

pub record ReconcileLimits : Type 0 where
  pub max_pages : ℕ
  pub max_changes : ℕ

pub record ReconcileResult : Type 0 where
  pub pages : ℕ
  pub changes : ℕ
  pub drift : Bool
  pub paused : Bool

abbrev pub default_reconcile_limits : ReconcileLimits
default_reconcile_limits = record { max_pages = 20; max_changes = 10000 }

-- `fetchPage`: the page that the n-th call answers with, or `none` when it throws.
abbrev pub Fetch : Type 0
Fetch = ℕ → Option String → Option ReconcilePage

-- The two drift tests, against the advisory `lastSeq`.
pub drifts : List ℕ → ℕ → Bool
drifts [] last = false
drifts (first ∷ rest) last = leb first last || (ltb 0 last && ltb (last + 1) first)

pub last_of : ℕ → List ℕ → ℕ
last_of last [] = last
last_of last (x ∷ xs) = last_of x xs

-- `cursors.value.backendLastSeq ?? 0`
pub advisory : Option ℕ → ℕ
advisory none = 0
advisory (some n) = n

-- What the loop does after it has read a page.
pub data Verdict : Type 0 where
  drifted more caught_up : Verdict

pub verdict : ReconcilePage → ℕ → Verdict
verdict page last =
    if drifts page.changes last then drifted else if page.has_more then more else caught_up

-- `counted` is the result so far, with the page just read.
pub finish : {A : Type 0} → A → CursorFile × Outcome (Unit {0}) → CursorFile × Outcome A
finish a (f, returns _) = (f, returns a)
finish a (f, throws e) = (f, throws e)

module _ (limits : ReconcileLimits) (fetch : Fetch) (io : Io) where
  pub pause : ReconcileResult → CursorFile → CursorFile × Outcome ReconcileResult
  pause r f = finish (record r { paused = true }) (flag_reconcile_needed io f)

  -- The `while` loop; the fuel is `maxPages - result.pages`, so it ends where the loop does.
  pub reconcile_loop :
      ℕ → ReconcileResult → Option String → ℕ → CursorFile → CursorFile × Outcome ReconcileResult
  reconcile_loop zero r since last f = pause r f
  reconcile_loop (suc fuel) r since last f = elim (ltb r.changes limits.max_changes) [
    | false ↦ pause r f
    | true ↦ elim (fetch r.pages since) [
      | none ↦ (f, throws fetch_failed)
      | some page ↦
          let r' = record r { pages = r.pages + 1; changes = r.changes + length page.changes } in
          let last' = last_of last page.changes in
          elim (verdict page last) [
            | drifted ↦ finish (record r' { drift = true }) (flag_reconcile_needed io f)
            | more ↦ reconcile_loop fuel r' (some page.commit_hash) last' f
            | caught_up ↦ finish r' (set_backend last' page.commit_hash io f)
          ]
    ]
  ]

  pub reconcile : CursorFile → CursorFile × Outcome ReconcileResult
  reconcile f =
      reconcile_loop limits.max_pages
        (record { pages = 0; changes = 0; drift = false; paused = false }) f.state.last_commit_hash
        (advisory f.state.backend_last_seq) f
