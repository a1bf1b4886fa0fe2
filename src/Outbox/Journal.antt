-- ===== src/Outbox/Journal.antt =====
-- src/outbox/store.ts, `open` and `load`: reading the journal back.
pub mod Recovery
use pi_kiwifs_memory.Prelude.{
  suc, Bool, false, Option, none, some, List, [], ◌∷◌, ◌++◌, max, map, if◌then◌else◌,
}
use pi_kiwifs_memory.Outbox.{
  Job, supported, Result, ok, threw, corrupt_line, malformed_line, over_permissive, Outbox,
}

-- A line of the file, after `JSON.parse` and the checks of `seq` and `opId`. An entry has a
-- `schemaVersion`: every job that the store writes has one, and a line without is not modelled.
pub data Line : Type 0 where
  blank not_json malformed : Line
  entry : Job → Line

abbrev pub empty : Outbox
empty = record {
  jobs = [];
  next_seq = 1;
  read_only = none;
  closed = false;
  persist_fault = false;
  disk = [];
}

-- One round of the loop of `load`, for a line that holds a job.
pub add_job : Job → Outbox → Outbox
add_job j s = record s {
  jobs = s.jobs ++ j ∷ [];
  next_seq = max s.next_seq (suc j.seq);
  read_only = if supported j then s.read_only else some j.schema_version;
}

pub load : List Line → Outbox → Result Outbox
load [] s = ok s
load (blank ∷ ls) s = load ls s
load (not_json ∷ ls) s = threw corrupt_line
load (malformed ∷ ls) s = threw malformed_line
load (entry j ∷ ls) s = load ls (add_job j s)

-- The file as `open` finds it: none, or whether its mode is loose, and its lines.
pub open_store : Option (Bool × List Line) → Result Outbox
open_store none = ok empty
open_store (some (loose, ls)) =
    if loose
    then threw over_permissive
    else elim (load ls empty) [ ok s ↦ ok (record s { disk = s.jobs }) | threw e ↦ threw e ]

-- The store that a later process opens on the journal that `s` has left.
pub reopen : Outbox → Result Outbox
reopen s = open_store (some (false, map entry s.disk))
