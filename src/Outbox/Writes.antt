-- ===== src/Outbox/Writes.antt =====
-- The three ways a journal write of src/outbox/store.ts ends.
use pi_kiwifs_memory.Prelude.{◌≡◌, Bool, false, none, some, ◌⊎◌, inl, inr, arith, Bool-cases}
use pi_kiwifs_memory.Outbox.{
  Io, completes, fails_before_rename, fails_after_rename, Err, io_error, persist_fault, Outbox,
  journal, persist,
}

abbrev pub written : Outbox → Outbox
written s = record s { disk = journal s.jobs }

abbrev pub Written : Io → Outbox → Type 0
Written io s = persist io s ≡ (written s, none)

abbrev pub WrittenThrew : Io → Outbox → Type 0
WrittenThrew io s = (e : Err) × (persist io s ≡ (written s, some e))

abbrev pub Unwritten : Io → Outbox → Type 0
Unwritten io s = (e : Err) × (b : Bool) × (persist io s ≡ (record s { persist_fault = b }, some e))

pub persist-cases : (io : Io) (s : Outbox) → Written io s ⊎ (WrittenThrew io s ⊎ Unwritten io s)
unfolding persist
persist-cases io s = elim (Bool-cases s.persist_fault) [
  | inl armed ↦ inr (inr (persist_fault, false, rw armed))
  | inr fine ↦ by_io io fine
]
  where
    by_io :
        (io : Io) → s.persist_fault ≡ false → Written io s ⊎ (WrittenThrew io s ⊎ Unwritten io s)
    by_io completes fine = inl (ground arith)
    by_io fails_before_rename fine = inr (inr (io_error, s.persist_fault, ground arith))
    by_io fails_after_rename fine = inr (inl (io_error, ground arith))
