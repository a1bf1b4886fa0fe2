-- ===== src/Board/Entries/LastSeq.antt =====
-- src/board/delivery.ts: which calls of the state file move its cursor.
use pi_kiwifs_memory.Prelude.{ℕ, ◌≡◌, refl, String, some}
use pi_kiwifs_memory.Board.Entries.{
  Skip, DeliveryEntry, DeliveryState, save, set_last_seq, record_delivered, record_skip,
}

pub last_seq-set_last_seq :
    (seq : String) (st : DeliveryState) → (set_last_seq seq st).last_seq ≡ some seq
unfolding set_last_seq save
last_seq-set_last_seq seq st = refl

pub last_seq-record_delivered :
    (e : DeliveryEntry) (now : ℕ) (st : DeliveryState)
    → (record_delivered e now st).last_seq ≡ st.last_seq
unfolding record_delivered save
last_seq-record_delivered e now st = refl

pub last_seq-record_skip :
    (e : DeliveryEntry) (skip : Skip) (now : ℕ) (st : DeliveryState)
    → (record_skip e skip now st).last_seq ≡ st.last_seq
unfolding record_skip save
last_seq-record_skip e skip now st = refl
