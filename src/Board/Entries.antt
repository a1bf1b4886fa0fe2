-- ===== src/Board/Entries.antt =====
-- src/board/delivery.ts: `DeliveryStateFile`, the record of what a consumer was delivered.
pub mod Keyed
pub mod Open
pub mod LastSeq
mod Tests
use pi_kiwifs_memory.Prelude.{
  ℕ, zero, suc, ◌+◌, ◌-◌, ◌*◌, max, String, Bool, true, false, ◌&&◌, ◌||◌, not, Option, none, some,
  List, [], ◌∷◌, any, filter, length, is_some, ltb, leb, str_eq, if◌then◌else◌,
}

abbrev pub max_tracked_entries : ℕ
max_tracked_entries = 2000

abbrev pub ack_retention_ms : ℕ
ack_retention_ms = 14 * 24 * 60 * 60 * 1000

pub data Skip : Type 0 where
  expired unauthorized missing malformed : Skip

pub record DeliveryEntry : Type 0 where
  pub msg_id : String
  pub path : String
  pub channel : String
  pub delivered_at : Option ℕ
  pub acked_at : Option ℕ
  pub skip : Option Skip
  pub skipped_at : Option ℕ

-- `entries` lists the values of the object, whose keys are their `msgId`s.
pub record DeliveryState : Type 0 where
  pub last_seq : Option String
  pub entries : List DeliveryEntry

unfoldable pub get_entry : String → List DeliveryEntry → Option DeliveryEntry
get_entry id [] = none
get_entry id (e ∷ es) = if str_eq e.msg_id id then some e else get_entry id es

-- `entries[entry.msgId] = entry`.
pub put : DeliveryEntry → List DeliveryEntry → List DeliveryEntry
put e [] = e ∷ []
put e (x ∷ xs) = let rest = put e xs in if str_eq x.msg_id e.msg_id then e ∷ xs else x ∷ rest

pub is_unread : DeliveryEntry → Bool
is_unread e =
    (is_some e.delivered_at && not (is_some e.acked_at))
    || (not (is_some e.delivered_at) && not (is_some e.skip))

pub unread_count : List DeliveryEntry → ℕ
unread_count es = length (filter is_unread es)

-- `a ?? b`.
abbrev pub or_else : Option ℕ → Option ℕ → Option ℕ
or_else none b = b
or_else (some a) b = some a

abbrev pub or_zero : Option ℕ → ℕ
or_zero none = 0
or_zero (some a) = a

-- The clock that `save` goes by: the latest time stamp of any entry.
pub newest : List DeliveryEntry → ℕ
newest [] = 0
newest (e ∷ es) =
    max (max (or_zero e.delivered_at) (max (or_zero e.acked_at) (or_zero e.skipped_at))) (newest es)

pub is_stale : ℕ → Option ℕ → Bool
is_stale now none = false
is_stale now (some at) = ltb (at + ack_retention_ms) now

pub age_key : DeliveryEntry → ℕ
age_key e = or_zero (or_else e.acked_at (or_else e.skipped_at e.delivered_at))

-- `sort`, which is stable.
pub insert_by_age : DeliveryEntry → List DeliveryEntry → List DeliveryEntry
insert_by_age e [] = e ∷ []
insert_by_age e (x ∷ xs) =
    let rest = insert_by_age e xs in if leb (age_key e) (age_key x) then e ∷ x ∷ xs else x ∷ rest

pub sort_by_age : List DeliveryEntry → List DeliveryEntry
sort_by_age [] = []
sort_by_age (e ∷ es) = insert_by_age e (sort_by_age es)

pub is_settled : DeliveryEntry → Bool
is_settled e = is_some e.acked_at || is_some e.skip

-- The settled entries, oldest first, as many as are over the cap.
pub victims : ℕ → List DeliveryEntry → List String
victims zero es = []
victims (suc over) [] = []
victims (suc over) (e ∷ es) = elim (is_settled e) [
  | true ↦ e.msg_id ∷ victims over es
  | false ↦ victims (suc over) es
]

pub evict : List DeliveryEntry → List DeliveryEntry
evict es =
    let ids = victims (length es - max_tracked_entries) (sort_by_age es) in
    filter (λ e. not (any (λ id. str_eq id e.msg_id) ids)) es

-- `save`; the writing of the file is taken to succeed.
pub save : DeliveryState → DeliveryState
save st =
    let now = newest st.entries in
    record st { entries = evict (filter (λ e. not (is_stale now e.acked_at)) st.entries) }

pub set_last_seq : String → DeliveryState → DeliveryState
set_last_seq seq st = save (record st { last_seq = some seq })

pub record_delivered : DeliveryEntry → ℕ → DeliveryState → DeliveryState
record_delivered e now st =
    save (record st { entries = put (record e { delivered_at = some now }) st.entries })

pub record_skip : DeliveryEntry → Skip → ℕ → DeliveryState → DeliveryState
record_skip e skip now st =
    save (record st {
      entries = put (record e { skip = some skip; skipped_at = some now }) st.entries;
    })

pub record_ack : String → ℕ → DeliveryState → DeliveryState × Bool
record_ack id now st = elim (get_entry id st.entries) [
  | none ↦ (st, false)
  | some e ↦
      if is_some e.acked_at
      then (st, true)
      else (save (record st { entries = put (record e { acked_at = some now }) st.entries }), true)
]

pub is_collected : ℕ → DeliveryEntry → Bool
is_collected now e = is_stale now (or_else e.acked_at e.skipped_at)

-- With the clock's time.
pub gc : ℕ → DeliveryState → DeliveryState × ℕ
gc now st =
    let left = filter (λ e. not (is_collected now e)) st.entries in
    let removed = length st.entries - length left in
    (if ltb 0 removed then save (record st { entries = left }) else st, removed)

pub data StateCall : Type 0 where
  setting : String → StateCall
  delivering : DeliveryEntry → ℕ → StateCall
  skipping : DeliveryEntry → Skip → ℕ → StateCall
  acking : String → ℕ → StateCall
  collecting : ℕ → StateCall

pub state_step : StateCall → DeliveryState → DeliveryState
state_step (setting seq) st = set_last_seq seq st
state_step (delivering e now) st = record_delivered e now st
state_step (skipping e skip now) st = record_skip e skip now st
state_step (acking id now) st = (record_ack id now st).0
state_step (collecting now) st = (gc now st).0
