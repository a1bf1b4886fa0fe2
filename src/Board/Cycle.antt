-- ===== src/Board/Cycle.antt =====
-- src/board/delivery.ts: one cycle of `BoardDelivery`. The repository's answers, the callback, the
-- clock and the flags of private mode are arguments, each by the point at which it is asked.
pub mod Concluded
pub mod Fresh
use pi_kiwifs_memory.Prelude.{
  ℕ, zero, suc, ◌+◌, ◌-◌, String, Bool, true, false, ◌&&◌, ◌||◌, not, Option, none, some, List, [],
  ◌∷◌, ◌++◌, any, map, length, is_some, leb, ◌==◌, str_eq, if◌then◌else◌,
}
use pi_kiwifs_memory.Backend.{Thrown, is_retryable, error_fingerprint}
use pi_kiwifs_memory.Board.Path.{board_channel_of_path, board_msg_id_of_path}
use pi_kiwifs_memory.Board.Entries.{
  Skip, expired, unauthorized, missing, malformed, DeliveryEntry, DeliveryState, get_entry,
  unread_count, set_last_seq, record_delivered, record_skip,
}

-- A page of the change feed, by the paths of its changes.
pub record Feed : Type 0 where
  pub paths : List String
  pub last_seq : Option String

pub data Fetched : Type 0 where
  feed : Feed → Fetched
  threw : Thrown → Fetched

-- The fallback listing: its paths and whether it was truncated.
pub data Listed : Type 0 where
  listing : List String → Bool → Listed
  no_listing : Thrown → Listed

pub record Message : Type 0 where
  pub from : String
  pub to : String
  pub created : String
  pub body : String

pub data Refusal : Type 0 where
  message_expired message_missing out_of_channel bad_request other_refusal : Refusal

pub data Answer : Type 0 where
  accepted : Message → Answer
  refused : Refusal → Answer

-- `repo.read`, which may answer "unavailable" or throw.
pub data ReadOutcome : Type 0 where
  answered : Answer → ReadOutcome
  unavailable : ReadOutcome
  read_threw : Thrown → ReadOutcome

pub record Pending : Type 0 where
  pub path : String
  pub msg_id : String
  pub channel : String

pub data PauseReason : Type 0 where
  backlog private_mode backend_unavailable : PauseReason

pub record CycleResult : Type 0 where
  pub pages : ℕ
  pub changes : ℕ
  pub delivered : List String
  pub skipped : List (String × Skip)
  pub paused : Option PauseReason  -- `paused` is set exactly with `pauseReason`
  pub discovery_fallback : Bool
  pub listing_truncated : Bool

pub record BoardDelivery : Type 0 where
  pub state : DeliveryState
  pub stopped : Bool
  pub consecutive_empty_polls : ℕ
  pub last_cycle_at : Option ℕ
  pub last_error : Option String
  pub last_discovery_fallback : Bool

pub record CycleDeps : Type 0 where
  pub changes_at : ℕ → String → Fetched  -- by the number of the page
  pub list_paths : List String → Listed  -- for the excluded names
  pub read : String → ReadOutcome
  pub deliver : Pending → Message → Option Thrown  -- `none` when the callback resolves
  pub private_at_start : Bool
  pub private_at_read : String → Bool
  pub private_at_deliver : String → Bool
  pub start_clock : ℕ
  pub clock : String → ℕ  -- when the entry of a message is written
  pub created_le : String → String → Bool  -- `localeCompare` is at most 0
  pub recipient : Option String
  pub backlog_pause_at : ℕ
  pub max_changes_pages : ℕ

pub add_pending : List DeliveryEntry → String → List Pending → List Pending
add_pending es path acc = elim (board_channel_of_path path) [
  | none ↦ acc
  | some channel ↦ elim (board_msg_id_of_path path) [
    | none ↦ acc
    | some id ↦
        if is_some (get_entry id es) || any (λ p. str_eq p.msg_id id) acc
        then acc
        else acc ++ record { path = path; msg_id = id; channel = channel } ∷ []
  ]
]

-- `seenThisCycle` holds exactly the identities in `pending`.
pub collect : List DeliveryEntry → List String → List Pending → List Pending
collect es [] acc = acc
collect es (path ∷ paths) acc = collect es paths (add_pending es path acc)

pub record Discovery : Type 0 where
  pub pending : List Pending
  pub pages : ℕ
  pub changes : ℕ
  pub last_seq_seen : Option String
  pub fallback : Option Thrown
  pub truncated : Bool

pub entry_of : Pending → DeliveryEntry
entry_of p = record {
  msg_id = p.msg_id;
  path = p.path;
  channel = p.channel;
  delivered_at = none;
  acked_at = none;
  skip = none;
  skipped_at = none;
}

pub skip_of : Refusal → Skip
skip_of message_expired = expired
skip_of message_missing = missing
skip_of out_of_channel = unauthorized
skip_of bad_request = unauthorized
skip_of other_refusal = malformed

pub data Ended : Type 0 where
  completed : Ended
  paused_by : PauseReason → Ended
  failed : Thrown → Ended

pub record Settled : Type 0 where
  pub state : DeliveryState
  pub skipped : List (String × Skip)
  pub deliverable : List (Pending × Message)

pub record Delivered : Type 0 where
  pub state : DeliveryState
  pub ids : List String
  pub ended : Ended

module _ (deps : CycleDeps) where
  -- The page loop, on the number of pages that are left.
  pub fetch_pages : ℕ → ℕ → String → List DeliveryEntry → Discovery → Discovery × Option Thrown
  fetch_pages zero page since es d = (d, none)
  fetch_pages (suc left) page since es d = elim (deps.changes_at page since) [
    | threw e ↦ (d, some e)
    | feed f ↦
        let d' : Discovery = record d {
          pages = d.pages + 1;
          changes = d.changes + length f.paths;
          pending = collect es f.paths d.pending;
        } in
        elim f.last_seq [
          | none ↦ (d', none)
          | some seq ↦
              let seen : Discovery = record d' { last_seq_seen = some seq } in
              let more = fetch_pages left (suc page) seq es seen in
              if str_eq seq since
              then (d', none)
              else if length f.paths == 0
              then (seen, none)
              else more
        ]
  ]

  pub after_listing : List DeliveryEntry → Discovery → Listed → Discovery × Option Thrown
  after_listing es d (no_listing e) = (d, some e)
  after_listing es d (listing paths cut) =
      (record d { pending = collect es paths d.pending; truncated = cut }, none)

  -- An error of the feed that is not retryable falls back to the listing. `exclude` starts with the
  -- identities that the feed gave.
  pub fall_back : List DeliveryEntry → Discovery × Option Thrown → Discovery × Option Thrown
  fall_back es (d, none) = (d, none)
  fall_back es (d, some e) =
      if is_retryable e
      then (d, some e)
      else after_listing es (record d { fallback = some e })
          (deps.list_paths (map (λ p. p.msg_id) d.pending ++ map (λ x. x.path) es))

  abbrev pub nothing_found : Discovery
  nothing_found = record {
    pending = [];
    pages = 0;
    changes = 0;
    last_seq_seen = none;
    fallback = none;
    truncated = false;
  }

  pub discover : DeliveryState → Discovery × Option Thrown
  discover st =
      let since : String = elim st.last_seq [ none ↦ "" | some seq ↦ seq ] in
      fall_back st.entries (fetch_pages deps.max_changes_pages 0 since st.entries nothing_found)

  -- The reads, up to the first that pauses or throws.
  pub read_all : List Pending → List (Pending × Answer) × Ended
  read_all [] = ([], completed)
  read_all (p ∷ ps) =
      let rest = read_all ps in
      if deps.private_at_read p.path
      then ([], paused_by private_mode)
      else elim (deps.read p.path) [
        | unavailable ↦ ([], paused_by backend_unavailable)
        | read_threw e ↦ ([], failed e)
        | answered a ↦ ((p, a) ∷ rest.0, rest.1)
      ]

  pub is_recipient : Message → Bool
  is_recipient m = elim deps.recipient [ none ↦ true | some to ↦ str_eq m.to to ]

  pub settle_skip : Pending → Skip → Settled → Settled
  settle_skip p skip s = record s {
    state = record_skip (entry_of p) skip (deps.clock p.msg_id) s.state;
    skipped = s.skipped ++ (p.msg_id, skip) ∷ [];
  }

  pub settle_answer : Pending → Answer → Settled → Settled
  settle_answer p (refused reason) s = settle_skip p (skip_of reason) s
  settle_answer p (accepted m) s =
      if is_recipient m
      then record s { deliverable = s.deliverable ++ (p, m) ∷ [] }
      else settle_skip p unauthorized s

  pub settle_all : List (Pending × Answer) → Settled → Settled
  settle_all [] s = s
  settle_all ((p, a) ∷ rest) s = settle_all rest (settle_answer p a s)

  -- `sort` by `created`, which is stable.
  pub insert_created : Pending × Message → List (Pending × Message) → List (Pending × Message)
  insert_created x [] = x ∷ []
  insert_created x (y ∷ ys) =
      let rest = insert_created x ys in
      if deps.created_le x.1.created y.1.created then x ∷ y ∷ ys else y ∷ rest

  pub sort_created : List (Pending × Message) → List (Pending × Message)
  sort_created [] = []
  sort_created (x ∷ xs) = insert_created x (sort_created xs)

  pub deliver_all : List (Pending × Message) → DeliveryState → List String → Delivered
  deliver_all [] st ids = record { state = st; ids = ids; ended = completed }
  deliver_all ((p, m) ∷ rest) st ids =
      if deps.private_at_deliver p.msg_id
      then record { state = st; ids = ids; ended = paused_by private_mode }
      else elim (deps.deliver p m) [
        | some e ↦ record { state = st; ids = ids; ended = failed e }
        | none ↦
            deliver_all rest (record_delivered (entry_of p) (deps.clock p.msg_id) st)
              (ids ++ p.msg_id ∷ [])
      ]

  abbrev pub nothing_done : CycleResult
  nothing_done = record {
    pages = 0;
    changes = 0;
    delivered = [];
    skipped = [];
    paused = none;
    discovery_fallback = false;
    listing_truncated = false;
  }

  -- What a cycle has to show for itself after its discovery.
  pub found : Discovery → CycleResult
  found d = record nothing_done { pages = d.pages; changes = d.changes }

  -- The outer `catch`.
  pub fail : Thrown → CycleResult → BoardDelivery → CycleResult × BoardDelivery
  fail e r b = (
    record r { paused = some backend_unavailable },
    record b { last_error = some (error_fingerprint e) },
  )

  -- The end of a cycle that nothing paused.
  pub complete : Discovery → CycleResult → BoardDelivery → CycleResult × BoardDelivery
  complete d r b = (
    record r { discovery_fallback = is_some d.fallback; listing_truncated = d.truncated },
    record b {
      consecutive_empty_polls = if length d.pending == 0 then b.consecutive_empty_polls + 1 else 0;
      state = elim d.last_seq_seen [ none ↦ b.state | some seq ↦ set_last_seq seq b.state ];
      last_discovery_fallback = is_some d.fallback;
    },
  )

  pub conclude :
      Discovery → Ended → Ended → CycleResult → BoardDelivery → CycleResult × BoardDelivery
  conclude d (failed e) reading r b = fail e r b
  conclude d (paused_by reason) reading r b = (record r { paused = some reason }, b)
  conclude d completed (failed e) r b = fail e r b
  conclude d completed (paused_by reason) r b = (record r { paused = some reason }, b)
  conclude d completed completed r b = complete d r b

  -- The deliveries, for what was read and settled.
  pub deliver_settled : Discovery → Ended → Settled → BoardDelivery → CycleResult × BoardDelivery
  deliver_settled d reading s b =
      let sent = deliver_all (sort_created s.deliverable) s.state [] in
      conclude d sent.ended reading (record (found d) { delivered = sent.ids; skipped = s.skipped })
        (record b { state = sent.state })

  -- After the reads: an exception among them ends the cycle before anything is settled.
  pub settle_reads :
      Discovery → List (Pending × Answer) → Ended → BoardDelivery → CycleResult × BoardDelivery
  settle_reads d reads (failed e) b = fail e (found d) b
  settle_reads d reads reading b =
      deliver_settled d reading
        (settle_all reads (record { state = b.state; skipped = []; deliverable = [] })) b

  pub note_fallback : Option Thrown → BoardDelivery → BoardDelivery
  note_fallback none b = b
  note_fallback (some e) b = record b { last_error = some (error_fingerprint e) }

  pub after_discovery : Discovery → Option Thrown → BoardDelivery → CycleResult × BoardDelivery
  after_discovery d (some e) b = fail e (found d) b
  after_discovery d none b =
      settle_reads d (read_all d.pending).0 (read_all d.pending).1 (note_fallback d.fallback b)

  abbrev pub paused_at_once : PauseReason → CycleResult
  paused_at_once reason = record nothing_done { paused = some reason }

  -- `runCycleInner`; the flag `running` is set only inside of it.
  pub run_cycle_inner : BoardDelivery → CycleResult × BoardDelivery
  run_cycle_inner b =
      if b.stopped
      then (paused_at_once private_mode, b)
      else let b' : BoardDelivery = record b { last_cycle_at = some deps.start_clock } in
        if deps.private_at_start
        then (paused_at_once private_mode, b')
        else if leb deps.backlog_pause_at (unread_count b.state.entries)
        then (paused_at_once backlog, b')
        else after_discovery (discover b.state).0 (discover b.state).1 b'
