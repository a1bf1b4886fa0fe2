-- ===== src/Board/Cycle/Concluded.antt =====
-- src/board/delivery.ts: how a cycle ends, and the stored cursor.
use pi_kiwifs_memory.Prelude.{
  ◌≡◌, refl, ◌∙◌, String, Bool, true, false, ◌||◌, Option, none, some, List, [], ◌∷◌, ◌++◌, any,
  leb, str_eq, arith, Bool-cases, Option-cases, inl, inr, if◌then◌else◌, ap,
}
use pi_kiwifs_memory.Backend.{Thrown}
use pi_kiwifs_memory.Board.Entries.{
  Skip, unauthorized, DeliveryState, unread_count, record_delivered,
}
use pi_kiwifs_memory.Board.Entries.LastSeq.{
  last_seq-set_last_seq, last_seq-record_delivered, last_seq-record_skip,
}
use pi_kiwifs_memory.Board.Cycle.{
  Message, Answer, accepted, refused, Pending, PauseReason, CycleResult, BoardDelivery, CycleDeps,
  Discovery, entry_of, Ended, completed, paused_by, failed, Settled, discover, read_all,
  settle_skip, settle_answer, settle_all, insert_created, sort_created, deliver_all, found, fail,
  complete, conclude, deliver_settled, settle_reads, note_fallback, after_discovery,
  run_cycle_inner, is_recipient, skip_of,
}

-- Whether a message was handled, by what the result lists.
abbrev pub is_skipped : String → List (String × Skip) → Bool
is_skipped id xs = any (λ x. str_eq x.0 id) xs

abbrev pub is_delivered : String → List String → Bool
is_delivered id ids = any (λ x. str_eq x id) ids

abbrev pub waits : String → List (Pending × Message) → Bool
waits id xs = any (λ x. str_eq x.0.msg_id id) xs

pub any-append {ℓ} :
    {A : Type ℓ} (p : A → Bool) (xs ys : List A) → any p (xs ++ ys) ≡ any p xs || any p ys
any-append p [] ys = refl
any-append p (x ∷ xs) ys = ground (arith, any-append p xs ys)

module _ (deps : CycleDeps) where
  waits-insert :
      (id : String) (x : Pending × Message) (xs : List (Pending × Message))
      → waits id (insert_created deps x xs) ≡ waits id (x ∷ xs)
  unfolding insert_created
  waits-insert id x [] = refl
  waits-insert id x (y ∷ ys) = ground (arith, waits-insert id x ys)

  pub waits-sort :
      (id : String) (xs : List (Pending × Message)) → waits id (sort_created deps xs) ≡ waits id xs
  unfolding sort_created
  waits-sort id [] = refl
  waits-sort id (x ∷ xs) =
      waits-insert id x (sort_created deps xs)
      ∙ ap (λ b. str_eq x.0.msg_id id || b) (waits-sort id xs)

  -- Skipped or about to be delivered.
  abbrev pub seen_to : String → Settled → Bool
  seen_to id s = is_skipped id s.skipped || waits id s.deliverable

  settle_answer-keeps :
      (id : String) (p : Pending) (a : Answer) (s : Settled)
      → seen_to id (settle_answer deps p a s) ≡ seen_to id s || str_eq p.msg_id id
  unfolding settle_answer settle_skip
  settle_answer-keeps id p (refused reason) s =
      ground (arith, any-append (λ x. str_eq x.0 id) s.skipped ((p.msg_id, skip_of reason) ∷ []))
  settle_answer-keeps id p (accepted m) s = ground (
    arith,
    any-append (λ x. str_eq x.0 id) s.skipped ((p.msg_id, unauthorized) ∷ []),
    any-append (λ x. str_eq x.0.msg_id id) s.deliverable ((p, m) ∷ []),
  )

  pub settle_all-keeps :
      (id : String) (reads : List (Pending × Answer)) (s : Settled)
      → seen_to id (settle_all deps reads s) ≡ seen_to id s || any (λ x. str_eq x.0.msg_id id) reads
  unfolding settle_all
  settle_all-keeps id [] s = ground arith
  settle_all-keeps id ((p, a) ∷ rest) s =
      ground
        (arith, settle_all-keeps id rest (settle_answer deps p a s), settle_answer-keeps id p a s)

  -- When all reads answered, they are of all that was pending.
  read_all-completed :
      (id : String) (ps : List Pending)
      → (read_all deps ps).1 ≡ completed
      → any (λ x. str_eq x.0.msg_id id) (read_all deps ps).0 ≡ any (λ p. str_eq p.msg_id id) ps
  unfolding read_all
  read_all-completed id [] h = refl
  read_all-completed id (p ∷ ps) h = ground (arith, read_all-completed id ps, h)

  deliver_all-completed :
      (id : String) (xs : List (Pending × Message)) (st : DeliveryState) (ids : List String)
      → (deliver_all deps xs st ids).ended ≡ completed
      → is_delivered id (deliver_all deps xs st ids).ids ≡ is_delivered id ids || waits id xs
  unfolding deliver_all
  deliver_all-completed id [] st ids h = ground arith
  deliver_all-completed id ((p, m) ∷ rest) st ids h = ground (
    arith,
    h,
    deliver_all-completed id rest (record_delivered (entry_of p) (deps.clock p.msg_id) st)
        (ids ++ p.msg_id ∷ []),
    any-append (λ x. str_eq x id) ids (p.msg_id ∷ []),
  )

  -- Where a cycle that nothing paused leaves the cursor.
  abbrev pub next_seq : Option String → Option String → Option String
  next_seq none old = old
  next_seq (some seq) old = some seq

  -- What a cycle that discovered `d` promises, from the cursor `old`.
  pub record IsConcluded (d : Discovery) (old : Option String) (w : CycleResult × BoardDelivery)
      : Type 0 where
    pub paused_keeps : (reason : PauseReason) → w.0.paused ≡ some reason → w.1.state.last_seq ≡ old
    pub complete_handles :
        w.0.paused ≡ none
        → (id : String) → any (λ p. str_eq p.msg_id id) d.pending ≡ true
        → (is_delivered id w.0.delivered || is_skipped id w.0.skipped) ≡ true
    pub complete_moves : w.0.paused ≡ none → w.1.state.last_seq ≡ next_seq d.last_seq_seen old

  last_seq-complete :
      (d : Discovery) (r : CycleResult) (b : BoardDelivery)
      → (complete deps d r b).1.state.last_seq ≡ next_seq d.last_seq_seen b.state.last_seq
  unfolding complete
  last_seq-complete d r b = elim (Option-cases d.last_seq_seen) [
    | inl unseen ↦ rw unseen refl
    | inr (seq, seen) ↦ rw seen (last_seq-set_last_seq seq b.state)
  ]

  conclude-IsConcluded :
      (d : Discovery) (sending reading : Ended) (r : CycleResult) (b : BoardDelivery)
      → r.paused ≡ none
      → (sending ≡ completed
          → reading ≡ completed
          → (id : String) → any (λ p. str_eq p.msg_id id) d.pending ≡ true
          → (is_delivered id r.delivered || is_skipped id r.skipped) ≡ true)
      → IsConcluded d b.state.last_seq (conclude deps d sending reading r b)
  unfolding conclude fail complete
  conclude-IsConcluded d (failed e) reading r b none_yet handled = record {
    paused_keeps = λ reason h. refl;
    complete_handles = λ h. absurd (cc h);
    complete_moves = λ h. absurd (cc h);
  }
  conclude-IsConcluded d (paused_by why) reading r b none_yet handled = record {
    paused_keeps = λ reason h. refl;
    complete_handles = λ h. absurd (cc h);
    complete_moves = λ h. absurd (cc h);
  }
  conclude-IsConcluded d completed (failed e) r b none_yet handled = record {
    paused_keeps = λ reason h. refl;
    complete_handles = λ h. absurd (cc h);
    complete_moves = λ h. absurd (cc h);
  }
  conclude-IsConcluded d completed (paused_by why) r b none_yet handled = record {
    paused_keeps = λ reason h. refl;
    complete_handles = λ h. absurd (cc h);
    complete_moves = λ h. absurd (cc h);
  }
  conclude-IsConcluded d completed completed r b none_yet handled = record {
    paused_keeps = λ reason h. absurd (cc (none_yet, h));
    complete_handles = λ h. handled refl refl;
    complete_moves = λ h. last_seq-complete d r b;
  }

  last_seq-settle_answer :
      (p : Pending) (a : Answer) (s : Settled)
      → (settle_answer deps p a s).state.last_seq ≡ s.state.last_seq
  unfolding settle_answer settle_skip
  last_seq-settle_answer p (refused reason) s =
      last_seq-record_skip (entry_of p) (skip_of reason) (deps.clock p.msg_id) s.state
  last_seq-settle_answer p (accepted m) s = elim (Bool-cases (is_recipient deps m)) [
    | inl to_us ↦ rw to_us refl
    | inr other ↦
        rw other (last_seq-record_skip (entry_of p) unauthorized (deps.clock p.msg_id) s.state)
  ]

  last_seq-settle_all :
      (reads : List (Pending × Answer)) (s : Settled)
      → (settle_all deps reads s).state.last_seq ≡ s.state.last_seq
  unfolding settle_all
  last_seq-settle_all [] s = refl
  last_seq-settle_all ((p, a) ∷ rest) s =
      last_seq-settle_all rest (settle_answer deps p a s) ∙ last_seq-settle_answer p a s

  last_seq-deliver_all :
      (xs : List (Pending × Message)) (st : DeliveryState) (ids : List String)
      → (deliver_all deps xs st ids).state.last_seq ≡ st.last_seq
  unfolding deliver_all
  last_seq-deliver_all [] st ids = refl
  last_seq-deliver_all ((p, m) ∷ rest) st ids =
      let later =
        last_seq-deliver_all rest (record_delivered (entry_of p) (deps.clock p.msg_id) st)
          (ids ++ p.msg_id ∷ [])
        ∙ last_seq-record_delivered (entry_of p) (deps.clock p.msg_id) st in
      ground (arith, later)

  deliver_settled-IsConcluded :
      (d : Discovery) (reading : Ended) (s : Settled) (b : BoardDelivery)
      → (reading ≡ completed
          → (id : String) → any (λ p. str_eq p.msg_id id) d.pending ≡ true
          → seen_to id s ≡ true)
      → s.state.last_seq ≡ b.state.last_seq
      → IsConcluded d b.state.last_seq (deliver_settled deps d reading s b)
  unfolding deliver_settled found
  deliver_settled-IsConcluded d reading s b handled same =
      let sent = deliver_all deps (sort_created deps s.deliverable) s.state [] in
      let kept : sent.state.last_seq ≡ b.state.last_seq =
        last_seq-deliver_all (sort_created deps s.deliverable) s.state [] ∙ same in
      rw (← kept) (
        conclude-IsConcluded d sent.ended reading _ (record b { state = sent.state }) refl
          (λ all_sent all_read id h.
            let delivered =
              deliver_all-completed id (sort_created deps s.deliverable) s.state [] all_sent in
            let waited = waits-sort id s.deliverable in
            let known = handled all_read id h in ground (arith, delivered, waited, known)))

  settle_all-IsConcluded :
      (d : Discovery) (reads : List (Pending × Answer)) (reading : Ended) (b : BoardDelivery)
      → (reading ≡ completed
          → (id : String)
          → any (λ x. str_eq x.0.msg_id id) reads ≡ any (λ p. str_eq p.msg_id id) d.pending)
      → IsConcluded d b.state.last_seq (
          deliver_settled deps d reading
            (settle_all deps reads (record { state = b.state; skipped = []; deliverable = [] }))
            b)
  settle_all-IsConcluded d reads reading b same =
      deliver_settled-IsConcluded d reading _ b
        (λ all_read id h.
          settle_all-keeps id reads (record { state = b.state; skipped = []; deliverable = [] })
          ∙ same all_read id
          ∙ h)
        (last_seq-settle_all reads _)

  settle_reads-IsConcluded :
      (d : Discovery) (reads : List (Pending × Answer)) (reading : Ended) (b : BoardDelivery)
      → (reading ≡ completed
          → (id : String)
          → any (λ x. str_eq x.0.msg_id id) reads ≡ any (λ p. str_eq p.msg_id id) d.pending)
      → IsConcluded d b.state.last_seq (settle_reads deps d reads reading b)
  unfolding settle_reads fail
  settle_reads-IsConcluded d reads (failed e) b same = record {
    paused_keeps = λ reason h. refl;
    complete_handles = λ h. absurd (cc h);
    complete_moves = λ h. absurd (cc h);
  }
  settle_reads-IsConcluded d reads completed b same =
      settle_all-IsConcluded d reads completed b same
  settle_reads-IsConcluded d reads (paused_by why) b same =
      settle_all-IsConcluded d reads (paused_by why) b same

  last_seq-note_fallback :
      (e : Option Thrown) (b : BoardDelivery)
      → (note_fallback deps e b).state.last_seq ≡ b.state.last_seq
  unfolding note_fallback
  last_seq-note_fallback none b = refl
  last_seq-note_fallback (some e) b = refl

  IsConcluded-same :
      (d : Discovery) {old old' : Option String} {w : CycleResult × BoardDelivery}
      → old ≡ old'
      → IsConcluded d old w
      → IsConcluded d old' w
  IsConcluded-same d e v = rw (← e) v

  IsConcluded-if :
      {d : Discovery} {old : Option String} (test : Bool) {v w : CycleResult × BoardDelivery}
      → IsConcluded d old v
      → IsConcluded d old w
      → IsConcluded d old (if test then v else w)
  IsConcluded-if true x y = x
  IsConcluded-if false x y = y

  after_discovery-IsConcluded :
      (d : Discovery) (fault : Option Thrown) (b : BoardDelivery)
      → IsConcluded d b.state.last_seq (after_discovery deps d fault b)
  unfolding after_discovery fail
  after_discovery-IsConcluded d (some e) b = record {
    paused_keeps = λ reason h. refl;
    complete_handles = λ h. absurd (cc h);
    complete_moves = λ h. absurd (cc h);
  }
  after_discovery-IsConcluded d none b = IsConcluded-same d (last_seq-note_fallback d.fallback b) (
      settle_reads-IsConcluded d (read_all deps d.pending).0 (read_all deps d.pending).1
        (note_fallback deps d.fallback b) (λ all_read id. read_all-completed id d.pending all_read))

  -- A cycle that is paused leaves the stored cursor where it was. In a cycle that is not paused,
  -- every message it discovered is delivered or skipped, and only then does the cursor move to the
  -- last position that the feed reported.
  pub run_cycle_inner-IsConcluded :
      (b : BoardDelivery)
      → IsConcluded (discover deps b.state).0 b.state.last_seq (run_cycle_inner deps b)
  unfolding run_cycle_inner
  run_cycle_inner-IsConcluded b = IsConcluded-if b.stopped at_once (
      IsConcluded-if deps.private_at_start at_once (
        IsConcluded-if (leb deps.backlog_pause_at (unread_count b.state.entries)) at_once (
          after_discovery-IsConcluded (discover deps b.state).0 (discover deps b.state).1
            (record b { last_cycle_at = some deps.start_clock }))))
    where
      at_once :
          {why : PauseReason} {b' : BoardDelivery}
          → IsConcluded (discover deps b.state).0 b'.state.last_seq (
            record {
              pages = 0;
              changes = 0;
              delivered = [];
              skipped = [];
              paused = some why;
              discovery_fallback = false;
              listing_truncated = false;
            },
            b',
          )
      at_once = record {
        paused_keeps = λ reason h. refl;
        complete_handles = λ h. absurd (cc h);
        complete_moves = λ h. absurd (cc h);
      }
