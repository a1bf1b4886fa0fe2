-- ===== src/Board/Cycle/Fresh.antt =====
-- src/board/delivery.ts: the tracked messages in a cycle.
use pi_kiwifs_memory.Prelude.{
  ℕ, zero, suc, ◌≡◌, refl, ◌∙◌, String, Bool, true, false, ◌||◌, Option, none, some, List, [], ◌∷◌,
  ◌++◌, any, map, length, is_some, leb, str_eq, eq_iff, arith, Bool-cases, Option-cases, inl, inr,
  if◌then◌else◌, ◌==◌,
}
use pi_kiwifs_memory.Backend.{Thrown}
use pi_kiwifs_memory.Board.Entries.{DeliveryState, unread_count, record_delivered}
use pi_kiwifs_memory.Board.Cycle.{
  Message, Answer, Pending, CycleResult, BoardDelivery, CycleDeps, add_pending, collect, Discovery,
  entry_of, Ended, completed, paused_by, failed, fetch_pages, discover, read_all, settle_all,
  sort_created, deliver_all, found, fail, complete, conclude, deliver_settled, settle_reads,
  after_discovery, run_cycle_inner,
}
use pi_kiwifs_memory.Board.Cycle.Concluded.{
  is_skipped, is_delivered, waits, any-append, waits-sort, seen_to, settle_all-keeps,
}
use pi_kiwifs_memory.Board.Cycle.{
  fall_back, after_listing, nothing_found, feed, threw, listing, no_listing, Fetched, Listed,
}
use pi_kiwifs_memory.Board.Path.{board_channel_of_path, board_msg_id_of_path}
use pi_kiwifs_memory.Backend.{is_retryable}
use pi_kiwifs_memory.Board.Entries.{DeliveryEntry, get_entry}

abbrev pends : String → List Pending → Bool
pends id ps = any (λ p. str_eq p.msg_id id) ps

module _ (id : String) (es : List DeliveryEntry) (known : is_some (get_entry id es) ≡ true) where
  add_pending-fresh :
      (path : String) (acc : List Pending)
      → pends id acc ≡ false
      → pends id (add_pending es path acc) ≡ false
  unfolding add_pending
  add_pending-fresh path acc h = elim (Option-cases (board_channel_of_path path)) [
    | inl outside ↦ rw (outside, add_pending) h
    | inr (channel, inside) ↦ elim (Option-cases (board_msg_id_of_path path)) [
      | inl no_id ↦ rw (inside, no_id, add_pending) h
      | inr (new, has_id) ↦
          let grown =
            any-append (λ p. str_eq p.msg_id id) acc
              (record { path = path; msg_id = new; channel = channel } ∷ []) in
          rw (inside, has_id, add_pending) (ground (arith, grown, h, known, eq_iff new id))
    ]
  ]

  collect-fresh :
      (paths : List String) (acc : List Pending)
      → pends id acc ≡ false
      → pends id (collect es paths acc) ≡ false
  unfolding collect
  collect-fresh [] acc h = h
  collect-fresh (path ∷ paths) acc h =
      collect-fresh paths (add_pending es path acc) (add_pending-fresh path acc h)

  module _ (deps : CycleDeps) where
    pends-if :
        (test : Bool) (v w : Discovery × Option Thrown)
        → pends id v.0.pending ≡ false
        → pends id w.0.pending ≡ false
        → pends id (if test then v else w).0.pending ≡ false
    pends-if true v w x y = x
    pends-if false v w x y = y

    fetch_pages-fresh :
        (left page : ℕ) (since : String) (d : Discovery)
        → pends id d.pending ≡ false
        → pends id (fetch_pages deps left page since es d).0.pending ≡ false
    unfolding fetch_pages
    fetch_pages-fresh zero page since d h = h
    fetch_pages-fresh (suc left) page since d h =
        by_page (deps.changes_at page since) refl
          (λ seq d'. fetch_pages-fresh left (suc page) seq d')
      where
        by_page :
            (r : Fetched)
            → deps.changes_at page since ≡ r
            → ((seq : String) (d' : Discovery)
                → pends id d'.pending ≡ false
                → pends id (fetch_pages deps left (suc page) seq es d').0.pending ≡ false)
            → pends id (fetch_pages deps (suc left) page since es d).0.pending ≡ false
        by_page (threw e) eq rest = rw (eq, fetch_pages) h
        by_page (feed f) eq rest =
            let fresh = collect-fresh f.paths d.pending h in
            elim (Option-cases f.last_seq) [
              | inl last ↦ rw (eq, fetch_pages, last) fresh
              | inr (seq, next) ↦
                  rw (eq, fetch_pages, next)
                    (pends-if (str_eq seq since) _ _ fresh
                      (pends-if (length f.paths == 0) _ _ fresh (rest seq _ fresh)))
            ]

    fall_back-fresh :
        (w : Discovery × Option Thrown)
        → pends id w.0.pending ≡ false
        → pends id (fall_back deps es w).0.pending ≡ false
    unfolding fall_back after_listing
    fall_back-fresh (d, none) h = h
    fall_back-fresh (d, some e) h = elim (Bool-cases (is_retryable e)) [
      | inl retryable ↦ rw retryable h
      | inr broken ↦
          rw broken
            (by_listing (deps.list_paths (map (λ p. p.msg_id) d.pending ++ map (λ x. x.path) es)))
    ]
      where
        by_listing :
            (l : Listed)
            → pends id (after_listing deps es (record d { fallback = some e }) l).0.pending ≡ false
        by_listing (no_listing e') = h
        by_listing (listing paths cut) = collect-fresh paths d.pending h

    discover-fresh :
        (seq : Option String)
        → pends id (discover deps (record { last_seq = seq; entries = es })).0.pending ≡ false
    unfolding discover
    discover-fresh seq =
        fall_back-fresh
          (fetch_pages deps deps.max_changes_pages 0 (elim seq [ none ↦ "" | some s ↦ s ]) es
            (nothing_found deps))
          (fetch_pages-fresh deps.max_changes_pages 0 (elim seq [ none ↦ "" | some s ↦ s ])
            (nothing_found deps) refl)

    read_all-fresh :
        (ps : List Pending)
        → pends id ps ≡ false
        → any (λ x. str_eq x.0.msg_id id) (read_all deps ps).0 ≡ false
    unfolding read_all
    read_all-fresh [] h = refl
    read_all-fresh (p ∷ ps) h = ground (arith, h, read_all-fresh ps)

    deliver_all-fresh :
        (xs : List (Pending × Message)) (st : DeliveryState) (ids : List String)
        → waits id xs ≡ false
        → is_delivered id ids ≡ false
        → is_delivered id (deliver_all deps xs st ids).ids ≡ false
    unfolding deliver_all
    deliver_all-fresh [] st ids h k = k
    deliver_all-fresh ((p, m) ∷ rest) st ids h k = ground (
      arith,
      h,
      k,
      deliver_all-fresh rest (record_delivered (entry_of p) (deps.clock p.msg_id) st)
          (ids ++ p.msg_id ∷ []),
      any-append (λ x. str_eq x id) ids (p.msg_id ∷ []),
    )

    -- Neither delivered nor skipped, by the result.
    abbrev Untouched : CycleResult → Type 0
    Untouched r = (is_delivered id r.delivered || is_skipped id r.skipped) ≡ false

    conclude-fresh :
        (d : Discovery) (sending reading : Ended) (r : CycleResult) (b : BoardDelivery)
        → Untouched r
        → Untouched (conclude deps d sending reading r b).0
    unfolding conclude fail complete
    conclude-fresh d (failed e) reading r b h = h
    conclude-fresh d (paused_by why) reading r b h = h
    conclude-fresh d completed (failed e) r b h = h
    conclude-fresh d completed (paused_by why) r b h = h
    conclude-fresh d completed completed r b h = h

    settle_all-fresh :
        (d : Discovery) (reads : List (Pending × Answer)) (reading : Ended) (b : BoardDelivery)
        → any (λ x. str_eq x.0.msg_id id) reads ≡ false
        → Untouched
            (deliver_settled deps d reading
              (settle_all deps reads (record { state = b.state; skipped = []; deliverable = [] }))
              b).0
    unfolding deliver_settled found
    settle_all-fresh d reads reading b h =
        let s =
          settle_all deps reads (record { state = b.state; skipped = []; deliverable = [] }) in
        let none_seen : seen_to deps id s ≡ false =
          settle_all-keeps deps id reads
            (record { state = b.state; skipped = []; deliverable = [] })
          ∙ h in
        let sorted = waits-sort deps id s.deliverable in
        let sent =
          deliver_all-fresh (sort_created deps s.deliverable) s.state []
            (ground (arith, none_seen, sorted)) refl in
        conclude-fresh d _ reading _ _ (ground (arith, sent, none_seen))

    settle_reads-fresh :
        (d : Discovery) (reads : List (Pending × Answer)) (reading : Ended) (b : BoardDelivery)
        → any (λ x. str_eq x.0.msg_id id) reads ≡ false
        → Untouched (settle_reads deps d reads reading b).0
    unfolding settle_reads fail found
    settle_reads-fresh d reads (failed e) b h = refl
    settle_reads-fresh d reads completed b h = settle_all-fresh d reads completed b h
    settle_reads-fresh d reads (paused_by why) b h = settle_all-fresh d reads (paused_by why) b h

    after_discovery-fresh :
        (d : Discovery) (fault : Option Thrown) (b : BoardDelivery)
        → pends id d.pending ≡ false
        → Untouched (after_discovery deps d fault b).0
    unfolding after_discovery fail found
    after_discovery-fresh d (some e) b h = refl
    after_discovery-fresh d none b h =
        settle_reads-fresh d (read_all deps d.pending).0 (read_all deps d.pending).1 _
          (read_all-fresh d.pending h)

untouched-if :
    (id : String) (test : Bool) (v w : CycleResult × BoardDelivery)
    → (is_delivered id v.0.delivered || is_skipped id v.0.skipped) ≡ false
    → (is_delivered id w.0.delivered || is_skipped id w.0.skipped) ≡ false
    → (is_delivered id (if test then v else w).0.delivered
        || is_skipped id (if test then v else w).0.skipped)
      ≡ false
untouched-if id true v w x y = x
untouched-if id false v w x y = y

-- A message that the delivery state tracks when a cycle starts, whether delivered, skipped or
-- acknowledged, is neither delivered nor skipped by that cycle.
pub run_cycle_inner-fresh :
    (deps : CycleDeps) (b : BoardDelivery) (id : String)
    → is_some (get_entry id b.state.entries) ≡ true
    → (is_delivered id (run_cycle_inner deps b).0.delivered
        || is_skipped id (run_cycle_inner deps b).0.skipped)
      ≡ false
unfolding run_cycle_inner
run_cycle_inner-fresh deps b id known = untouched-if id b.stopped _ _ refl (
    untouched-if id deps.private_at_start _ _ refl (
      untouched-if id (leb deps.backlog_pause_at (unread_count b.state.entries)) _ _ refl (
        after_discovery-fresh id b.state.entries known deps (discover deps b.state).0
          (discover deps b.state).1 (record b { last_cycle_at = some deps.start_clock })
          (discover-fresh id b.state.entries known deps b.state.last_seq))))
