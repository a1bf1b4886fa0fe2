-- ===== src/Board/Execution/Confirmed.antt =====
-- src/board/cleanup-execute.ts: which messages a run may delete.
use pi_kiwifs_memory.Prelude.{
  ℕ, suc, ◌≤◌, ◌<◌, ◌≡◌, refl, sym, ap, ◌∙◌, max, String, Bool, true, false, Option, none, some,
  List, [], ◌∷◌, ◌++◌, map, Memᴰ, All, All-append, length, length-append, leb, str_eq, eq_iff,
  arith, and_true, Bool-cases, inl, inr,
}
use pi_kiwifs_memory.Board.Path.{board_msg_id_of_path}
use pi_kiwifs_memory.Board.Cleanup.{Eligibility, eligible, ineligible, evaluate_cleanup_candidate}
use pi_kiwifs_memory.Board.Cleanup.Eligible.{IsRemovable, evaluate-IsRemovable}
use pi_kiwifs_memory.Board.Execution.{
  PreviewItem, Preview, FreshRead, ReadAnswer, read_private, read_cancelled, read_failed,
  read_ineligible, read_ok, DeleteAnswer, delete_done, delete_cancelled, delete_private,
  delete_failed, Turn, ExecuteReason, DeleteCall, Execution, ExecuteOutcome, no_preview,
  no_identity, identity_changed, private_mode, stopped_private, completed, rejects, skip,
  conclude_delete, record_and_delete, issue_delete, same_etag, same_message, is_path_of,
  by_eligibility, recheck, after_read, execute_item, go_on, execute_items, conclude_run, no_deletes,
  execute_board_cleanup,
}

-- What a run that started has done.
abbrev pub execution_of : ExecuteOutcome → Option Execution
execution_of (stopped_private x) = some x
execution_of (completed x) = some x
execution_of (rejects x) = some x
execution_of no_preview = none
execution_of no_identity = none
execution_of identity_changed = none
execution_of private_mode = none

module _ (parse : String → Option ℕ) (own_from : String) (now : ℕ) where
  -- The call removes a candidate of the preview: it was read again in open mode, is the previewed
  -- message still, and may be removed now.
  pub record IsConfirmed (candidates : List PreviewItem) (turns : ℕ → Turn) (call : DeleteCall)
      : Type 0 where
    pub item : PreviewItem
    pub index : ℕ
    pub fresh : FreshRead
    pub listed : Memᴰ item candidates
    pub named : call.call_path ≡ item.item_path
    pub not_private : (turns index).private_now ≡ false
    pub reread : (turns index).read ≡ read_ok fresh
    pub live : (turns index).signal_aborted ≡ false
    pub well_placed : board_msg_id_of_path item.item_path ≡ some item.item_msg_id
    pub same_id : fresh.read_msg_id ≡ item.item_msg_id
    pub same_created : fresh.read_view.created ≡ item.item_created
    pub same_sender : fresh.read_view.from ≡ own_from
    pub same_content : (e : String) → item.item_etag ≡ some e → fresh.read_etag ≡ some e
    pub removable : IsRemovable parse fresh.read_view (turns index).acked_at own_from now

  -- Every delete was confirmed, the ledger has exactly their ids, and no more are done than
  -- allowed.
  pub record IsCareful (max_deletes : ℕ) (candidates : List PreviewItem) (turns : ℕ → Turn)
      (x : Execution) : Type 0 where
    pub confirmed : All (IsConfirmed candidates turns) x.calls
    pub recorded : x.ledger ≡ map (λ c. c.op_id) x.calls
    pub bounded : length x.deleted ≤ max_deletes

  map-append_op :
      (xs : List DeleteCall) (c : DeleteCall)
      → map (λ y. y.op_id) (xs ++ c ∷ []) ≡ map (λ y. y.op_id) xs ++ c.op_id ∷ []
  map-append_op [] c = refl
  map-append_op (x ∷ xs) c = ap (λ l. x.op_id ∷ l) (map-append_op xs c)

  is_path_of_lem : (name : Option String) (id : String) → is_path_of name id ≡ true → name ≡ some id
  unfolding is_path_of
  is_path_of_lem none id h = cc h
  is_path_of_lem (some p) id h = ap some ((eq_iff p id).0 h)

  same_etag_lem :
      (previewed got : Option String)
      → same_etag previewed got ≡ true
      → (e : String) → previewed ≡ some e
      → got ≡ some e
  unfolding same_etag
  same_etag_lem none got h e eq = cc eq
  same_etag_lem (some p) none h e eq = cc h
  same_etag_lem (some p) (some r) h e eq = ap some ((eq_iff r p).0 h) ∙ eq

  same_message_lem :
      (item : PreviewItem) (r : FreshRead)
      → same_message item own_from r ≡ true
      → (r.read_msg_id ≡ item.item_msg_id)
        × (r.read_view.created ≡ item.item_created)
        × (r.read_view.from ≡ own_from)
  unfolding same_message
  same_message_lem item r h =
      let (front, last) = and_true _ _ h in
      let (first, second) = and_true _ _ front in
      (
        (eq_iff r.read_msg_id item.item_msg_id).0 first,
        (eq_iff r.read_view.created item.item_created).0 second,
        (eq_iff r.read_view.from own_from).0 last,
      )

  module _ (limit : ℕ) (cands : List PreviewItem) (turns : ℕ → Turn) where
    IsCareful-same :
        (x y : Execution)
        → IsCareful limit cands turns x
        → y.calls ≡ x.calls
        → y.ledger ≡ x.ledger
        → y.deleted ≡ x.deleted
        → IsCareful limit cands turns y
    IsCareful-same x y h calls ledger deleted = record {
      confirmed = simp calls h.confirmed;
      recorded = simp (calls, ledger) h.recorded;
      bounded = simp deleted h.bounded;
    }

    skip-IsCareful :
        (item : PreviewItem) (reason : ExecuteReason) (x : Execution)
        → IsCareful limit cands turns x
        → IsCareful limit cands turns (skip item reason x).0
    unfolding skip
    skip-IsCareful item reason x h = IsCareful-same x (skip item reason x).0 h refl refl refl

    conclude_delete-IsCareful :
        (item : PreviewItem) (t : Turn) (answer : DeleteAnswer) (x : Execution)
        → length x.deleted < limit
        → IsCareful limit cands turns x
        → IsCareful limit cands turns (conclude_delete item t answer x).0
    unfolding conclude_delete
    conclude_delete-IsCareful item t delete_done x room h = record {
      confirmed = h.confirmed;
      recorded = h.recorded;
      bounded = omega (
        arith,
        room,
        length-append x.deleted (record { call_path = item.item_path; op_id = t.minted } ∷ []),
      );
    }
    conclude_delete-IsCareful item t delete_cancelled x room h =
        IsCareful-same x (conclude_delete item t delete_cancelled x).0 h refl refl refl
    conclude_delete-IsCareful item t delete_private x room h =
        IsCareful-same x (conclude_delete item t delete_private x).0 h refl refl refl
    conclude_delete-IsCareful item t delete_failed x room h =
        skip-IsCareful item ExecuteReason.failed_delete x h

    issue_delete-IsCareful :
        (item : PreviewItem) (t : Turn) (x : Execution)
        → length x.deleted < limit
        → IsCareful limit cands turns x
        → IsConfirmed cands turns (record { call_path = item.item_path; op_id = t.minted })
        → IsCareful limit cands turns (issue_delete item t x).0
    unfolding issue_delete record_and_delete
    issue_delete-IsCareful item t x room h good = elim (Bool-cases t.recorded) [
      | inr fails ↦ simp fails (IsCareful-same x (record x { rejected = true }) h refl refl refl)
      | inl written ↦ simp written made
    ]
      where
        made : IsCareful limit cands turns (record_and_delete item t x).0
        made =
            let call : DeleteCall = record { call_path = item.item_path; op_id = t.minted } in
            let y : Execution = record x {
              ledger = x.ledger ++ t.minted ∷ [];
              calls = x.calls ++ call ∷ [];
            } in
            conclude_delete-IsCareful item t t.deletion y room (record {
              confirmed =
                  All-append (IsConfirmed cands turns) x.calls (call ∷ []) h.confirmed (good, tt);
              recorded = ap (λ l. l ++ t.minted ∷ []) h.recorded ∙ sym (map-append_op x.calls call);
              bounded = h.bounded;
            })

    recheck-IsCareful :
        (n : ℕ) (item : PreviewItem) (r : FreshRead) (x : Execution)
        → Memᴰ item cands
        → (turns n).signal_aborted ≡ false
        → (turns n).private_now ≡ false
        → (turns n).read ≡ read_ok r
        → is_path_of (board_msg_id_of_path item.item_path) item.item_msg_id ≡ true
        → length x.deleted < limit
        → IsCareful limit cands turns x
        → IsCareful limit cands turns (recheck parse own_from now item (turns n) r x).0
    unfolding recheck by_eligibility
    recheck-IsCareful n item r x listed live not_private reread placed room h =
        elim (Bool-cases (same_message item own_from r)) [
          | inr moved ↦ simp moved (skip-IsCareful item ExecuteReason.changed x h)
          | inl same ↦ elim (Bool-cases (same_etag item.item_etag r.read_etag)) [
            | inr drifted ↦ simp (same, drifted) (skip-IsCareful item ExecuteReason.changed x h)
            | inl content ↦
                simp (same, content)
                  (verdict
                    (evaluate_cleanup_candidate parse r.read_view (turns n).acked_at own_from now)
                    refl same content)
          ]
        ]
      where
        verdict :
            (v : Eligibility)
            → evaluate_cleanup_candidate parse r.read_view (turns n).acked_at own_from now ≡ v
            → same_message item own_from r ≡ true
            → same_etag item.item_etag r.read_etag ≡ true
            → IsCareful limit cands turns (by_eligibility parse own_from now item (turns n) v x).0
        verdict (ineligible reason) eq same content =
            skip-IsCareful item (ExecuteReason.not_eligible reason) x h
        verdict eligible eq same content = issue_delete-IsCareful item (turns n) x room h (record {
          item = item;
          index = n;
          fresh = r;
          listed = listed;
          named = refl;
          not_private = not_private;
          reread = reread;
          live = live;
          well_placed =
              is_path_of_lem (board_msg_id_of_path item.item_path) item.item_msg_id placed;
          same_id = (same_message_lem item r same).0;
          same_created = (same_message_lem item r same).1;
          same_sender = (same_message_lem item r same).2;
          same_content = same_etag_lem item.item_etag r.read_etag content;
          removable = (evaluate-IsRemovable parse r.read_view (turns n).acked_at own_from now).0 eq;
        })

    after_read-IsCareful :
        (n : ℕ) (item : PreviewItem) (answer : ReadAnswer) (x : Execution)
        → Memᴰ item cands
        → (turns n).signal_aborted ≡ false
        → (turns n).private_now ≡ false
        → (turns n).read ≡ answer
        → is_path_of (board_msg_id_of_path item.item_path) item.item_msg_id ≡ true
        → length x.deleted < limit
        → IsCareful limit cands turns x
        → IsCareful limit cands turns (after_read parse own_from now item (turns n) answer x).0
    unfolding after_read
    after_read-IsCareful n item read_private x listed live open_mode eq placed room h =
        IsCareful-same x (record x { private_transition = true }) h refl refl refl
    after_read-IsCareful n item read_cancelled x listed live open_mode eq placed room h =
        IsCareful-same x (record x { was_aborted = true }) h refl refl refl
    after_read-IsCareful n item read_failed x listed live open_mode eq placed room h =
        skip-IsCareful item ExecuteReason.unavailable x h
    after_read-IsCareful n item read_ineligible x listed live open_mode eq placed room h =
        skip-IsCareful item ExecuteReason.ineligible_read x h
    after_read-IsCareful n item (read_ok r) x listed live open_mode eq placed room h =
        recheck-IsCareful n item r x listed live open_mode eq placed room h

    execute_item-IsCareful :
        (n : ℕ) (item : PreviewItem) (x : Execution)
        → Memᴰ item cands
        → IsCareful limit cands turns x
        → IsCareful limit cands turns (execute_item parse own_from now limit item (turns n) x).0
    unfolding execute_item
    execute_item-IsCareful n item x listed h = elim (Bool-cases (turns n).signal_aborted) [
      | inl aborted ↦
          simp aborted (IsCareful-same x (record x { was_aborted = true }) h refl refl refl)
      | inr live ↦ elim (Bool-cases (turns n).private_now) [
        | inl private ↦
            simp (live, private)
              (IsCareful-same x (record x { private_transition = true }) h refl refl refl)
        | inr open_mode ↦ elim (Bool-cases (leb limit (length x.deleted))) [
          | inl full ↦
              simp (live, open_mode, full)
                (IsCareful-same x (record x { deleted_bound_hit = true }) h refl refl refl)
          | inr room ↦
              elim (Bool-cases
                (is_path_of (board_msg_id_of_path item.item_path) item.item_msg_id)) [
                  | inr astray ↦
                      simp (live, open_mode, room, astray)
                        (skip-IsCareful item ExecuteReason.id_mismatch x h)
                  | inl placed ↦
                      let below : length x.deleted < limit = ground (arith, room) in
                      simp (live, open_mode, room, placed)
                        (after_read-IsCareful n item (turns n).read x listed live open_mode refl
                          placed below h)
                ]
        ]
      ]
    ]

    execute_items-IsCareful :
        (n : ℕ) (items : List PreviewItem) (x : Execution)
        → ((i : PreviewItem) → Memᴰ i items → Memᴰ i cands)
        → IsCareful limit cands turns x
        → IsCareful limit cands turns (execute_items parse own_from now limit turns n items x)
    unfolding execute_items go_on
    execute_items-IsCareful n [] x listed h = h
    execute_items-IsCareful n (item ∷ items) x listed h =
        let r = execute_item parse own_from now limit item (turns n) x in
        let first : IsCareful limit cands turns r.0 =
          execute_item-IsCareful n item x (listed item (Memᴰ.head refl)) h in
        elim (Bool-cases r.1) [
          | inl more ↦
              simp more
                (execute_items-IsCareful (suc n) items r.0 (λ i m. listed i (Memᴰ.tail m)) first)
          | inr last ↦ simp last first
        ]

-- Whatever the candidates' turns meet, a run that starts is by the identity that made the preview,
-- and calls the removal only for candidates of the preview that were read again while the signal
-- had not fired and the mode was open: the path carries the id of the preview, the read returned
-- that id, the creation time of the preview and this agent as the sender, and, when the preview had
-- an etag, the same etag; and the message expired and was acknowledged both more than 30 days ago.
-- The ledger has the ids of exactly these calls, and no more than max(1, maxDeletes) of them are
-- reported as done.
pub execute_board_cleanup-IsCareful :
    (parse : String → Option ℕ) (own_from : String) (now : ℕ) (p : Preview) (is_private : Bool)
    (max_deletes : ℕ) (turns : ℕ → Turn) (x : Execution)
    → execution_of (execute_board_cleanup parse own_from now (some p) is_private max_deletes turns)
      ≡ some x
    → (own_from ≡ p.planned_by)
      × IsCareful parse own_from now (max 1 max_deletes) p.candidates turns x
unfolding execute_board_cleanup conclude_run no_deletes
execute_board_cleanup-IsCareful parse own_from now p is_private max_deletes turns x h =
    elim (Bool-cases (str_eq own_from "")) [
      | inl nameless ↦ let got : none ≡ some x = simp nameless at h in cc got
      | inr named ↦ elim (Bool-cases (str_eq own_from p.planned_by)) [
        | inr other ↦ let got : none ≡ some x = simp (named, other) at h in cc got
        | inl same ↦ elim (Bool-cases is_private) [
          | inl private ↦ let got : none ≡ some x = simp (named, same, private) at h in cc got
          | inr open_mode ↦ elim (Bool-cases ran.rejected) [
            | inl bad ↦
                let got : some ran ≡ some x = simp (named, same, open_mode, bad) at h in
                finish same (cc got)
            | inr good ↦ elim (Bool-cases ran.private_transition) [
              | inl stops ↦
                  let got : some ran ≡ some x = simp (named, same, open_mode, good, stops) at h in
                  finish same (cc got)
              | inr ends ↦
                  let got : some ran ≡ some x = simp (named, same, open_mode, good, ends) at h in
                  finish same (cc got)
            ]
          ]
        ]
      ]
    ]
  where
    ran : Execution
    ran =
        execute_items parse own_from now (max 1 max_deletes) turns 0 p.candidates
          (no_deletes parse own_from now)

    careful : IsCareful parse own_from now (max 1 max_deletes) p.candidates turns ran
    careful =
        execute_items-IsCareful parse own_from now (max 1 max_deletes) p.candidates turns 0
          p.candidates (no_deletes parse own_from now) (λ i m. m)
          (record { confirmed = tt; recorded = refl; bounded = omega arith })

    finish :
        str_eq own_from p.planned_by ≡ true
        → ran ≡ x
        → (own_from ≡ p.planned_by)
          × IsCareful parse own_from now (max 1 max_deletes) p.candidates turns x
    finish same eq = ((eq_iff own_from p.planned_by).0 same, rw eq at careful)
