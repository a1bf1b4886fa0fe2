-- ===== src/Board/Planning/Planned.antt =====
-- src/board/cleanup.ts: what a preview proposes, and that it accounts for every listed path.
use pi_kiwifs_memory.Prelude.{
  ℕ, suc, ◌+◌, ◌≤◌, ◌≡◌, refl, ◌∙◌, ◌⊎◌, max, String, Bool, true, false, ◌||◌, Option, none, some,
  List, [], ◌∷◌, ◌++◌, map, if◌then◌else◌, All, All-append, length, length-append, leb, str_eq,
  arith, Bool-cases, inl, inr,
}
use pi_kiwifs_memory.Board.Path.{board_msg_id_of_path}
use pi_kiwifs_memory.Board.Cleanup.{Eligibility, eligible, ineligible, evaluate_cleanup_candidate}
use pi_kiwifs_memory.Board.Cleanup.Eligible.{IsRemovable, evaluate-IsRemovable}
use pi_kiwifs_memory.Board.Execution.{FreshRead, PreviewItem}
use pi_kiwifs_memory.Board.Planning.{
  listed, PlanRead, plan_failed, plan_ineligible, plan_ok, PlanReason, Plan, planned, leave_out,
  item_of, propose, plan_read, plan_path, is_full, plan_paths, plan_listing, plan_board_cleanup,
}

-- How often a text is in a list.
abbrev pub occurrences : String → List String → ℕ
occurrences p [] = 0
occurrences p (x ∷ xs) = (if str_eq x p then 1 else 0) + occurrences p xs

occurrences-map_append :
    {A : Type 0} (p : String) (f : A → String) (xs : List A) (a : A)
    → occurrences p (map f (xs ++ a ∷ [])) ≡ occurrences p (map f xs) + occurrences p (f a ∷ [])
occurrences-map_append p f [] a = omega arith
occurrences-map_append p f (x ∷ xs) a = omega (arith, occurrences-map_append p f xs a)

module _ (parse : String → Option ℕ) (own_from : String) (now : ℕ) (read : String → PlanRead)
    (acked : String → Option ℕ) where
  -- The item is what a fresh read of its path returned, and may be removed by the acknowledgment of
  -- the path's id.
  pub record IsProposal (item : PreviewItem) : Type 0 where
    pub id : String
    pub fresh : FreshRead
    pub path_id : board_msg_id_of_path item.item_path ≡ some id
    pub just_read : read item.item_path ≡ plan_ok fresh
    pub same_read : item ≡ item_of item.item_path fresh
    pub removable : IsRemovable parse fresh.read_view (acked id) own_from now

  -- A path that is left out has no id, or no read, or its message may not be removed.
  abbrev pub IsExcused : String × PlanReason → Type 0
  IsExcused out =
      (id : String) (fresh : FreshRead)
      → board_msg_id_of_path out.0 ≡ some id
      → read out.0 ≡ plan_ok fresh
      → ¬ IsRemovable parse fresh.read_view (acked id) own_from now

  -- How many items and reasons there are.
  abbrev pub inspected : Plan → ℕ
  inspected x = length x.left_out + length x.items

  -- How many of them are for the path `p`.
  abbrev pub entries_for : String → Plan → ℕ
  entries_for p x =
      occurrences p (map (λ i. i.item_path) x.items) + occurrences p (map (λ o. o.0) x.left_out)

  -- One path gives one entry, for itself: an item by eligibility, or else an excuse.
  record IsStep (path : String) (x y : Plan) : Type 0 where
    proposals : All IsProposal x.items → All IsProposal y.items
    excuses : All IsExcused x.left_out → All IsExcused y.left_out
    one_more : inspected y ≡ suc (inspected x)
    items_bound : length y.items ≤ suc (length x.items)
    same_flag : y.read_truncated ≡ x.read_truncated
    for_path : (p : String) → entries_for p y ≡ entries_for p x + occurrences p (path ∷ [])

  leave_out-IsStep :
      (path : String) (reason : PlanReason) (x : Plan)
      → IsExcused (path, reason)
      → IsStep path x (leave_out path reason x)
  unfolding leave_out
  leave_out-IsStep path reason x excuse = record {
    proposals = λ h. h;
    excuses = λ h. All-append IsExcused x.left_out ((path, reason) ∷ []) h (excuse, tt);
    one_more = omega (arith, length-append x.left_out ((path, reason) ∷ []));
    items_bound = omega arith;
    same_flag = refl;
    for_path = λ p. omega (arith, occurrences-map_append p (λ o. o.0) x.left_out (path, reason));
  }

  propose-IsStep :
      (path id : String) (r : FreshRead) (v : Eligibility) (x : Plan)
      → board_msg_id_of_path path ≡ some id
      → read path ≡ plan_ok r
      → evaluate_cleanup_candidate parse r.read_view (acked id) own_from now ≡ v
      → IsStep path x (propose path r v x)
  unfolding propose item_of
  propose-IsStep path id r (ineligible reason) x named got eq =
      leave_out-IsStep path (PlanReason.not_eligible reason) x (λ i fresh named' got' removable.
        (let same_id : i ≡ id = cc (named, named') in
          let same_read : fresh ≡ r = cc (got, got') in
          let fits =
            (evaluate-IsRemovable parse fresh.read_view (acked i) own_from now).1 removable in
          let fits' : evaluate_cleanup_candidate parse r.read_view (acked id) own_from now
              ≡ eligible =
            rw (same_id, same_read) at fits in
          cc (eq, fits')))
  propose-IsStep path id r eligible x named got eq =
      let good : IsProposal (item_of path r) = record {
        id = id;
        fresh = r;
        path_id = named;
        just_read = got;
        same_read = refl;
        removable = (evaluate-IsRemovable parse r.read_view (acked id) own_from now).0 eq;
      } in
      record {
        proposals = λ h. All-append IsProposal x.items (item_of path r ∷ []) h (good, tt);
        excuses = λ h. h;
        one_more = omega (arith, length-append x.items (item_of path r ∷ []));
        items_bound = omega (arith, length-append x.items (item_of path r ∷ []));
        same_flag = refl;
        for_path = λ p.
            omega (arith, occurrences-map_append p (λ i. i.item_path) x.items (item_of path r));
      }

  plan_read-IsStep :
      (path id : String) (answer : PlanRead) (x : Plan)
      → board_msg_id_of_path path ≡ some id
      → read path ≡ answer
      → IsStep path x (plan_read parse own_from now read acked path id answer x)
  unfolding plan_read
  plan_read-IsStep path id plan_failed x named got =
      leave_out-IsStep path PlanReason.unreadable x
        (λ i fresh named' got' removable. cc (got, got'))
  plan_read-IsStep path id plan_ineligible x named got =
      leave_out-IsStep path PlanReason.refused_read x
        (λ i fresh named' got' removable. cc (got, got'))
  plan_read-IsStep path id (plan_ok r) x named got =
      propose-IsStep path id r
        (evaluate_cleanup_candidate parse r.read_view (acked id) own_from now) x named got refl

  plan_path-IsStep :
      (path : String) (name : Option String) (x : Plan)
      → board_msg_id_of_path path ≡ name
      → IsStep path x (plan_path parse own_from now read acked path name x)
  unfolding plan_path
  plan_path-IsStep path none x named =
      leave_out-IsStep path PlanReason.no_id x (λ i fresh named' got' removable. cc (named, named'))
  plan_path-IsStep path (some id) x named = plan_read-IsStep path id (read path) x named refl

  -- For `n p` listings of each path `p`: the bounds hold, no path has more entries than listings,
  -- and as many when the plan is not cut off, which only a bound that is met does.
  pub record IsPlanned (max_candidates max_reads : ℕ) (n : String → ℕ) (y : Plan) : Type 0 where
    pub proposals : All IsProposal y.items
    pub excuses : All IsExcused y.left_out
    pub candidates_bound : length y.items ≤ max_candidates
    pub reads_bound : inspected y ≤ max_reads
    pub within : (p : String) → entries_for p y ≤ n p
    pub accounted : y.read_truncated ≡ false → (p : String) → entries_for p y ≡ n p
    pub cut_by_bound :
        y.read_truncated ≡ true → (length y.items ≡ max_candidates) ⊎ (inspected y ≡ max_reads)

  plan_paths-IsPlanned :
      (max_candidates max_reads : ℕ) (paths : List String) (x : Plan)
      → All IsProposal x.items
      → All IsExcused x.left_out
      → length x.items ≤ max_candidates
      → inspected x ≤ max_reads
      → x.read_truncated ≡ false
      → IsPlanned max_candidates max_reads
          (λ p. entries_for p x + occurrences p paths)
          (plan_paths parse own_from now read acked max_candidates max_reads paths x)
  unfolding plan_paths is_full
  plan_paths-IsPlanned max_candidates max_reads [] x good excused few small whole = record {
    proposals = good;
    excuses = excused;
    candidates_bound = few;
    reads_bound = small;
    within = λ p. omega arith;
    accounted = λ flag p. omega arith;
    cut_by_bound = λ flag. cc (whole, flag);
  }
  plan_paths-IsPlanned max_candidates max_reads (path ∷ paths) x good excused few small whole =
      let y = plan_path parse own_from now read acked path (board_msg_id_of_path path) x in
      let step = plan_path-IsStep path (board_msg_id_of_path path) x refl in
      elim (Bool-cases (
        leb max_candidates (length x.items)
        || leb max_reads (length x.left_out + length x.items))) [
          | inl full ↦ simp full (record {
            proposals = good;
            excuses = excused;
            candidates_bound = few;
            reads_bound = small;
            within = λ p. omega arith;
            accounted = λ flag. cc flag;
            cut_by_bound = λ flag. ground (arith, full, few, small);
          })
          | inr room ↦
              let rest =
                plan_paths-IsPlanned max_candidates max_reads paths y (step.proposals good)
                  (step.excuses excused) (ground (arith, room, step.items_bound))
                  (ground (arith, room, step.one_more)) (step.same_flag ∙ whole) in
              simp room (record {
                proposals = rest.proposals;
                excuses = rest.excuses;
                candidates_bound = rest.candidates_bound;
                reads_bound = rest.reads_bound;
                within = λ p. omega (arith, rest.within p, step.for_path p);
                accounted = λ flag p. omega (arith, rest.accounted flag p, step.for_path p);
                cut_by_bound = rest.cut_by_bound;
              })
        ]

-- A preview that is made proposes only paths that carry an id, whose message a fresh read returned
-- as sent by this agent, expired and acknowledged both more than 30 days ago; a path that it leaves
-- out has no id, or could not be read, or its message may not be removed. It has no more than
-- max(1, maxCandidates) items and max(1, maxReads) entries. No path has more entries, items or
-- reasons, than it was listed times, and each has exactly as many when the preview was not cut off,
-- which happens only at one of the two bounds.
pub plan_board_cleanup-IsPlanned :
    (parse : String → Option ℕ) (own_from : String) (now : ℕ) (read : String → PlanRead)
    (acked : String → Option ℕ) (max_candidates max_reads : ℕ) (paths : List String) (cut : Bool)
    (y : Plan)
    → plan_board_cleanup parse own_from now read acked max_candidates max_reads (listed paths cut)
      ≡ planned y cut
    → IsPlanned parse own_from now read acked
        (max 1 max_candidates)
        (max 1 max_reads)
        (λ p. occurrences p paths)
        y
unfolding plan_board_cleanup plan_listing
plan_board_cleanup-IsPlanned parse own_from now read acked max_candidates max_reads paths cut y h =
    elim (Bool-cases (str_eq own_from "")) [
      | inl nameless ↦ cc (simp nameless at h)
      | inr named ↦ finish (simp named at h)
    ]
  where
    none_yet : Plan
    none_yet = record { items = []; left_out = []; read_truncated = false }

    counted :
        {z : Plan}
        → IsPlanned parse own_from now read acked
            (max 1 max_candidates)
            (max 1 max_reads)
            (λ p. entries_for parse own_from now read acked p none_yet + occurrences p paths)
            z
        → IsPlanned parse own_from now read acked
            (max 1 max_candidates)
            (max 1 max_reads)
            (λ p. occurrences p paths)
            z
    counted made = record {
      proposals = made.proposals;
      excuses = made.excuses;
      candidates_bound = made.candidates_bound;
      reads_bound = made.reads_bound;
      within = λ p. omega (arith, made.within p);
      accounted = λ flag p. omega (arith, made.accounted flag p);
      cut_by_bound = made.cut_by_bound;
    }

    finish :
        planned
            (plan_paths parse own_from now read acked
              (max 1 max_candidates)
              (max 1 max_reads)
              paths
              none_yet)
            cut
          ≡ planned y cut
        → IsPlanned parse own_from now read acked
            (max 1 max_candidates)
            (max 1 max_reads)
            (λ p. occurrences p paths)
            y
    finish same =
        let eq : plan_paths parse own_from now read acked (max 1 max_candidates) (max 1 max_reads)
              paths none_yet
            ≡ y =
          cc same in
        let made =
          plan_paths-IsPlanned parse own_from now read acked (max 1 max_candidates)
            (max 1 max_reads) paths none_yet tt tt (omega arith) (omega arith) refl in
        rw eq at (counted made)
