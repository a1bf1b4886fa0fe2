-- ===== src/Board/Entries/Open.antt =====
-- src/board/delivery.ts: the entries that are not settled, under every call.
use pi_kiwifs_memory.Prelude.{
  ℕ, zero, suc, ◌-◌, ◌≡◌, refl, ◌∙◌, String, Bool, false, ◌&&◌, ◌||◌, not, none, some, List, [],
  ◌∷◌, any, filter, length, is_some, ltb, str_eq, eq_iff, arith, Bool-cases, Option-cases, inl, inr,
  ap,
}
use pi_kiwifs_memory.Board.Entries.{
  DeliveryEntry, DeliveryState, get_entry, put, is_stale, insert_by_age, sort_by_age, is_settled,
  victims, evict, newest, save, set_last_seq, record_delivered, record_skip, record_ack,
  is_collected, gc, StateCall, setting, delivering, skipping, acking, collecting, state_step,
  max_tracked_entries,
}
use pi_kiwifs_memory.Board.Entries.Keyed.{
  Distinct, Distinct-filter, Distinct-put, get-filter, get-id, get-put_other, get-put_self,
}

-- Whether a settled entry has the identity `id`.
abbrev settled_here : String → List DeliveryEntry → Bool
settled_here id es = any (λ e. is_settled e && str_eq e.msg_id id) es

settled_here-none :
    (id : String) (es : List DeliveryEntry) → get_entry id es ≡ none → settled_here id es ≡ false
unfolding get_entry
settled_here-none id [] h = refl
settled_here-none id (x ∷ xs) h = ground (arith, settled_here-none id xs)

settled_here-open :
    (id : String) (es : List DeliveryEntry) (e : DeliveryEntry)
    → Distinct es
    → get_entry id es ≡ some e
    → is_settled e ≡ false
    → settled_here id es ≡ false
unfolding get_entry
settled_here-open id [] e d h k = refl
settled_here-open id (x ∷ xs) e d h k = elim (Bool-cases (str_eq x.msg_id id)) [
  | inl same ↦
      let eq : x ≡ e = cc (simp same at h) in
      let gone = settled_here-none id xs (rw ((eq_iff x.msg_id id).0 same) at d.0) in
      rw (ap is_settled eq ∙ k) gone
  | inr other ↦
      let rest = settled_here-open id xs e d.1 (simp other at h) k in ground (arith, rest, other)
]

settled_here-insert :
    (id : String) (e : DeliveryEntry) (es : List DeliveryEntry)
    → settled_here id (insert_by_age e es) ≡ settled_here id (e ∷ es)
unfolding insert_by_age
settled_here-insert id e [] = refl
settled_here-insert id e (x ∷ xs) = ground (arith, settled_here-insert id e xs)

settled_here-sort :
    (id : String) (es : List DeliveryEntry) → settled_here id (sort_by_age es) ≡ settled_here id es
unfolding sort_by_age
settled_here-sort id [] = refl
settled_here-sort id (e ∷ es) =
    settled_here-insert id e (sort_by_age es)
    ∙ ap (λ b. (is_settled e && str_eq e.msg_id id) || b) (settled_here-sort id es)

victims-settled :
    (id : String) (n : ℕ) (es : List DeliveryEntry)
    → settled_here id es ≡ false
    → any (λ v. str_eq v id) (victims n es) ≡ false
unfolding victims
victims-settled id zero es h = refl
victims-settled id (suc n) [] h = refl
victims-settled id (suc n) (e ∷ es) h = elim (Bool-cases (is_settled e)) [
  | inl settled ↦
      let rest = victims-settled id n es in rw (settled, victims) (ground (arith, rest, h, settled))
  | inr unsettled ↦
      rw (unsettled, victims) (victims-settled id (suc n) es (ground (arith, h, unsettled)))
]

evict-open :
    (id : String) (es : List DeliveryEntry) (e : DeliveryEntry)
    → Distinct es
    → get_entry id es ≡ some e
    → is_settled e ≡ false
    → get_entry id (evict es) ≡ some e
unfolding evict
evict-open id es e d h k =
    let same = (eq_iff e.msg_id id).0 (get-id id es e h) in
    let spared =
      victims-settled id (length es - max_tracked_entries) (sort_by_age es)
        (settled_here-sort id es ∙ settled_here-open id es e d h k) in
    get-filter _ id es e h (rw (same, spared) refl)

Distinct-evict : (es : List DeliveryEntry) → Distinct es → Distinct (evict es)
unfolding evict
Distinct-evict es d = Distinct-filter _ es d

-- The entries are distinct, and that of `id` is neither acknowledged nor skipped.
pub record IsHeld (id : String) (es : List DeliveryEntry) : Type 0 where
  pub distinct : Distinct es
  pub entry : DeliveryEntry
  pub found : get_entry id es ≡ some entry
  pub unsettled : is_settled entry ≡ false

not_stale : (now : ℕ) (e : DeliveryEntry) → is_settled e ≡ false → is_stale now e.acked_at ≡ false
unfolding is_settled is_stale
not_stale now e h = elim (Option-cases e.acked_at) [
  | inl open_entry ↦ rw open_entry
  | inr (at, acked) ↦ absurd (cc (simp acked at h))
]

save-IsHeld :
    (id : String) (st : DeliveryState) → IsHeld id st.entries → IsHeld id (save st).entries
unfolding save
save-IsHeld id st v =
    let pruned =
      Distinct-filter (λ e. not (is_stale (newest st.entries) e.acked_at)) st.entries v.distinct in
    let fresh = not_stale (newest st.entries) v.entry v.unsettled in
    let found =
      get-filter (λ e. not (is_stale (newest st.entries) e.acked_at)) id st.entries v.entry v.found
        (rw fresh refl) in
    record {
      distinct = Distinct-evict _ pruned;
      entry = v.entry;
      found = evict-open id _ v.entry pruned found v.unsettled;
      unsettled = v.unsettled;
    }

put-IsHeld :
    (id : String) (e : DeliveryEntry) (es : List DeliveryEntry)
    → (is_settled e && str_eq e.msg_id id) ≡ false
    → IsHeld id es
    → IsHeld id (put e es)
put-IsHeld id e es h v = elim (Bool-cases (str_eq e.msg_id id)) [
  | inl same ↦ record {
    distinct = Distinct-put e es v.distinct;
    entry = e;
    found = rw (← (eq_iff e.msg_id id).0 same) (get-put_self e es);
    unsettled = ground (arith, h, same);
  }
  | inr other ↦ record {
    distinct = Distinct-put e es v.distinct;
    entry = v.entry;
    found = get-put_other id e es other ∙ v.found;
    unsettled = v.unsettled;
  }
]

-- Whether a call settles the message `id`.
abbrev pub settles : StateCall → String → Bool
settles (setting seq) id = false
settles (delivering e now) id = is_settled e && str_eq e.msg_id id
settles (skipping e skip now) id = str_eq e.msg_id id
settles (acking other now) id = str_eq other id
settles (collecting now) id = false

record_ack-IsHeld :
    (id other : String) (now : ℕ) (st : DeliveryState)
    → str_eq other id ≡ false
    → IsHeld id st.entries
    → IsHeld id (record_ack other now st).0.entries
unfolding record_ack
record_ack-IsHeld id other now st h v = elim (Option-cases (get_entry other st.entries)) [
  | inl unknown ↦ rw (unknown, record_ack) v
  | inr (e, known) ↦ elim (Bool-cases (is_some e.acked_at)) [
    | inl again ↦ rw (known, record_ack, again) v
    | inr first ↦
        let same = (eq_iff e.msg_id other).0 (get-id other st.entries e known) in
        let differs : str_eq e.msg_id id ≡ false = rw same h in
        rw (known, record_ack, first)
          (save-IsHeld id _ (
            put-IsHeld id (record e { acked_at = some now }) st.entries (rw differs (ground arith))
              v))
  ]
]

not_collected :
    (now : ℕ) (e : DeliveryEntry)
    → is_settled e ≡ false
    → e.skipped_at ≡ none
    → is_collected now e ≡ false
unfolding is_settled is_collected is_stale
not_collected now e h k = elim (Option-cases e.acked_at) [
  | inl open_entry ↦ rw (open_entry, k)
  | inr (at, acked) ↦ absurd (cc (simp acked at h))
]

gc-IsHeld :
    (id : String) (now : ℕ) (st : DeliveryState) (v : IsHeld id st.entries)
    → v.entry.skipped_at ≡ none
    → IsHeld id (gc now st).0.entries
unfolding gc
gc-IsHeld id now st v k =
    let left : IsHeld id (filter (λ e. not (is_collected now e)) st.entries) = record {
      distinct = Distinct-filter _ st.entries v.distinct;
      entry = v.entry;
      found =
          get-filter (λ e. not (is_collected now e)) id st.entries v.entry v.found
            (rw (not_collected now v.entry v.unsettled k) refl);
      unsettled = v.unsettled;
    } in
    elim (Bool-cases
      (ltb 0 (length st.entries - length (filter (λ e. not (is_collected now e)) st.entries)))) [
        | inl removed ↦ rw removed (save-IsHeld id _ left)
        | inr nothing ↦ rw nothing v
      ]

-- A message that is neither acknowledged nor skipped, and has no time of a skip, stays tracked so
-- under every call that does not settle it, whatever is pruned, evicted or collected. The entries
-- stay distinct if they were.
pub state_step-IsHeld :
    (call : StateCall) (id : String) (st : DeliveryState) (v : IsHeld id st.entries)
    → v.entry.skipped_at ≡ none
    → settles call id ≡ false
    → IsHeld id (state_step call st).entries
unfolding state_step set_last_seq record_delivered record_skip is_settled
state_step-IsHeld (setting seq) id st v k h = save-IsHeld id (record st { last_seq = some seq }) v
state_step-IsHeld (delivering e now) id st v k h =
    save-IsHeld id (record st { entries = put (record e { delivered_at = some now }) st.entries })
      (put-IsHeld id (record e { delivered_at = some now }) st.entries h v)
state_step-IsHeld (skipping e skip now) id st v k h =
    save-IsHeld id
      (record st {
        entries = put (record e { skip = some skip; skipped_at = some now }) st.entries;
      })
      (put-IsHeld id (record e { skip = some skip; skipped_at = some now }) st.entries
        (rw h (ground arith)) v)
state_step-IsHeld (acking other now) id st v k h = record_ack-IsHeld id other now st h v
state_step-IsHeld (collecting now) id st v k h = gc-IsHeld id now st v k
