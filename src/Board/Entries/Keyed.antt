-- ===== src/Board/Entries/Keyed.antt =====
-- src/board/delivery.ts: the entries as a map from the identities of messages.
use pi_kiwifs_memory.Prelude.{
  ◌≡◌, refl, ◌∙◌, String, Bool, true, false, none, some, List, [], ◌∷◌, filter, str_eq, eq_iff,
  eq_refl, arith, Bool-cases, inl, inr, ap,
}
use pi_kiwifs_memory.Board.Entries.{DeliveryEntry, get_entry, put}

-- No two entries of one message.
abbrev pub Distinct : List DeliveryEntry → Type 0
Distinct [] = Unit
Distinct (e ∷ es) = (get_entry e.msg_id es ≡ none) × Distinct es

pub get-filter :
    (p : DeliveryEntry → Bool) (id : String) (es : List DeliveryEntry) (e : DeliveryEntry)
    → get_entry id es ≡ some e
    → p e ≡ true
    → get_entry id (filter p es) ≡ some e
unfolding get_entry
get-filter p id [] e h k = cc
get-filter p id (x ∷ xs) e h k = elim (Bool-cases (str_eq x.msg_id id)) [
  | inl same ↦ let eq : x ≡ e = cc (simp same at h) in rw (ap p eq ∙ k, same) (ap some eq)
  | inr other ↦
      let rest = get-filter p id xs e (simp other at h) k in
      elim (Bool-cases (p x)) [
        | inl in_it ↦ rw (in_it, get_entry, other) rest
        | inr out ↦ rw out rest
      ]
]

pub get-filter-none :
    (p : DeliveryEntry → Bool) (id : String) (es : List DeliveryEntry)
    → get_entry id es ≡ none
    → get_entry id (filter p es) ≡ none
unfolding get_entry
get-filter-none p id [] h = h
get-filter-none p id (x ∷ xs) h = ground (arith, get-filter-none p id xs)

pub get-id :
    (id : String) (es : List DeliveryEntry) (e : DeliveryEntry)
    → get_entry id es ≡ some e
    → str_eq e.msg_id id ≡ true
unfolding get_entry
get-id id [] e h = cc
get-id id (x ∷ xs) e h = elim (Bool-cases (str_eq x.msg_id id)) [
  | inl same ↦ let eq : x ≡ e = cc (simp same at h) in rw (← eq) same
  | inr other ↦ get-id id xs e (simp other at h)
]

pub get-put-none :
    (id : String) (e : DeliveryEntry) (es : List DeliveryEntry)
    → get_entry id es ≡ none
    → str_eq e.msg_id id ≡ false
    → get_entry id (put e es) ≡ none
unfolding get_entry put
get-put-none id e [] h k = rw k
get-put-none id e (x ∷ xs) h k = ground (arith, get-put-none id e xs)

pub get-put_other :
    (id : String) (e : DeliveryEntry) (es : List DeliveryEntry)
    → str_eq e.msg_id id ≡ false
    → get_entry id (put e es) ≡ get_entry id es
unfolding get_entry put
get-put_other id e [] k = rw k
get-put_other id e (x ∷ xs) k = ground (arith, get-put_other id e xs k, eq_iff x.msg_id e.msg_id)

pub get-put_self :
    (e : DeliveryEntry) (es : List DeliveryEntry) → get_entry e.msg_id (put e es) ≡ some e
unfolding get_entry put
get-put_self e [] = rw (eq_refl e.msg_id)
get-put_self e (x ∷ xs) = ground (arith, get-put_self e xs, eq_refl e.msg_id)

pub Distinct-filter :
    (p : DeliveryEntry → Bool) (es : List DeliveryEntry) → Distinct es → Distinct (filter p es)
Distinct-filter p [] d = tt
Distinct-filter p (x ∷ xs) d = elim (Bool-cases (p x)) [
  | inl in_it ↦ rw in_it (get-filter-none p x.msg_id xs d.0, Distinct-filter p xs d.1)
  | inr out ↦ rw out (Distinct-filter p xs d.1)
]

pub Distinct-put : (e : DeliveryEntry) (es : List DeliveryEntry) → Distinct es → Distinct (put e es)
unfolding put get_entry
Distinct-put e [] d = (refl, tt)
Distinct-put e (x ∷ xs) d = elim (Bool-cases (str_eq x.msg_id e.msg_id)) [
  | inl same ↦ rw same (rw ((eq_iff x.msg_id e.msg_id).0 same) at d.0, d.1)
  | inr other ↦ rw other (
    get-put-none x.msg_id e xs d.0
        (ground (arith, eq_iff x.msg_id e.msg_id, eq_iff e.msg_id x.msg_id)),
    Distinct-put e xs d.1,
  )
]
