-- ===== src/Worker/Heads.antt =====
-- src/outbox/worker.ts, `runTick`: the job at the head of each scope.
use pi_kiwifs_memory.Prelude.{
  ◌≡◌, ◌≢◌, refl, sym, ◌∙◌, inl, inr, arith, List, [], ◌∷◌, ◌≤◌, Bool-cases, Memᴰ, Mem-append_left,
  Mem-append_last, ◌++◌, ◌⊎◌, ltb→lt, str_eq, eq_iff, ltb, All, mem-All,
}
use mathlib.Core.List.{append_assoc, append-nil}
use pi_kiwifs_memory.Outbox.{Job, pending_jobs}
use pi_kiwifs_memory.Worker.{put_head, heads_from, heads}

-- `hs` has a job of the scope of `j` that is not behind it.
pub record Covers (hs : List Job) (j : Job) : Type 0 where
  pub head : Job
  pub listed : Memᴰ head hs
  pub same_scope : head.scope ≡ j.scope
  pub not_behind : head.seq ≤ j.seq

abbrev pub Distinct : List Job → Type 0
Distinct [] = Unit
Distinct (h ∷ hs) = All (λ x. h.scope ≢ x.scope) hs × Distinct hs

Covers-cons : {hs : List Job} {j : Job} (x : Job) → Covers hs j → Covers (x ∷ hs) j
Covers-cons x v = record {
  head = v.head;
  listed = Memᴰ.tail v.listed;
  same_scope = v.same_scope;
  not_behind = v.not_behind;
}

Covers-first :
    (x : Job) (hs : List Job) (j : Job) → x.scope ≡ j.scope → x.seq ≤ j.seq → Covers (x ∷ hs) j
Covers-first x hs j e l = record {
  head = x;
  listed = Memᴰ.head refl;
  same_scope = e;
  not_behind = l;
}

put_head-Covers_self : (j : Job) (hs : List Job) → Covers (put_head j hs) j
unfolding put_head
put_head-Covers_self j [] = Covers-first j [] j refl (omega arith)
put_head-Covers_self j (h ∷ hs) = elim (Bool-cases (str_eq h.scope j.scope)) [
  | inl same ↦ elim (Bool-cases (ltb j.seq h.seq)) [
    | inl lower ↦ rw (same, lower) (Covers-first j hs j refl (omega arith))
    | inr not_lower ↦
        rw (same, not_lower) (Covers-first h hs j ((eq_iff _ _).0 same) (ground arith))
  ]
  | inr other ↦ rw other (Covers-cons h (put_head-Covers_self j hs))
]

split_Mem : (x : Job) (hs : List Job) {a : Job} → Memᴰ a (x ∷ hs) → (a ≡ x) ⊎ Memᴰ a hs
split_Mem x hs (Memᴰ.head e) = inl e
split_Mem x hs (Memᴰ.tail m) = inr m

Covers-split :
    (x : Job) (hs : List Job) (i : Job)
    → Covers (x ∷ hs) i
    → ((x.scope ≡ i.scope) × (x.seq ≤ i.seq)) ⊎ Covers hs i
Covers-split x hs i v = elim (split_Mem x hs v.listed) [
  | inl e ↦ inl (rw (← e) v.same_scope, rw (← e) v.not_behind)
  | inr m ↦
      inr
        (record { head = v.head; listed = m; same_scope = v.same_scope; not_behind = v.not_behind })
]

Covers-put_head : (j : Job) (hs : List Job) (i : Job) → Covers hs i → Covers (put_head j hs) i
unfolding put_head
Covers-put_head j [] i v = elim v.listed [ ]
Covers-put_head j (h ∷ hs) i v = elim (Bool-cases (str_eq h.scope j.scope)) [
  | inl same ↦ elim (Covers-split h hs i v) [
    | inl (e, l) ↦ elim (Bool-cases (ltb j.seq h.seq)) [
      | inl lower ↦
          rw (same, lower)
            (Covers-first j hs i (sym ((eq_iff _ _).0 same) ∙ e)
              (omega (arith, ltb→lt _ _ lower, l)))
      | inr not_lower ↦ rw (same, not_lower) (Covers-first h hs i e l)
    ]
    | inr rest ↦ rw same (Covers-cons _ rest)
  ]
  | inr other ↦ elim (Covers-split h hs i v) [
    | inl (e, l) ↦ rw other (Covers-first h (put_head j hs) i e l)
    | inr rest ↦ rw other (Covers-cons h (Covers-put_head j hs i rest))
  ]
]

put_head-All {κ} :
    (P : Job → Type κ) (j : Job) (hs : List Job) → P j → All P hs → All P (put_head j hs)
unfolding put_head
put_head-All P j [] p a = (p, tt)
put_head-All P j (h ∷ hs) p a = elim (Bool-cases (str_eq h.scope j.scope)) [
  | inl same ↦ elim (Bool-cases (ltb j.seq h.seq)) [
    | inl lower ↦ rw (same, lower) (p, a.1)
    | inr not_lower ↦ rw (same, not_lower) a
  ]
  | inr other ↦ rw other (a.0, put_head-All P j hs p a.1)
]

put_head-Distinct : (j : Job) (hs : List Job) → Distinct hs → Distinct (put_head j hs)
unfolding put_head
put_head-Distinct j [] d = (tt, tt)
put_head-Distinct j (h ∷ hs) d = elim (Bool-cases (str_eq h.scope j.scope)) [
  | inl same ↦ elim (Bool-cases (ltb j.seq h.seq)) [
    | inl lower ↦ rw (same, lower) (rw (← (eq_iff h.scope j.scope).0 same) d.0, d.1)
    | inr not_lower ↦ rw (same, not_lower) d
  ]
  | inr other ↦ rw other (
    put_head-All (λ x. h.scope ≢ x.scope) j hs (λ e. cc ((eq_iff h.scope j.scope).1 e, other)) d.0,
    put_head-Distinct j hs d.1,
  )
]

-- What holds of the heads found so far.
record IsHeads (seen hs : List Job) : Type 0 where
  covers : (j : Job) → Memᴰ j seen → Covers hs j
  distinct : Distinct hs
  drawn : All (λ h. Memᴰ h seen) hs

All-weaken :
    (x : Job) (seen hs : List Job)
    → All (λ h. Memᴰ h seen) hs
    → All (λ h. Memᴰ h (seen ++ x ∷ [])) hs
All-weaken x seen [] a = tt
All-weaken x seen (h ∷ hs) a = (Mem-append_left seen (x ∷ []) a.0, All-weaken x seen hs a.1)

Mem-append_cases : (xs : List Job) (x : Job) {a : Job} → Memᴰ a (xs ++ x ∷ []) → Memᴰ a xs ⊎ (a ≡ x)
Mem-append_cases [] x (Memᴰ.head e) = inr e
Mem-append_cases [] x (Memᴰ.tail m) = elim m [ ]
Mem-append_cases (y ∷ xs) x (Memᴰ.head e) = inl (Memᴰ.head e)
Mem-append_cases (y ∷ xs) x (Memᴰ.tail m) = elim (Mem-append_cases xs x m) [
  | inl m' ↦ inl (Memᴰ.tail m')
  | inr e ↦ inr e
]

put_head-IsHeads :
    (seen hs : List Job) (j : Job) → IsHeads seen hs → IsHeads (seen ++ j ∷ []) (put_head j hs)
put_head-IsHeads seen hs j v = record {
  covers = λ i m. elim (Mem-append_cases seen j m) [
    | inl old ↦ Covers-put_head j hs i (v.covers i old)
    | inr e ↦ rw e (put_head-Covers_self j hs)
  ];
  distinct = put_head-Distinct j hs v.distinct;
  drawn =
      put_head-All (λ h. Memᴰ h (seen ++ j ∷ [])) j hs (Mem-append_last seen j)
        (All-weaken j seen hs v.drawn);
}

heads_from-IsHeads :
    (js seen hs : List Job) → IsHeads seen hs → IsHeads (seen ++ js) (heads_from hs js)
unfolding heads_from
heads_from-IsHeads [] seen hs v = rw append-nil v
heads_from-IsHeads (j ∷ js) seen hs v =
    rw (← append_assoc seen (j ∷ []) js)
      (heads_from-IsHeads js (seen ++ j ∷ []) (put_head j hs) (put_head-IsHeads seen hs j v))

heads-IsHeads : (js : List Job) → IsHeads (pending_jobs js) (heads js)
unfolding heads
heads-IsHeads js =
    heads_from-IsHeads (pending_jobs js) [] []
      (record { covers = λ j m. elim m [ ]; distinct = tt; drawn = tt })

Distinct-unique :
    (hs : List Job) {a b : Job} → Distinct hs → Memᴰ a hs → Memᴰ b hs → a.scope ≡ b.scope → a ≡ b
Distinct-unique [] d m m' e = elim m [ ]
Distinct-unique (h ∷ hs) d (Memᴰ.head p) (Memᴰ.head q) e = p ∙ sym q
Distinct-unique (h ∷ hs) {b} d (Memᴰ.head p) (Memᴰ.tail m) e =
    absurd (mem-All (λ x. h.scope ≢ x.scope) hs d.0 m (rw (← p) e))
Distinct-unique (h ∷ hs) d (Memᴰ.tail m) (Memᴰ.head q) e =
    absurd (mem-All (λ x. h.scope ≢ x.scope) hs d.0 m (rw (← q) (sym e)))
Distinct-unique (h ∷ hs) d (Memᴰ.tail m) (Memᴰ.tail m') e = Distinct-unique hs d.1 m m' e

pub heads-listed : (js : List Job) {h : Job} → Memᴰ h (heads js) → Memᴰ h (pending_jobs js)
heads-listed js m = mem-All (λ x. Memᴰ x (pending_jobs js)) (heads js) (heads-IsHeads js).drawn m

-- A tick considers one job of each scope that has a pending job, and that job is the one of the
-- lowest number: a head is pending, and no pending job of its scope stands before it.
pub heads-first :
    (js : List Job) (h j : Job)
    → Memᴰ h (heads js)
    → Memᴰ j (pending_jobs js)
    → h.scope ≡ j.scope
    → Memᴰ h (pending_jobs js) × (h.seq ≤ j.seq)
heads-first js h j m p e =
    let v = heads-IsHeads js in
    let cover = v.covers j p in
    let one : cover.head ≡ h =
      Distinct-unique (heads js) v.distinct cover.listed m (cover.same_scope ∙ sym e) in
    (mem-All (λ x. Memᴰ x (pending_jobs js)) (heads js) v.drawn m, rw one at cover.not_behind)

-- No scope waits for nothing: every pending job has a head of its scope in the tick.
pub heads_complete : (js : List Job) (j : Job) → Memᴰ j (pending_jobs js) → Covers (heads js) j
heads_complete js j m = (heads-IsHeads js).covers j m
