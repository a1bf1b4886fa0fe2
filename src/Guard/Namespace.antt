-- ===== src/Guard/Namespace.antt =====
-- src/domain/paths.ts: what the test of the memory namespace finds.
use pi_kiwifs_memory.Prelude.{
  ℕ, ◌+◌, ◌≡◌, ◌≢◌, ◌⊎◌, inl, inr, refl, String, true, false, none, some, List, [], ◌∷◌, ◌++◌,
  Bool-cases, Option-cases, ◌==◌, str_eq, eq_iff, codes, arith, if◌then◌else◌,
}
use pi_kiwifs_memory.Guard.{strip_prefix, has_dot_dot, is_owner_scope, path_within_memory_namespace}

-- A text behind `..`: nothing, or what begins with a slash.
abbrev pub IsBehindPart : List ℕ → Type 0
IsBehindPart [] = Unit
IsBehindPart (c ∷ cs) = c ≡ b'/'

-- None of the parts between slashes is `..`.
pub record HasNoDotDot (text : List ℕ) : Type 0 where
  pub not_first : (b : List ℕ) → IsBehindPart b → text ≢ b'.' ∷ b'.' ∷ b
  pub not_later : (a b : List ℕ) → IsBehindPart b → text ≢ a ++ b'/' ∷ b'.' ∷ b'.' ∷ b

-- The scope is the owner's, and the path is its name, `/memory/` and a text that does not climb
-- out.
pub record IsWithin (path s : String) : Type 0 where
  pub rest : List ℕ
  pub owned : (s ≡ "personal") ⊎ ((name : List ℕ) × (codes s ≡ codes "project/" ++ name))
  pub placed : codes path ≡ (codes s ++ codes "/memory/") ++ rest
  pub inside : HasNoDotDot rest

strip_prefix_lem : (ps text rest : List ℕ) → strip_prefix ps text ≡ some rest → text ≡ ps ++ rest
unfolding strip_prefix
strip_prefix_lem [] text rest h = cc h
strip_prefix_lem (p ∷ ps) [] rest h = cc h
strip_prefix_lem (p ∷ ps) (c ∷ cs) rest h = elim (Bool-cases (p == c)) [
  | inr other ↦ let got : none ≡ some rest = simp other at h in cc got
  | inl same ↦
      let eq : c ≡ p = ground (arith, same) in
      let tail = strip_prefix_lem ps cs rest (simp same at h) in cc (eq, tail)
]

-- The scan says yes when it has read two dots and a part ends.
dots_found : (b : List ℕ) → IsBehindPart b → has_dot_dot 2 b ≡ true
unfolding has_dot_dot
dots_found [] end = refl
dots_found (c ∷ cs) end = rw end refl

first_found : (b : List ℕ) → IsBehindPart b → has_dot_dot 0 (b'.' ∷ b'.' ∷ b) ≡ true
unfolding has_dot_dot
first_found b end = dots_found b end

later_found :
    (dots : ℕ) (a b : List ℕ)
    → IsBehindPart b
    → has_dot_dot dots (a ++ b'/' ∷ b'.' ∷ b'.' ∷ b) ≡ true
unfolding has_dot_dot
later_found dots [] b end = simp (first_found b end) (ground arith)
later_found dots (c ∷ a) b end = elim (Bool-cases (c == b'/')) [
  | inl slash ↦ simp (slash, later_found 0 a b end) (ground arith)
  | inr other ↦ simp other (later_found (if c == b'.' then dots + 1 else 3) a b end)
]

has_dot_dot-HasNoDotDot : (text : List ℕ) → has_dot_dot 0 text ≡ false → HasNoDotDot text
has_dot_dot-HasNoDotDot text h = record {
  not_first = λ b end eq. cc (rw eq at h, first_found b end);
  not_later = λ a b end eq. cc (rw eq at h, later_found 0 a b end);
}

owner_scope_lem :
    (s : String)
    → is_owner_scope s ≡ true
    → (s ≡ "personal") ⊎ ((name : List ℕ) × (codes s ≡ codes "project/" ++ name))
unfolding is_owner_scope
owner_scope_lem s h = elim (Bool-cases (str_eq s "personal")) [
  | inl personal ↦ inl ((eq_iff s "personal").0 personal)
  | inr other ↦ elim (Option-cases (strip_prefix (codes "project/") (codes s))) [
    | inl none_found ↦ absurd (cc (simp (other, none_found) at h))
    | inr (name, found) ↦ inr (name, strip_prefix_lem (codes "project/") (codes s) name found)
  ]
]

pub namespaced-IsWithin :
    (path s : String) → path_within_memory_namespace path s ≡ true → IsWithin path s
unfolding path_within_memory_namespace
namespaced-IsWithin path s h = elim (Bool-cases (is_owner_scope s)) [
  | inr foreign ↦ let got : false ≡ true = simp foreign at h in cc got
  | inl own ↦ elim (Option-cases (strip_prefix (codes s ++ codes "/memory/") (codes path))) [
    | inl outside ↦ absurd (cc (simp (own, outside) at h))
    | inr (rest, found) ↦ record {
      rest = rest;
      owned = owner_scope_lem s own;
      placed = strip_prefix_lem (codes s ++ codes "/memory/") (codes path) rest found;
      inside = has_dot_dot-HasNoDotDot rest (ground (arith, simp (own, found) at h));
    }
  ]
]
