-- ===== src/Prelude/Lists.antt =====
-- Lists measured by native numbers, Boolean filters and searches, and predicates by recursion.
use Prim.Native.Nat.{ℕ, zero, suc, ◌+◌, ◌-◌, ◌≤◌}
use mathlib.Core.Path.{◌≡◌, refl, sym}
use mathlib.Core.Logic.{inl, inr}
use mathlib.Core.Bool.{Bool, true, false, ◌||◌, ◌&&◌}
use mathlib.Core.Option.{Option, none, some}
use Prim.Native.Char.{code}
use Prim.Native.String.{String}
use mathlib.Core.List.{List, [], ◌∷◌, ◌++◌, Memᴰ}
use native.Mathlib.Omega.{arith}
use pi_kiwifs_memory.Prelude.Tests.{Bool-cases, if◌then◌else◌}

-- The code points of a text.
abbrev pub codes : String → List ℕ
codes String.[] = []
codes (String.◌∷◌ c s) = code c ∷ codes s

module _ {ℓ} {A : Type ℓ} where
  abbrev pub length : List A → ℕ
  length [] = 0
  length (x ∷ xs) = suc (length xs)

  abbrev pub drop : ℕ → List A → List A
  drop zero xs = xs
  drop (suc n) [] = []
  drop (suc n) (x ∷ xs) = drop n xs

  -- `Array.prototype.filter`, `find` and `some`, with a Boolean test.
  abbrev pub filter : (A → Bool) → List A → List A
  filter p [] = []
  filter p (x ∷ xs) = if p x then x ∷ filter p xs else filter p xs

  abbrev pub find : (A → Bool) → List A → Option A
  find p [] = none
  find p (x ∷ xs) = if p x then some x else find p xs

  abbrev pub any : (A → Bool) → List A → Bool
  any p [] = false
  any p (x ∷ xs) = p x || any p xs

  abbrev pub all : (A → Bool) → List A → Bool
  all p [] = true
  all p (x ∷ xs) = p x && all p xs

  pub length-append : (xs ys : List A) → length (xs ++ ys) ≡ length xs + length ys
  length-append [] ys = omega arith
  length-append (x ∷ xs) ys = omega (arith, length-append xs ys)

  pub length-drop : (n : ℕ) (xs : List A) → length (drop n xs) ≡ length xs - n
  length-drop zero xs = omega arith
  length-drop (suc n) [] = omega arith
  length-drop (suc n) (x ∷ xs) = omega (arith, length-drop n xs)

  pub length-filter : (p : A → Bool) (xs : List A) → length (filter p xs) ≤ length xs
  length-filter p [] = omega arith
  length-filter p (x ∷ xs) = ground (arith, length-filter p xs)

  pub Mem-append_left : (xs ys : List A) {a : A} → Memᴰ a xs → Memᴰ a (xs ++ ys)
  Mem-append_left [] ys m = elim m [ ]
  Mem-append_left (x ∷ xs) ys (Memᴰ.head e) = Memᴰ.head e
  Mem-append_left (x ∷ xs) ys (Memᴰ.tail m) = Memᴰ.tail (Mem-append_left xs ys m)

  pub Mem-append_right : (xs : List A) {ys : List A} {a : A} → Memᴰ a ys → Memᴰ a (xs ++ ys)
  Mem-append_right [] m = m
  Mem-append_right (x ∷ xs) m = Memᴰ.tail (Mem-append_right xs m)

  pub Mem-append_last : (xs : List A) (a : A) → Memᴰ a (xs ++ a ∷ [])
  Mem-append_last [] a = Memᴰ.head refl
  Mem-append_last (x ∷ xs) a = Memᴰ.tail (Mem-append_last xs a)

  filter-mem_head :
      (p : A → Bool) {a : A} (x : A) (xs : List A)
      → p x ≡ true
      → (Memᴰ a (filter p xs) → Memᴰ a xs × (p a ≡ true))
      → Memᴰ a (x ∷ filter p xs)
      → Memᴰ a (x ∷ xs) × (p a ≡ true)
  filter-mem_head p x xs h rest (Memᴰ.head e) = (Memᴰ.head e, rw e h)
  filter-mem_head p x xs h rest (Memᴰ.tail m) = let (m', k) = rest m in (Memᴰ.tail m', k)

  pub mem-filter :
      (p : A → Bool) {a : A} (xs : List A) → Memᴰ a xs → p a ≡ true → Memᴰ a (filter p xs)
  mem-filter p [] m h = elim m [ ]
  mem-filter p (x ∷ xs) (Memᴰ.head e) h = rw (rw e at h) (Memᴰ.head e)
  mem-filter p (x ∷ xs) (Memᴰ.tail m) h = elim (Bool-cases (p x)) [
    | inl in_it ↦ rw in_it (Memᴰ.tail (mem-filter p xs m h))
    | inr out ↦ rw out (mem-filter p xs m h)
  ]

  -- What a filter keeps was there, and passes the test.
  pub filter-mem :
      (p : A → Bool) {a : A} (xs : List A) → Memᴰ a (filter p xs) → Memᴰ a xs × (p a ≡ true)
  filter-mem p [] m = elim m [ ]
  filter-mem p {a} (x ∷ xs) m = elim (Bool-cases (p x)) [
    | inl in_it ↦ filter-mem_head p x xs in_it (filter-mem p xs) (rw in_it at m)
    | inr out ↦ let (m', h) = filter-mem p xs (rw out at m) in (Memᴰ.tail m', h)
  ]

  pub mem-find :
      (p : A → Bool) {a : A} (xs : List A) → find p xs ≡ some a → Memᴰ a xs × (p a ≡ true)
  mem-find p [] h = cc
  mem-find p {a} (x ∷ xs) h = elim (Bool-cases (p x)) [
    | inl hit ↦
        let eq : some x ≡ some a = rw hit at h in
        let same : x ≡ a = cc eq in (Memᴰ.head (sym same), rw (← same) hit)
    | inr miss ↦ let (m, k) = mem-find p xs (rw miss at h) in (Memᴰ.tail m, k)
  ]

module _ {ℓ κ} {A : Type ℓ} (P : A → Type κ) where
  abbrev pub All : List A → Type κ
  All [] = Unit
  All (x ∷ xs) = P x × All xs

  pub All-append : (xs ys : List A) → All xs → All ys → All (xs ++ ys)
  All-append [] ys hx hy = hy
  All-append (x ∷ xs) ys hx hy = (hx.0, All-append xs ys hx.1 hy)

  pub All-tabulate : (xs : List A) → ((x : A) → Memᴰ x xs → P x) → All xs
  All-tabulate [] f = tt
  All-tabulate (x ∷ xs) f = (f x (Memᴰ.head refl), All-tabulate xs (λ y m. f y (Memᴰ.tail m)))

  pub mem-All : (xs : List A) {a : A} → All xs → Memᴰ a xs → P a
  mem-All [] h m = elim m [ ]
  mem-All (x ∷ xs) h (Memᴰ.head e) = rw e h.0
  mem-All (x ∷ xs) h (Memᴰ.tail m) = mem-All xs h.1 m
