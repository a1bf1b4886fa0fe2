-- ===== src/Backup/Verify/Range.antt =====
-- src/backup/verify.ts: the checks of the covered range.
use pi_kiwifs_memory.Prelude.{
  ℕ, ◌≡◌, ◌≢◌, refl, String, Bool, true, false, ◌&&◌, not, Option, none, some, List, [], ◌∷◌, ◌++◌,
  length, eq_refl, ◌==◌, ==_iff, Bool-cases, inl, inr, is_some, arith, ltb,
}
use pi_kiwifs_memory.Backup.Verify.{
  BackupManifest, first_of, last_of, when, Checked, range_issues, same_option,
}

pub same_number : (n : ℕ) → (n == n) ≡ true
same_number n = ground arith

pub last_of_some : (x : String) (xs : List String) → is_some (last_of (x ∷ xs)) ≡ true
unfolding last_of
last_of_some x [] = refl
last_of_some x (y ∷ ys) = last_of_some y ys

pub same_option_refl : (o : Option String) → same_option o o ≡ true
unfolding same_option
same_option_refl none = refl
same_option_refl (some s) = eq_refl s

pub and_false : (b : Bool) → (b && false) ≡ false
and_false true = refl
and_false false = refl

pub all_empty {ℓ} :
    {A : Type ℓ} {a b c d e : List A}
    → a ≡ []
    → b ≡ []
    → c ≡ []
    → d ≡ []
    → e ≡ []
    → a ++ b ++ c ++ d ++ e ≡ []
all_empty a b c d e = rw (a, b, c, d, e) refl

pub empty-left {ℓ} : {A : Type ℓ} (xs ys : List A) → xs ++ ys ≡ [] → xs ≡ []
empty-left [] ys h = refl
empty-left (x ∷ xs) ys h = absurd (cc h)

pub empty-right {ℓ} : {A : Type ℓ} (xs ys : List A) → xs ++ ys ≡ [] → ys ≡ []
empty-right [] ys h = h
empty-right (x ∷ xs) ys h = absurd (cc h)

pub fourth_empty {ℓ} : {A : Type ℓ} (a b c d e : List A) → a ++ b ++ c ++ d ++ e ≡ [] → d ≡ []
fourth_empty a b c d e h = empty-right (a ++ b ++ c) d (empty-left (a ++ b ++ c ++ d) e h)

pub count_issue :
    (m : BackupManifest) (c : Checked)
    → m.entry_count ≢ length c.covered
    → c.ordered_ok ≡ true
    → range_issues m c ≢ []
unfolding range_issues when
count_issue m c differs ordered empty = elim (Bool-cases (m.entry_count == length c.covered)) [
  | inl same ↦ differs ((==_iff m.entry_count (length c.covered)).0 same)
  | inr other ↦ cc (simp (other, ordered) at empty)
]

pub and_and_false : (a b : Bool) → (a && b && not true) ≡ false
and_and_false true true = refl
and_and_false true false = refl
and_and_false false b = refl

pub first_of_present :
    (ids : List String) → (ltb 0 (length ids) && not (is_some (first_of ids))) ≡ false
unfolding first_of
first_of_present [] = refl
first_of_present (x ∷ xs) = and_false (ltb 0 (length (x ∷ xs)))

pub last_of_present :
    (ids : List String) → (ltb 0 (length ids) && not (is_some (last_of ids))) ≡ false
last_of_present [] = refl
last_of_present (x ∷ xs) = rw (last_of_some x xs) (and_false (ltb 0 (length (x ∷ xs))))

pub no_range_issues :
    (m : BackupManifest) (c : Checked)
    → m.entry_count ≡ length c.covered
    → m.first_entry_id ≡ first_of c.covered
    → m.last_entry_id ≡ last_of c.covered
    → range_issues m c ≡ []
unfolding range_issues when
no_range_issues m c count front back =
    simp
      (
        count,
        front,
        back,
        same_number (length c.covered),
        same_option_refl (first_of c.covered),
        same_option_refl (last_of c.covered),
        first_of_present c.covered,
        last_of_present c.covered,
        and_and_false (is_some (first_of c.covered)) (ltb 0 (length c.covered)),
        and_and_false (is_some (last_of c.covered)) (ltb 0 (length c.covered)),
      )
      refl
