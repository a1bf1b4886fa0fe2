-- ===== src/Backup/Verify/Tree.antt =====
-- src/backup/verify.ts: trees of entries, and the two checks that go through their ids.
use pi_kiwifs_memory.Prelude.{
  ◌≡◌, refl, ap, String, true, false, List, [], ◌∷◌, ◌++◌, map, eq_refl, All,
}
use mathlib.Core.List.{append-nil, append_assoc}
use pi_kiwifs_memory.Backup.Chunker.{BackupView}
use pi_kiwifs_memory.Backup.Verify.{
  is_in, when, duplicates, same_ids, is_unlinked, link_issues, entry_ids,
}
use pi_kiwifs_memory.Backup.Verify.Parsing.{link_to, view_of, IsNamed}

abbrev pub ids_of : List BackupView → List String
ids_of es = map (λ e. e.id) es

-- The entries are a tree, given by its parts in order: each has a name that is new, and no parent
-- or one of those before it.
abbrev pub IsTree : List String → List BackupView → Type 0
IsTree seen [] = Unit
IsTree seen (e ∷ es) =
    IsNamed e
    × (is_in e.id seen ≡ false)
    × (is_unlinked seen (link_to e.parent_id) ≡ false)
    × IsTree (seen ++ e.id ∷ []) es

pub ids_of-append : (xs ys : List BackupView) → ids_of (xs ++ ys) ≡ ids_of xs ++ ids_of ys
ids_of-append [] ys = refl
ids_of-append (e ∷ es) ys = ap (λ t. e.id ∷ t) (ids_of-append es ys)

pub IsTree-append :
    (seen : List String) (xs ys : List BackupView)
    → IsTree seen (xs ++ ys)
    → IsTree seen xs × IsTree (seen ++ ids_of xs) ys
IsTree-append seen [] ys t = (tt, rw append-nil t)
IsTree-append seen (e ∷ es) ys (named, new, linked, t) =
    let (front, back) = IsTree-append (seen ++ e.id ∷ []) es ys t in
    ((named, new, linked, front), rw (append_assoc seen (e.id ∷ []) (ids_of es)) at back)

pub IsTree-IsNamed : (seen : List String) (es : List BackupView) → IsTree seen es → All IsNamed es
IsTree-IsNamed seen [] t = tt
IsTree-IsNamed seen (e ∷ es) (named, new, linked, t) = (named, IsTree-IsNamed _ es t)

pub entry_ids-views : (es : List BackupView) → entry_ids (map view_of es) ≡ ids_of es
unfolding entry_ids
entry_ids-views [] = refl
entry_ids-views (e ∷ es) = ap (λ t. e.id ∷ t) (entry_ids-views es)

pub duplicates-IsTree :
    (seen : List String) (es : List BackupView) → IsTree seen es → duplicates seen (ids_of es) ≡ []
unfolding duplicates when
duplicates-IsTree seen [] t = refl
duplicates-IsTree seen (e ∷ es) (named, new, linked, t) = rw new (duplicates-IsTree _ es t)

pub link_issues-IsTree :
    (seen : List String) (es : List BackupView)
    → IsTree seen es
    → link_issues seen (map view_of es) ≡ []
unfolding link_issues when
link_issues-IsTree seen [] t = refl
link_issues-IsTree seen (e ∷ es) (named, new, linked, t) = rw linked (link_issues-IsTree _ es t)

pub same_ids_refl : (ids : List String) → same_ids ids ids ≡ true
unfolding same_ids
same_ids_refl [] = refl
same_ids_refl (x ∷ xs) = rw (eq_refl x) (same_ids_refl xs)
