-- ===== src/Guard/Tests.antt =====
-- Runs of the guard of src/backend/guard.ts, and its theorems at a concrete input.
use pi_kiwifs_memory.Prelude.{◌≤◌, ◌≡◌, refl, String, true, false, none, some, List, [], ◌∷◌, All}
use pi_kiwifs_memory.Guard.{
  ReadBack, Guarded, GuardDeps, passed, rejected, path_prefix, guard_candidate,
  build_brief_evidence, path_within_memory_namespace, is_owner_scope, has_dot_dot, is_live,
  guard_read, guard_scope, guard_redaction, lookup,
}
use pi_kiwifs_memory.Guard.Gated.{
  HasPassed, IsGated, total, guard_candidate-HasPassed, build_brief_evidence-IsGated,
}

abbrev note : ReadBack
note = record {
  is_ok = true;
  has_content = true;
  body = "secret text";
  etag = none;
  frontmatter = ("scope", "personal") ∷ [];
}

abbrev deps : GuardDeps
deps = record {
  read = λ path. note;
  authorized_scopes = "project/demo" ∷ "personal" ∷ [];
  redact = λ body. some "text";
  text_length = λ s. 4;
}

abbrev accepted : Guarded
accepted = record {
  path = "personal/memory/a.md";
  scope = "personal";
  body = "text";
  etag = none;
  frontmatter = ("scope", "personal") ∷ [];
}

-- A parent step and a longer directory name are outside of the namespace.
stays_inside : path_within_memory_namespace "personal/memory/x/../../y" "personal" ≡ false
unfolding path_within_memory_namespace is_owner_scope has_dot_dot
stays_inside = refl

no_prefix_abuse : path_within_memory_namespace "personal/memory-evil/y" "personal" ≡ false
unfolding path_within_memory_namespace is_owner_scope
no_prefix_abuse = refl

wrong_scope : guard_candidate deps "project/demo/memory/a.md" ≡ rejected path_prefix
unfolding guard_candidate guard_read is_live lookup guard_scope path_within_memory_namespace
    is_owner_scope
wrong_scope = refl

goes_through : guard_candidate deps "personal/memory/a.md" ≡ passed accepted
unfolding guard_candidate guard_read is_live lookup guard_scope path_within_memory_namespace
    is_owner_scope has_dot_dot guard_redaction
goes_through = refl

guard_candidate-HasPassed_example : HasPassed deps "personal/memory/a.md" accepted
guard_candidate-HasPassed_example =
    guard_candidate-HasPassed deps "personal/memory/a.md" accepted goes_through

abbrev brief : List String
brief = "personal/memory/a.md" ∷ "elsewhere/b.md" ∷ "personal/memory/c.md" ∷ []

build_brief_evidence-IsGated_example :
    All (IsGated deps) (build_brief_evidence deps brief [] 7).kept
    × (total deps (build_brief_evidence deps brief [] 7).kept ≤ 7)
build_brief_evidence-IsGated_example = build_brief_evidence-IsGated deps brief [] 7
