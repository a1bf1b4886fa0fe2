-- ===== src/Guard/Gated.antt =====
-- src/backend/guard.ts: what the five steps vouch for, and the evidence.
use pi_kiwifs_memory.Prelude.{
  ℕ, ◌+◌, ◌*◌, ◌≤◌, ◌≡◌, ◌⊎◌, refl, String, true, Memᴰ, eq_iff, ◌&&◌, inl, inr, Option, none, some,
  List, [], ◌∷◌, ◌++◌, Bool-cases, any, ltb, leb, str_eq, and_true, All, All-append, arith, ap, sym,
}
use pi_kiwifs_memory.Guard.{
  ReadBack, Guarded, GuardResult, passed, rejected, GuardDeps, lookup, path_within_memory_namespace,
  is_live, guard_redaction, guard_scope, guard_read, guard_candidate, Pack, fill,
  build_brief_evidence,
}
use pi_kiwifs_memory.Guard.Namespace.{IsWithin, namespaced-IsWithin}

-- What each of the five steps vouches for.
pub record HasPassed (deps : GuardDeps) (path : String) (g : Guarded) : Type 0 where
  pub read_back : ((deps.read path).is_ok ≡ true) × ((deps.read path).has_content ≡ true)
  pub live :
      (lookup "memory_status" (deps.read path).frontmatter ≡ none)
      ⊎ (lookup "memory_status" (deps.read path).frontmatter ≡ some "active")
  pub scoped : lookup "scope" (deps.read path).frontmatter ≡ some g.scope
  pub authorized : Memᴰ g.scope deps.authorized_scopes
  pub within : IsWithin path g.scope
  pub redacted : deps.redact (deps.read path).body ≡ some g.body
  pub same_path : g.path ≡ path

is_live_lem : (o : Option String) → is_live o ≡ true → (o ≡ none) ⊎ (o ≡ some "active")
unfolding is_live
is_live_lem none h = inl refl
is_live_lem (some s) h = inr (ap some ((eq_iff s "active").0 h))

any-Mem : (s : String) (xs : List String) → any (λ a. str_eq a s) xs ≡ true → Memᴰ s xs
any-Mem s [] h = cc h
any-Mem s (x ∷ xs) h = elim (Bool-cases (str_eq x s)) [
  | inl same ↦ Memᴰ.head (sym ((eq_iff x s).0 same))
  | inr other ↦ Memᴰ.tail (any-Mem s xs (simp other at h))
]

module _ (deps : GuardDeps) where
  redaction-passed :
      (path s : String) (r : ReadBack) (g : Guarded)
      → guard_redaction deps path s r ≡ passed g
      → (deps.redact r.body ≡ some g.body) × (g.path ≡ path) × (g.scope ≡ s)
  unfolding guard_redaction
  redaction-passed path s r g h = ground arith

  scope-passed :
      (path : String) (o : Option String) (r : ReadBack) (g : Guarded)
      → guard_scope deps path o r ≡ passed g
      → (o ≡ some g.scope)
        × (any (λ a. str_eq a g.scope) deps.authorized_scopes ≡ true)
        × (path_within_memory_namespace path g.scope ≡ true)
        × (deps.redact r.body ≡ some g.body)
        × (g.path ≡ path)
  unfolding guard_scope
  scope-passed path none r g h = cc
  scope-passed path (some s) r g h =
      elim (Bool-cases (any (λ a. str_eq a s) deps.authorized_scopes)) [
        | inr out ↦ absurd (cc (simp out at h))
        | inl known ↦ elim (Bool-cases (path_within_memory_namespace path s)) [
          | inr out ↦ absurd (cc (simp (known, out) at h))
          | inl within ↦
              let (red, same_path, same_scope) =
                redaction-passed path s r g (simp (known, within) at h) in
              (ap some (sym same_scope), rw same_scope known, rw same_scope within, red, same_path)
        ]
      ]

  -- A candidate passes the guard only if its read-back answered with a content, its `memory_status`
  -- is absent or "active", its scope is one of the authorized ones and is personal or a project's,
  -- its path is that very scope's name, `/memory/`, and a text without a part `..`, and the
  -- redactor accepted its body; what is passed on is the redacted body under that path.
  pub guard_candidate-HasPassed :
      (path : String) (g : Guarded) → guard_candidate deps path ≡ passed g → HasPassed deps path g
  unfolding guard_candidate guard_read
  guard_candidate-HasPassed path g h =
      elim (Bool-cases ((deps.read path).is_ok && (deps.read path).has_content)) [
        | inr missing ↦ absurd (cc (simp missing at h))
        | inl back ↦
            elim (Bool-cases (is_live (lookup "memory_status" (deps.read path).frontmatter))) [
              | inr stale ↦ absurd (cc (simp (back, stale) at h))
              | inl live ↦
                  let (scoped, authorized, within, redacted, same_path) =
                    scope-passed path _ (deps.read path) g (simp (back, live) at h) in
                  record {
                    read_back = and_true _ _ back;
                    live = is_live_lem _ live;
                    scoped = scoped;
                    authorized = any-Mem g.scope deps.authorized_scopes authorized;
                    within = namespaced-IsWithin path g.scope within;
                    redacted = redacted;
                    same_path = same_path;
                  }
            ]
      ]

  -- A kept pair of a path and a body comes from a candidate that passed.
  pub record IsGated (item : String × String) : Type 0 where
    pub candidate : String
    pub guarded : Guarded
    pub accepted : HasPassed deps candidate guarded
    pub same : (item.0 ≡ guarded.path) × (item.1 ≡ guarded.body)

  abbrev pub total : List (String × String) → ℕ
  total [] = 0
  total ((path, body) ∷ rest) = deps.text_length body + total rest

  total-append : (xs ys : List (String × String)) → total (xs ++ ys) ≡ total xs + total ys
  total-append [] ys = omega arith
  total-append ((p, b) ∷ xs) ys = omega (arith, total-append xs ys)

  record IsPacked (max_chars : ℕ) (pack : Pack deps) : Type 0 where
    gated : All IsGated pack.kept
    counted : pack.chars ≡ total pack.kept
    fits : pack.chars ≤ max_chars

  fill-IsPacked :
      (max_chars : ℕ) (paths : List String) (pack : Pack deps)
      → IsPacked max_chars pack
      → IsPacked max_chars (fill deps max_chars paths pack)
  unfolding fill
  fill-IsPacked max_chars [] pack v = v
  fill-IsPacked max_chars (path ∷ paths) pack v =
      by_guard (guard_candidate deps path) refl (fill-IsPacked max_chars paths)
    where
      by_guard :
          (r : GuardResult)
          → guard_candidate deps path ≡ r
          → ((p : Pack deps)
              → IsPacked max_chars p
              → IsPacked max_chars (fill deps max_chars paths p))
          → IsPacked max_chars (fill deps max_chars (path ∷ paths) pack)
      by_guard (rejected step) e rest =
          rw (e, fill) (rest _ (record { gated = v.gated; counted = v.counted; fits = v.fits }))
      by_guard (passed g) e rest =
          elim (Bool-cases (ltb max_chars (pack.chars + deps.text_length g.body))) [
            | inl over ↦ rw (e, fill, over) v
            | inr fits ↦
                rw (e, fill, fits)
                  (rest _ (record {
                    gated = All-append IsGated pack.kept _ v.gated (
                      record {
                        candidate = path;
                        guarded = g;
                        accepted = guard_candidate-HasPassed path g e;
                        same = (refl, refl);
                      },
                      tt,
                    );
                    counted =
                        omega (arith, total-append pack.kept ((g.path, g.body) ∷ []), v.counted);
                    fits = ground arith;
                  }))
          ]

  -- The evidence holds only items that passed the guard, and its bodies have at most `maxPackChars`
  -- characters in total, whether it is the brief's own or the rebuilt one.
  pub build_brief_evidence-IsGated :
      (sections hits : List String) (max_chars : ℕ)
      → All IsGated (build_brief_evidence deps sections hits max_chars).kept
        × (total (build_brief_evidence deps sections hits max_chars).kept ≤ max_chars)
  unfolding build_brief_evidence
  build_brief_evidence-IsGated sections hits max_chars =
      let first =
        fill-IsPacked max_chars sections (record { kept = []; dropped = []; chars = 0 })
          (record { gated = tt; counted = refl; fits = omega arith }) in
      let second =
        fill-IsPacked max_chars hits
          (record {
            kept = [];
            dropped =
                (fill deps max_chars sections
                  (record { kept = []; dropped = []; chars = 0 })).dropped;
            chars = 0;
          })
          (record { gated = tt; counted = refl; fits = omega arith }) in
      elim (Bool-cases (
        leb max_chars (
          4
          * (fill deps max_chars sections
              (record { kept = []; dropped = []; chars = 0 })).chars))) [
                | inl enough ↦ rw enough (first.gated, omega (arith, first.counted, first.fits))
                | inr short ↦ rw short (second.gated, omega (arith, second.counted, second.fits))
              ]
