-- ===== src/Guard.antt =====
-- src/backend/guard.ts: the checks that a record passes before it is used as evidence. The adapter,
-- the redactor and the length of a text are arguments.
pub mod Namespace
pub mod Gated
mod Tests
use pi_kiwifs_memory.Prelude.{
  ℕ, zero, suc, ◌+◌, ◌*◌, String, Bool, true, false, ◌&&◌, ◌||◌, not, Option, none, some, List, [],
  ◌∷◌, ◌++◌, any, ltb, leb, ◌==◌, str_eq, if◌then◌else◌, codes,
}

-- What `adapter.read` answers.
pub record ReadBack : Type 0 where
  pub is_ok : Bool  -- `state === "ok"`
  pub has_content : Bool  -- `content !== undefined`
  pub body : String
  pub etag : Option String
  pub frontmatter : List (String × String)

pub data GuardStep : Type 0 where
  read_back status scope path_prefix redaction : GuardStep

pub record Guarded : Type 0 where
  pub path : String
  pub scope : String
  pub body : String
  pub etag : Option String
  pub frontmatter : List (String × String)

pub data GuardResult : Type 0 where
  passed : Guarded → GuardResult
  rejected : GuardStep → GuardResult

pub record GuardDeps : Type 0 where
  pub read : String → ReadBack
  pub authorized_scopes : List String
  pub redact : String → Option String  -- `none` when the redactor refuses
  pub text_length : String → ℕ

pub lookup : String → List (String × String) → Option String
lookup key [] = none
lookup key ((k, v) ∷ rest) = if str_eq k key then some v else lookup key rest

-- `pathWithinMemoryNamespace` of src/domain/paths.ts, over code points.
unfoldable pub strip_prefix : List ℕ → List ℕ → Option (List ℕ)
strip_prefix [] text = some text
strip_prefix (p ∷ ps) [] = none
strip_prefix (p ∷ ps) (c ∷ cs) = if p == c then strip_prefix ps cs else none

-- Whether one of the parts between slashes is `..`; `dots` counts the dots of a part that has
-- nothing else so far, and is 3 or more for any other part.
unfoldable pub has_dot_dot : ℕ → List ℕ → Bool
has_dot_dot dots [] = dots == 2
has_dot_dot dots (c ∷ cs) =
    if c == b'/'
    then dots == 2 || has_dot_dot 0 cs
    else has_dot_dot (if c == b'.' then dots + 1 else 3) cs

pub is_owner_scope : String → Bool
unfolding strip_prefix
is_owner_scope s =
    str_eq s "personal"
    || (elim (strip_prefix (codes "project/") (codes s)) [ none ↦ false | some rest ↦ true ])

pub path_within_memory_namespace : String → String → Bool
path_within_memory_namespace path s =
    if not (is_owner_scope s)
    then false
    else elim (strip_prefix (codes s ++ codes "/memory/") (codes path)) [
      | none ↦ false
      | some rest ↦ not (has_dot_dot 0 rest)
    ]

-- `memory_status` absent or "active".
pub is_live : Option String → Bool
is_live none = true
is_live (some s) = str_eq s "active"

module _ (deps : GuardDeps) where
  -- Step 5.
  pub guard_redaction : String → String → ReadBack → GuardResult
  guard_redaction path s r = elim (deps.redact r.body) [
    | none ↦ rejected redaction
    | some body ↦
        passed (record {
          path = path;
          scope = s;
          body = body;
          etag = r.etag;
          frontmatter = r.frontmatter;
        })
  ]

  -- Steps 3 and 4, for the scope of the front matter.
  pub guard_scope : String → Option String → ReadBack → GuardResult
  guard_scope path none r = rejected scope
  guard_scope path (some s) r =
      if not (any (λ a. str_eq a s) deps.authorized_scopes)
      then rejected scope
      else if not (path_within_memory_namespace path s)
      then rejected path_prefix
      else guard_redaction path s r

  pub guard_read : String → ReadBack → GuardResult
  guard_read path r =
      if not (r.is_ok && r.has_content)
      then rejected read_back
      else if not (is_live (lookup "memory_status" r.frontmatter))
      then rejected status
      else guard_scope path (lookup "scope" r.frontmatter) r

  pub guard_candidate : String → GuardResult
  guard_candidate path = guard_read path (deps.read path)

  pub record Pack : Type 0 where
    pub kept : List (String × String)  -- path and body
    pub dropped : List (String × GuardStep)
    pub chars : ℕ

  -- One loop of `buildBriefEvidence` over the paths of its sections or hits; a body that does not
  -- fit ends it.
  pub fill : ℕ → List String → Pack → Pack
  fill max_chars [] pack = pack
  fill max_chars (path ∷ paths) pack = elim (guard_candidate path) [
    | rejected step ↦
        fill max_chars paths (record pack { dropped = pack.dropped ++ (path, step) ∷ [] })
    | passed g ↦
        let more = fill max_chars paths (record pack {
          kept = pack.kept ++ (g.path, g.body) ∷ [];
          chars = pack.chars + deps.text_length g.body;
        }) in
        if ltb max_chars (pack.chars + deps.text_length g.body) then pack else more
  ]

  pub record Evidence : Type 0 where
    pub kept : List (String × String)
    pub dropped : List (String × GuardStep)
    pub rebuilt : Bool

  -- `chars >= maxPackChars * 0.25` is `4 * chars >= maxPackChars`.
  pub build_brief_evidence : List String → List String → ℕ → Evidence
  build_brief_evidence sections hits max_chars =
      let first = fill max_chars sections (record { kept = []; dropped = []; chars = 0 }) in
      let second = fill max_chars hits (record { kept = []; dropped = first.dropped; chars = 0 }) in
      if leb max_chars (4 * first.chars)
      then record { kept = first.kept; dropped = first.dropped; rebuilt = false }
      else record { kept = second.kept; dropped = second.dropped; rebuilt = true }
