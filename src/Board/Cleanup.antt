-- ===== src/Board/Cleanup.antt =====
-- src/board/cleanup-rules.ts: which messages the manual removal may delete.
pub mod Eligible
use pi_kiwifs_memory.Prelude.{
  ℕ, ◌+◌, ◌*◌, max, String, Bool, true, false, ◌&&◌, not, Option, none, some, ltb, leb, str_eq,
  if◌then◌else◌,
}

abbrev pub gc_grace_ms : ℕ
gc_grace_ms = 30 * 24 * 60 * 60 * 1000

-- `ttlSeconds`: `malformed_ttl` is a number that is negative or not finite.
pub data Ttl : Type 0 where
  no_ttl malformed_ttl : Ttl
  seconds : ℕ → Ttl

pub record CandidateReadView : Type 0 where
  pub from : String
  pub created : String
  pub ttl_seconds : Ttl

pub data Reason : Type 0 where
  not_owner missing_basis within_grace malformed : Reason

pub data Eligibility : Type 0 where
  eligible : Eligibility
  ineligible : Reason → Eligibility

-- `Date.parse` is an argument; `none` is NaN.
module _ (parse : String → Option ℕ) where
  -- From the expiry on.
  unfoldable pub settled_long_ago : ℕ → Option ℕ → ℕ → Eligibility
  settled_long_ago expiry none now = ineligible missing_basis
  settled_long_ago expiry (some acked) now =
      if not (ltb expiry now)
      then ineligible missing_basis
      else if leb now (max expiry acked + gc_grace_ms)
      then ineligible within_grace
      else eligible

  unfoldable pub by_ttl : ℕ → Ttl → Option ℕ → ℕ → Eligibility
  by_ttl created no_ttl acked now = ineligible missing_basis
  by_ttl created malformed_ttl acked now = ineligible malformed
  by_ttl created (seconds ttl) acked now = settled_long_ago (created + ttl * 1000) acked now

  unfoldable pub evaluate_cleanup_candidate :
      CandidateReadView → Option ℕ → String → ℕ → Eligibility
  evaluate_cleanup_candidate read acked own_from now =
      if not (str_eq read.from own_from) then ineligible not_owner else elim (parse read.created) [
        | none ↦ ineligible malformed
        | some created ↦ by_ttl created read.ttl_seconds acked now
      ]
