-- ===== src/Board/Cleanup/Eligible.antt =====
-- src/board/cleanup-rules.ts: the conjunction that eligibility stands for.
use pi_kiwifs_memory.Prelude.{
  ℕ, ◌+◌, ◌*◌, ◌<◌, ◌≡◌, ◌↔◌, refl, String, true, Option, none, some, str_eq, arith, Bool-cases,
  Option-cases, inl, inr,
}
use pi_kiwifs_memory.Board.Cleanup.{
  Ttl, no_ttl, malformed_ttl, seconds, CandidateReadView, eligible, gc_grace_ms, settled_long_ago,
  by_ttl, evaluate_cleanup_candidate,
}

-- Sent by this agent, expired and acknowledged, both more than 30 days ago.
pub record IsRemovable (parse : String → Option ℕ) (read : CandidateReadView) (acked : Option ℕ)
    (own_from : String) (now : ℕ) : Type 0 where
  pub own : str_eq read.from own_from ≡ true
  pub created_at : ℕ
  pub ttl : ℕ
  pub acked_at : ℕ
  pub parsed : parse read.created ≡ some created_at
  pub bounded : read.ttl_seconds ≡ seconds ttl
  pub acked_here : acked ≡ some acked_at
  pub expired_long_ago : created_at + ttl * 1000 + gc_grace_ms < now
  pub acked_long_ago : acked_at + gc_grace_ms < now

module _ (parse : String → Option ℕ) where
  settled-cases :
      (expiry : ℕ) (acked : Option ℕ) (now : ℕ)
      → settled_long_ago parse expiry acked now ≡ eligible
      → (a : ℕ) × (acked ≡ some a) × (expiry + gc_grace_ms < now) × (a + gc_grace_ms < now)
  unfolding settled_long_ago
  settled-cases expiry none now h = cc
  settled-cases expiry (some a) now h = (a, refl, ground arith, ground arith)

  settled-back :
      (expiry a now : ℕ)
      → expiry + gc_grace_ms < now
      → a + gc_grace_ms < now
      → settled_long_ago parse expiry (some a) now ≡ eligible
  unfolding settled_long_ago
  settled-back expiry a now h k = ground arith

  by_ttl-cases :
      (created : ℕ) (t : Ttl) (acked : Option ℕ) (now : ℕ)
      → by_ttl parse created t acked now ≡ eligible
      → (ttl : ℕ) × (t ≡ seconds ttl)
        × (settled_long_ago parse (created + ttl * 1000) acked now ≡ eligible)
  unfolding by_ttl
  by_ttl-cases created no_ttl acked now h = cc
  by_ttl-cases created malformed_ttl acked now h = cc
  by_ttl-cases created (seconds ttl) acked now h = (ttl, refl, h)

  -- A message is eligible for removal exactly when this agent sent it, its creation time can be
  -- read, it has a valid time to live that ran out more than 30 days ago, and this consumer
  -- acknowledged it more than 30 days ago.
  pub evaluate-IsRemovable :
      (read : CandidateReadView) (acked : Option ℕ) (own_from : String) (now : ℕ)
      → (evaluate_cleanup_candidate parse read acked own_from now ≡ eligible)
        ↔ IsRemovable parse read acked own_from now
  unfolding evaluate_cleanup_candidate by_ttl
  evaluate-IsRemovable read acked own_from now = (there, back)
    where
      there :
          evaluate_cleanup_candidate parse read acked own_from now ≡ eligible
          → IsRemovable parse read acked own_from now
      there h = elim (Bool-cases (str_eq read.from own_from)) [
        | inr other ↦ absurd (cc (simp other at h))
        | inl own ↦ elim (Option-cases (parse read.created)) [
          | inl unreadable ↦ absurd (cc (simp (own, unreadable) at h))
          | inr (created, parsed) ↦
              let (ttl, bounded, rest) =
                by_ttl-cases created read.ttl_seconds acked now (simp (own, parsed) at h) in
              let (a, acked_here, e, l) = settled-cases (created + ttl * 1000) acked now rest in
              record {
                own = own;
                created_at = created;
                ttl = ttl;
                acked_at = a;
                parsed = parsed;
                bounded = bounded;
                acked_here = acked_here;
                expired_long_ago = e;
                acked_long_ago = l;
              }
        ]
      ]

      back :
          IsRemovable parse read acked own_from now
          → evaluate_cleanup_candidate parse read acked own_from now ≡ eligible
      back v =
          simp (v.own, v.parsed, v.bounded, v.acked_here)
            (settled-back (v.created_at + v.ttl * 1000) v.acked_at now v.expired_long_ago
              v.acked_long_ago)
