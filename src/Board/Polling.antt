-- ===== src/Board/Polling.antt =====
-- src/board/delivery.ts: how long the poller waits for its next cycle.
pub mod Interval
use pi_kiwifs_memory.Prelude.{ℕ, ◌-◌, ◌*◌, ◌^◌, min, leb, if◌then◌else◌}

abbrev pub empty_polls_before_backoff : ℕ
empty_polls_before_backoff = 3

pub record Pace : Type 0 where
  pub active_poll_ms : ℕ
  pub backoff_base_ms : ℕ
  pub backoff_cap_ms : ℕ

abbrev pub default_pace : Pace
default_pace = record {
  active_poll_ms = 60000;
  backoff_base_ms = 60000;
  backoff_cap_ms = 15 * 60000;
}

-- For the number of consecutive empty polls.
pub next_interval_ms : Pace → ℕ → ℕ
next_interval_ms pace empty_polls =
    if leb empty_polls empty_polls_before_backoff
    then pace.active_poll_ms
    else min pace.backoff_cap_ms
        (pace.backoff_base_ms * 2 ^ min (empty_polls - empty_polls_before_backoff) 8)
