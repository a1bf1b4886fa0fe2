-- ===== src/Worker/Backoff.antt =====
-- src/outbox/worker.ts, `backoffMs`: the range of the delay.
use pi_kiwifs_memory.Prelude.{ℕ, ◌+◌, ◌*◌, ◌/◌, ◌≤◌, ◌<◌, arith}
use native.Mathlib.Nat.{le-div_iff_mul-le, mul-div-le, le_of_mul-le-mul_left}
use pi_kiwifs_memory.Worker.{WorkerConfig, raw_delay, backoff_ms}

raw_delay-le_cap : (w : WorkerConfig) (a : ℕ) → raw_delay w a ≤ w.cap_delay_ms
unfolding raw_delay
raw_delay-le_cap w a = omega arith

rounded-ge :
    (raw whole extra : ℕ) → 0 < whole → raw ≤ (2 * (raw * (whole + extra)) + whole) / (2 * whole)
rounded-ge raw whole extra h = (le-div_iff_mul-le (omega arith)).1 (omega arith)

-- `raw * extra` is at most the fraction `num / den` of `raw * whole`.
scaled : (raw num den draw draws : ℕ) → draw ≤ draws → raw * (num * draw) ≤ raw * (num * draws)
scaled raw num den draw draws h = grind arith

rounded-le :
    (raw num den draw draws : ℕ)
    → 0 < draws
    → draw ≤ draws
    → 2 * den * ((2 * (raw * (den * draws + num * draw)) + den * draws) / (2 * (den * draws)))
      ≤ 2 * (den + num) * raw + den
rounded-le raw num den draw draws h d =
    let total = 2 * (raw * (den * draws + num * draw)) + den * draws in
    le_of_mul-le-mul_left {k = draws}
      (omega (arith, mul-div-le total (2 * (den * draws)), scaled raw num den draw draws d)) h

-- The delay of a retry lies between `min(cap, base * 2 ** (attempts - 1))` and that value scaled
-- by `1 + jitterRatio`, up to the rounding; the unscaled value is at most the cap.
backoff_ms_bounds :
    (w : WorkerConfig) (attempts draw : ℕ)
    → 0 < w.jitter_den * w.draws
    → 0 < w.draws
    → draw ≤ w.draws
    → (raw_delay w attempts ≤ w.cap_delay_ms)
      × (raw_delay w attempts ≤ backoff_ms w attempts draw)
      × (2 * w.jitter_den * backoff_ms w attempts draw
          ≤ 2 * (w.jitter_den + w.jitter_num) * raw_delay w attempts + w.jitter_den)
unfolding backoff_ms
backoff_ms_bounds w attempts draw p h d = (
  raw_delay-le_cap w attempts,
  rounded-ge (raw_delay w attempts) (w.jitter_den * w.draws) (w.jitter_num * draw) p,
  rounded-le (raw_delay w attempts) w.jitter_num w.jitter_den draw w.draws h d,
)
