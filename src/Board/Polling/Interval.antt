-- ===== src/Board/Polling/Interval.antt =====
-- src/board/delivery.ts: bounds and growth of the polling interval.
use pi_kiwifs_memory.Prelude.{ℕ, zero, suc, ◌+◌, ◌-◌, ◌*◌, ◌^◌, ◌≤◌, ◌≡◌, min, arith}
use pi_kiwifs_memory.Board.Polling.{Pace, next_interval_ms}

two_pow_mono : (a d : ℕ) → 2 ^ a ≤ 2 ^ (a + d)
two_pow_mono a zero = let e : a + 0 ≡ a = omega arith in rw e (omega arith)
two_pow_mono a (suc d) =
    let e : a + suc d ≡ suc (a + d) = omega arith in
    let ih = two_pow_mono a d in rw e (omega (arith, ih))

two_pow_le : (a b : ℕ) → a ≤ b → 2 ^ a ≤ 2 ^ b
two_pow_le a b h = let e : b ≡ a + (b - a) = omega (arith, h) in rw e (two_pow_mono a (b - a))

product_le : (k x y : ℕ) → x ≤ y → k * x ≤ k * y
product_le zero x y h = omega arith
product_le (suc k) x y h = omega (arith, h, product_le k x y h)

-- The delay is never below the active interval nor above the cap, and it does not shrink while the
-- number of empty polls grows, for an active interval up to the base and a base up to the cap.
next_interval_ms-bounds :
    (pace : Pace) (n m : ℕ)
    → pace.active_poll_ms ≤ pace.backoff_base_ms
    → pace.backoff_base_ms ≤ pace.backoff_cap_ms
    → n ≤ m
    → (pace.active_poll_ms ≤ next_interval_ms pace n)
      × (next_interval_ms pace n ≤ next_interval_ms pace m)
      × (next_interval_ms pace m ≤ pace.backoff_cap_ms)
unfolding next_interval_ms
next_interval_ms-bounds pace n m active base h =
    let one =
      product_le pace.backoff_base_ms 1 (2 ^ min (n - 3) 8)
        (two_pow_le 0 (min (n - 3) 8) (omega arith)) in
    let one' =
      product_le pace.backoff_base_ms 1 (2 ^ min (m - 3) 8)
        (two_pow_le 0 (min (m - 3) 8) (omega arith)) in
    let grows =
      product_le pace.backoff_base_ms (2 ^ min (n - 3) 8) (2 ^ min (m - 3) 8)
        (two_pow_le (min (n - 3) 8) (min (m - 3) 8) (omega (arith, h))) in
    (
      ground (arith, one, active, base),
      ground (arith, one, one', grows, active, base, h),
      ground (arith, active, base),
    )
