-- ===== src/Gate/Live.antt =====
-- src/privacy/live-gate.ts: when the cancel listeners fire, and what is held.
use pi_kiwifs_memory.Prelude.{
  ℕ, ◌+◌, ◌<◌, ◌≡◌, refl, Bool, true, false, not, ◌&&◌, none, List, [], ◌∷◌, arith, if◌then◌else◌,
}
use pi_kiwifs_memory.Gate.{
  PendingJobRef, LiveGate, Reading, read_value, was_private, observe, live_hold, is_held,
}
use pi_kiwifs_memory.Gate.Stateful.{is_held_self}

abbrev pub observes : List Reading → LiveGate → LiveGate
observes [] g = g
observes (r ∷ rs) g = observes rs (observe r g).0

-- How often a sequence of readings goes from open to private.
abbrev pub rises : Bool → List Reading → ℕ
rises was [] = 0
rises was (r ∷ rs) = (if not was && read_value r then 1 else 0) + rises (read_value r) rs

abbrev pub IsListening : LiveGate → Type 0
IsListening g = (g.disposed ≡ false) × (0 < g.cancel_listeners)

observe-IsListening : (r : Reading) (g : LiveGate) → IsListening g → IsListening (observe r g).0
unfolding observe
observe-IsListening r g h = h

fired-observe :
    (r : Reading) (g : LiveGate)
    → IsListening g
    → (observe r g).0.fired
      ≡ g.fired + (if not (was_private g.last_observed) && read_value r then 1 else 0)
unfolding observe
fired-observe r g h = ground arith

last_observed-observe :
    (r : Reading) (g : LiveGate) → was_private (observe r g).0.last_observed ≡ read_value r
unfolding observe
last_observed-observe r g = refl

-- While a listener is registered and the gate is not disposed, the listeners fire exactly once for
-- each reading that is private after one that was not, a failing read counting as private. Before
-- the first reading the gate counts as not private.
fired-observes :
    (rs : List Reading) (g : LiveGate)
    → IsListening g
    → (observes rs g).fired ≡ g.fired + rises (was_private g.last_observed) rs
fired-observes [] g h = omega arith
fired-observes (r ∷ rs) g h =
    let rest = fired-observes rs (observe r g).0 (observe-IsListening r g h) in
    omega (arith, rw (last_observed-observe r g) at rest, fired-observe r g h)

-- The first reading of all, when it is private, does fire the listeners that are registered.
first_reading_fires :
    (r : Reading) (g : LiveGate)
    → IsListening g
    → g.last_observed ≡ none
    → read_value r ≡ true
    → (observe r g).0.fired ≡ g.fired + 1
unfolding observe
first_reading_fires r g h first private_now = ground arith

-- A gate that last saw an open configuration holds nothing.
abbrev pub IsClear : LiveGate → Type 0
IsClear g = was_private g.last_observed ≡ false → g.live_held ≡ []

-- A reading of the live gate keeps it clear when it is open, whether or not a job is to be held;
-- and a hold answers that the job is held exactly when the reading is private, in which case the
-- job is among the held.
live_hold-IsClear :
    (j : PendingJobRef) (r : Reading) (g : LiveGate)
    → IsClear g
    → IsClear (observe r g).0
      × IsClear (live_hold j r g).0
      × ((live_hold j r g).1 ≡ read_value r)
      × (read_value r ≡ true → is_held j.op_id (live_hold j r g).0.live_held ≡ true)
unfolding live_hold observe
live_hold-IsClear j r g h = (
  λ o. ground (arith, h),
  λ o. ground (arith, h),
  ground arith,
  λ o. ground (
    arith,
    is_held_self (if was_private g.last_observed && not (read_value r) then [] else g.live_held) j,
  ),
)
