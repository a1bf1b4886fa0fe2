-- ===== src/Gate.antt =====
-- src/privacy/private-mode.ts and src/privacy/live-gate.ts: the two private-mode gates, as state
-- machines over the calls that are made of them.
pub mod Stateful
pub mod Live
mod Tests
use pi_kiwifs_memory.Prelude.{
  ℕ, ◌+◌, ◌-◌, String, Bool, true, false, ◌&&◌, not, Option, none, some, List, [], ◌∷◌, ◌++◌, any,
  drop, length, str_eq, ltb, if◌then◌else◌,
}

pub record PendingJobRef : Type 0 where
  pub op_id : String
  pub kind : String

pub data Action : Type 0 where
  enabled resumed : Action

-- `features` is all three domains when `held_jobs` is given, and none for a repeated call.
pub record PrivateModeEvent : Type 0 where
  pub action : Action
  pub all_features : Bool
  pub held_jobs : ℕ

-- `PrivateModeGate`; `released` is what the release listeners have been handed, in order.
pub record PrivateModeGate : Type 0 where
  pub private_mode : Bool
  pub events : List PrivateModeEvent
  pub held : List PendingJobRef
  pub released : List (List PendingJobRef)

abbrev pub max_events : ℕ
max_events = 100

pub new_gate : Bool → PrivateModeGate
new_gate initial = record { private_mode = initial; events = []; held = []; released = [] }

-- `push` and, over the bound, `splice(0, length - MAX_EVENTS)`.
pub push_event : PrivateModeEvent → List PrivateModeEvent → List PrivateModeEvent
push_event e es =
    let grown = es ++ e ∷ [] in
    if ltb max_events (length grown) then drop (length grown - max_events) grown else grown

pub last_event : PrivateModeGate → PrivateModeEvent
last_event g = record {
  action = if g.private_mode then enabled else resumed;
  all_features = false;
  held_jobs = 0;
}

pub enable : PrivateModeGate → PrivateModeGate × PrivateModeEvent
enable g =
    if g.private_mode
    then (g, last_event g)
    else let e : PrivateModeEvent = record {
      action = enabled;
      all_features = true;
      held_jobs = length g.held;
    } in
      (record g { private_mode = true; events = push_event e g.events }, e)

pub resume : PrivateModeGate → PrivateModeGate × PrivateModeEvent
resume g =
    if not g.private_mode
    then (g, last_event g)
    else let e : PrivateModeEvent = record {
      action = resumed;
      all_features = true;
      held_jobs = length g.held;
    } in
      (
        record g {
          private_mode = false;
          held = [];
          events = push_event e g.events;
          released = g.released ++ g.held ∷ [];
        },
        e,
      )

pub is_held : String → List PendingJobRef → Bool
is_held id held = any (λ h. str_eq h.op_id id) held

pub hold_while_private : PendingJobRef → PrivateModeGate → PrivateModeGate × Bool
hold_while_private job g =
    if g.private_mode
    then (if is_held job.op_id g.held then g else record g { held = g.held ++ job ∷ [] }, true)
    else (g, false)

-- `assertNetworkAllowed` and `assertCaptureAllowed`: whether they throw.
pub refuses : PrivateModeGate → Bool
refuses g = g.private_mode

pub data GateCall : Type 0 where
  enabling resuming : GateCall
  holding : PendingJobRef → GateCall

pub gate_step : GateCall → PrivateModeGate → PrivateModeGate
gate_step enabling g = (enable g).0
gate_step resuming g = (resume g).0
gate_step (holding job) g = (hold_while_private job g).0

pub gate_run : List GateCall → PrivateModeGate → PrivateModeGate
gate_run [] g = g
gate_run (call ∷ calls) g = gate_run calls (gate_step call g)

-- `LiveConfigPrivateModeGate`; `fired` counts how often the cancel listeners were called.
pub record LiveGate : Type 0 where
  pub last_observed : Option Bool
  pub live_held : List PendingJobRef
  pub cancel_listeners : ℕ
  pub disposed : Bool
  pub fired : ℕ

pub new_live_gate : LiveGate
new_live_gate = record {
  last_observed = none;
  live_held = [];
  cancel_listeners = 0;
  disposed = false;
  fired = 0;
}

-- A read of the configuration: its flag, or `none` when the read throws.
abbrev pub Reading : Type 0
Reading = Option Bool

-- A failing read counts as private.
pub read_value : Reading → Bool
read_value none = true
read_value (some b) = b

abbrev pub was_private : Option Bool → Bool
was_private none = false
was_private (some b) = b

pub observe : Reading → LiveGate → LiveGate × Bool
observe r g =
    let value = read_value r in
    let was = was_private g.last_observed in
    let cleared = if was && not value then [] else g.live_held in
    let fires = not was && value && not g.disposed && ltb 0 g.cancel_listeners in
    (
      record g {
        last_observed = some value;
        live_held = cleared;
        fired = if fires then g.fired + 1 else g.fired;
      },
      value,
    )

pub on_cancel : LiveGate → LiveGate
on_cancel g = record g { cancel_listeners = g.cancel_listeners + 1 }

pub live_hold : PendingJobRef → Reading → LiveGate → LiveGate × Bool
live_hold job r g =
    let (g', private_now) = observe r g in
    if private_now
    then (
      if is_held job.op_id g'.live_held
          then g'
          else record g' { live_held = g'.live_held ++ job ∷ [] },
      true,
    )
    else (g', false)

-- `assertModelCallAllowed`: whether it throws.
pub assert_model_call : Reading → LiveGate → LiveGate × Bool
assert_model_call r g = observe r g

-- `assertNetworkAllowed`, which reads without observing: a failing read is thrown on.
pub live_refuses : Reading → Bool
live_refuses none = true
live_refuses (some b) = b

pub dispose : LiveGate → LiveGate
dispose g = record g { disposed = true; cancel_listeners = 0 }
