-- ===== src/Gate/Stateful.antt =====
-- src/privacy/private-mode.ts: what the gate holds, releases and remembers.
use pi_kiwifs_memory.Prelude.{
  ◌-◌, ◌≤◌, ◌≡◌, refl, ◌∙◌, String, true, false, inl, inr, List, [], ◌∷◌, ◌++◌, Bool-cases, length,
  length-drop, arith, str_eq, eq_iff, eq_refl, All,
}
use pi_kiwifs_memory.Gate.{
  PendingJobRef, enabled, resumed, PrivateModeEvent, PrivateModeGate, GateCall, enabling, resuming,
  holding, max_events, push_event, enable, resume, is_held, hold_while_private, gate_step,
}

-- No two references of one job.
abbrev pub Distinct : List PendingJobRef → Type 0
Distinct [] = Unit
Distinct (h ∷ hs) = (is_held h.op_id hs ≡ false) × Distinct hs

pub record IsSound (g : PrivateModeGate) : Type 0 where
  pub nothing_held_open : g.private_mode ≡ false → g.held ≡ []
  pub distinct : Distinct g.held
  pub log_bounded : length g.events ≤ max_events

push_event_bounded :
    (e : PrivateModeEvent) (es : List PrivateModeEvent) → length (push_event e es) ≤ max_events
unfolding push_event
push_event_bounded e es =
    ground (arith, length-drop {0} (length (es ++ e ∷ []) - 100) (es ++ e ∷ []))

is_held-append :
    (id : String) (hs : List PendingJobRef) (j : PendingJobRef)
    → is_held id hs ≡ false
    → str_eq j.op_id id ≡ false
    → is_held id (hs ++ j ∷ []) ≡ false
unfolding is_held
is_held-append id [] j h e = rw e
is_held-append id (x ∷ hs) j h e = ground (arith, is_held-append id hs j, h, e)

Distinct-append :
    (hs : List PendingJobRef) (j : PendingJobRef)
    → Distinct hs
    → is_held j.op_id hs ≡ false
    → Distinct (hs ++ j ∷ [])
unfolding is_held
Distinct-append [] j d h = (refl, tt)
Distinct-append (x ∷ hs) j d h = (
  is_held-append x.op_id hs j d.0 (ground (arith, eq_iff x.op_id j.op_id, eq_iff j.op_id x.op_id)),
  Distinct-append hs j d.1 (ground arith),
)

enable-cases :
    (g : PrivateModeGate)
    → length g.events ≤ max_events
    → ((enable g).0.private_mode ≡ true)
      × ((enable g).0.held ≡ g.held)
      × (length (enable g).0.events ≤ max_events)
unfolding enable
enable-cases g h = ground (
  arith,
  push_event_bounded (record { action = enabled; all_features = true; held_jobs = length g.held })
      g.events,
)

resume-cases :
    (g : PrivateModeGate)
    → IsSound g
    → ((resume g).0.private_mode ≡ false)
      × ((resume g).0.held ≡ [])
      × (length (resume g).0.events ≤ max_events)
unfolding resume
resume-cases g v = ground (
  arith,
  v.nothing_held_open,
  v.log_bounded,
  push_event_bounded (record { action = resumed; all_features = true; held_jobs = length g.held })
      g.events,
)

hold-off :
    (job : PendingJobRef) (g : PrivateModeGate)
    → g.private_mode ≡ false
    → (hold_while_private job g).0 ≡ g
unfolding hold_while_private
hold-off job g off = ground arith

hold-known :
    (job : PendingJobRef) (g : PrivateModeGate)
    → g.private_mode ≡ true
    → is_held job.op_id g.held ≡ true
    → (hold_while_private job g).0 ≡ g
unfolding hold_while_private
hold-known job g on known = ground arith

hold-fresh :
    (job : PendingJobRef) (g : PrivateModeGate)
    → g.private_mode ≡ true
    → is_held job.op_id g.held ≡ false
    → (hold_while_private job g).0 ≡ record g { held = g.held ++ job ∷ [] }
unfolding hold_while_private
hold-fresh job g on fresh = ground arith

-- Every call keeps the gate sound: an open gate holds nothing, no job is held twice, and the log
-- has at most 100 events.
pub gate_step-IsSound :
    (call : GateCall) (g : PrivateModeGate) → IsSound g → IsSound (gate_step call g)
unfolding gate_step
gate_step-IsSound enabling g v =
    let (on, same, log) = enable-cases g v.log_bounded in
    record {
      nothing_held_open = λ e. absurd (cc (e, on));
      distinct = rw same v.distinct;
      log_bounded = log;
    }
gate_step-IsSound resuming g v =
    let (off, empty, log) = resume-cases g v in
    record { nothing_held_open = λ e. empty; distinct = rw empty tt; log_bounded = log }
gate_step-IsSound (holding job) g v = elim (Bool-cases g.private_mode) [
  | inr off ↦ rw (hold-off job g off) v
  | inl on ↦ elim (Bool-cases (is_held job.op_id g.held)) [
    | inl known ↦ rw (hold-known job g on known) v
    | inr fresh ↦ rw (hold-fresh job g on fresh) (record {
      nothing_held_open = λ e. absurd (cc (e, on));
      distinct = Distinct-append g.held job v.distinct fresh;
      log_bounded = v.log_bounded;
    })
  ]
]

-- Holding jobs one after the other.
abbrev pub holds : List PendingJobRef → PrivateModeGate → PrivateModeGate
holds [] g = g
holds (j ∷ js) g = holds js (gate_step (holding j) g)

pub is_held_self :
    (hs : List PendingJobRef) (j : PendingJobRef) → is_held j.op_id (hs ++ j ∷ []) ≡ true
unfolding is_held
is_held_self [] j = rw (eq_refl j.op_id)
is_held_self (x ∷ hs) j = ground (arith, is_held_self hs j)

is_held-grow :
    (id : String) (hs : List PendingJobRef) (j : PendingJobRef)
    → is_held id hs ≡ true
    → is_held id (hs ++ j ∷ []) ≡ true
unfolding is_held
is_held-grow id [] j h = cc
is_held-grow id (x ∷ hs) j h = ground (arith, is_held-grow id hs j, h)

hold_while_private-keeps :
    (id : String) (j : PendingJobRef) (g : PrivateModeGate)
    → is_held id g.held ≡ true
    → is_held id (gate_step (holding j) g).held ≡ true
unfolding gate_step hold_while_private
hold_while_private-keeps id j g h = ground (arith, is_held-grow id g.held j h)

hold_while_private_self :
    (j : PendingJobRef) (g : PrivateModeGate)
    → g.private_mode ≡ true
    → is_held j.op_id (gate_step (holding j) g).held ≡ true
unfolding gate_step hold_while_private
hold_while_private_self j g on = ground (arith, is_held_self g.held j)

private_mode-hold :
    (j : PendingJobRef) (g : PrivateModeGate)
    → (gate_step (holding j) g).private_mode ≡ g.private_mode
unfolding gate_step hold_while_private
private_mode-hold j g = ground arith

private_mode-holds :
    (js : List PendingJobRef) (g : PrivateModeGate) → (holds js g).private_mode ≡ g.private_mode
private_mode-holds [] g = refl
private_mode-holds (j ∷ js) g =
    private_mode-holds js (gate_step (holding j) g) ∙ private_mode-hold j g

holds-keeps :
    (js : List PendingJobRef) (id : String) (g : PrivateModeGate)
    → is_held id g.held ≡ true
    → is_held id (holds js g).held ≡ true
holds-keeps [] id g h = h
holds-keeps (j ∷ js) id g h =
    holds-keeps js id (gate_step (holding j) g) (hold_while_private-keeps id j g h)

holds-all :
    (js : List PendingJobRef) (g : PrivateModeGate)
    → g.private_mode ≡ true
    → All (λ j. is_held j.op_id (holds js g).held ≡ true) js
holds-all [] g on = tt
holds-all (j ∷ js) g on = (
  holds-keeps js j.op_id (gate_step (holding j) g) (hold_while_private_self j g on),
  holds-all js (gate_step (holding j) g) (private_mode-hold j g ∙ on),
)

-- What `resume` hands to the listeners after the jobs `js` were held: the references of all that
-- the gate held, every job of `js` among them; the gate is then open and empty, and the event
-- counts the references.
pub record IsReleased (js : List PendingJobRef) (g : PrivateModeGate)
    (w : PrivateModeGate × PrivateModeEvent) : Type 0 where
  pub batch : List PendingJobRef
  pub handed : w.0.released ≡ g.released ++ batch ∷ []
  pub complete : All (λ j. is_held j.op_id batch ≡ true) js
  pub counted : w.1.held_jobs ≡ length batch
  pub open_after : (w.0.private_mode ≡ false) × (w.0.held ≡ [])

-- Every job that was held while the gate was private is handed to the listeners by the next
-- `resume`, which leaves the gate open and empty.
pub resume-IsReleased :
    (js : List PendingJobRef) (g : PrivateModeGate)
    → g.private_mode ≡ true
    → IsReleased js (holds js g) (resume (holds js g))
unfolding resume
resume-IsReleased js g on =
    let still = private_mode-holds js g ∙ on in
    simp still (record {
      batch = (holds js g).held;
      handed = refl;
      complete = holds-all js g on;
      counted = refl;
      open_after = (refl, refl);
    })
