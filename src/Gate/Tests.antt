-- ===== src/Gate/Tests.antt =====
-- Runs of the two gates of src/privacy/private-mode.ts and src/privacy/live-gate.ts, and their
-- theorems at concrete inputs.
use pi_kiwifs_memory.Prelude.{◌≡◌, refl, true, false, none, some, List, [], ◌∷◌, arith}
use pi_kiwifs_memory.Gate.{
  PendingJobRef, PrivateModeGate, holding, resume, gate_step, LiveGate, Reading, read_value,
  is_held,
}
use pi_kiwifs_memory.Gate.Stateful.{
  IsSound, IsReleased, holds, gate_step-IsSound, resume-IsReleased,
}
use pi_kiwifs_memory.Gate.Live.{rises}

abbrev first_job : PendingJobRef
first_job = record { op_id = "a"; kind = "observation" }

abbrev second_job : PendingJobRef
second_job = record { op_id = "b"; kind = "observation" }

abbrev closed_gate : PrivateModeGate
closed_gate = record { private_mode = true; events = []; held = first_job ∷ []; released = [] }

closed_gate-IsSound : IsSound closed_gate
unfolding is_held
closed_gate-IsSound = record {
  nothing_held_open = λ e. absurd (cc e);
  distinct = (refl, tt);
  log_bounded = omega arith;
}

gate_step-IsSound_example : IsSound (gate_step (holding second_job) closed_gate)
gate_step-IsSound_example = gate_step-IsSound (holding second_job) closed_gate closed_gate-IsSound

resume-IsReleased_example :
    IsReleased
      (first_job ∷ second_job ∷ [])
      (holds (first_job ∷ second_job ∷ []) closed_gate)
      (resume (holds (first_job ∷ second_job ∷ []) closed_gate))
resume-IsReleased_example = resume-IsReleased (first_job ∷ second_job ∷ []) closed_gate refl

abbrev listening : LiveGate
listening = record {
  last_observed = none;
  live_held = [];
  cancel_listeners = 1;
  disposed = false;
  fired = 0;
}

-- A failing reading and a private one after it are one rise; an open one resets it.
abbrev readings : List Reading
readings = none ∷ some true ∷ some false ∷ some true ∷ []

rises_twice : rises false readings ≡ 2
unfolding read_value
rises_twice = refl
