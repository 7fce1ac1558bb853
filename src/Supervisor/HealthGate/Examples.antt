-- ===== src/Supervisor/HealthGate/Examples.antt =====
-- Runs of internal/supervisor/healthgate.go on concrete inputs.
use mathlib.Core.List.{Memᴰ}
use clawmast.Prelude.{◌+◌, ◌≤◌, ◌<◌, Time, ◌≡◌, ◌≢◌, ◌↔◌, refl, true, ◌∷◌, [], List, arith}
use clawmast.Supervisor.HealthGate.{
  HealthGate, new_health_gate, armed, pending, pass, timed_out, arm, on_ready, is_active, on_crash,
  tick, next_wake,
}
use clawmast.Supervisor.HealthGate.Timing.{tick-next_wake, ready_late, arm_iff}
use clawmast.Supervisor.HealthGate.Runs.{GateEvent, ready, crash, wake, step, run, passes_sound}

-- Installed at 100 with a window of 90 and a stable period of 15: the deadline is 190.
abbrev fresh : HealthGate
fresh = (arm (new_health_gate 90 15) "v2" 100 110).0

fresh_armed : fresh.state ≡ armed
unfolding arm new_health_gate
fresh_armed = refl

fresh_active : is_active fresh ≡ true
unfolding is_active arm new_health_gate
fresh_active = refl

tick-next_wake_example : (tick fresh 190).1 ≢ pending
unfolding next_wake arm new_health_gate
tick-next_wake_example = tick-next_wake fresh 150 190 fresh_active (omega arith)

arm_iff_example :
    (((arm fresh "v3" 5 200).1 ≡ true) ↔ (200 < 5 + fresh.window))
    × (is_active (arm fresh "v3" 5 200).0 ≡ (arm fresh "v3" 5 200).1)
arm_iff_example = arm_iff fresh "v3" 5 200

ready_late_example :
    ((tick (on_ready fresh 180) (180 + next_wake (on_ready fresh 180) 180)).1 ≡ timed_out)
    × ((tick (on_ready fresh 180) 195).1 ≡ pass)
unfolding arm new_health_gate
ready_late_example = ready_late fresh 180 195 refl (omega arith) (omega arith) (omega arith)

abbrev good : List GateEvent
good = wake 120 ∷ ready 130 ∷ wake 145 ∷ crash 150 ∷ []

passes_sound_example :
    (r n : Time) × Memᴰ (ready r) good × Memᴰ (wake n) good × (r + fresh.stable_for ≤ n)
unfolding run step on_ready on_crash tick arm new_health_gate
passes_sound_example = passes_sound fresh good refl refl
