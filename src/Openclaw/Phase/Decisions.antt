-- ===== src/Openclaw/Phase/Decisions.antt =====
-- What the phase and the decision to heal mean (internal/openclaw/phase.go, autoheal.go).
use clawmast.Prelude.{◌+◌, ◌≤◌, Time, Duration, String, true, false, ◌≡◌, ◌≢◌, ◌↔◌, ◌⊎◌, arith}
use clawmast.Openclaw.Phase.{
  running, error, intent_stopped, Snapshot, AutohealConfig, is_starting_action,
  compute_phase_with_grace, should_autoheal,
}

-- Autoheal fires exactly when all of its gates are open.
pub should_autoheal_iff :
    (s : Snapshot) (cfg : AutohealConfig) (now : Time)
    → (should_autoheal s cfg now ≡ true) ↔ (
        (cfg.enabled ≡ true)
        × (s.alive ≡ false)
        × (s.intent ≢ intent_stopped)
        × (s.cli_missing ≡ false)
        × (cfg.threshold ≤ s.autoheal_consecutive_down)
        × ((s.autoheal_next_eligible ≡ 0) ⊎ (s.autoheal_next_eligible ≤ now)))
unfolding should_autoheal
should_autoheal_iff s cfg now = ground arith

-- The phase is an error exactly when a probe has found the gateway down and nothing explains it: the
-- CLI is there, no stop was asked for, nothing that starts it is in flight, and no attempt to start
-- it is still inside the grace period.
pub error_iff :
    (s : Snapshot) (action : String) (last_start now : Time) (grace : Duration)
    → (compute_phase_with_grace s action last_start now grace ≡ error) ↔ (
        (s.probed ≡ true)
        × (s.cli_missing ≡ false)
        × (s.intent ≢ intent_stopped)
        × (is_starting_action action ≡ false)
        × (s.alive ≡ false)
        × ((last_start ≡ 0) ⊎ (last_start + grace ≤ now)))
unfolding compute_phase_with_grace
error_iff s action last_start now grace = ground arith

-- The running phase is shown only for a gateway that the latest probe found alive, and a gateway
-- found alive is never shown as an error.
pub running_is_alive :
    (s : Snapshot) (action : String) (last_start now : Time) (grace : Duration)
    → (compute_phase_with_grace s action last_start now grace ≡ running → s.alive ≡ true)
      × (s.alive ≡ true → compute_phase_with_grace s action last_start now grace ≢ error)
unfolding compute_phase_with_grace
running_is_alive s action last_start now grace = ground arith
