-- ===== src/Supervisor/HealthGate.antt =====
-- internal/supervisor/healthgate.go: the observation window of a freshly installed version.
pub mod Timing
pub mod Runs
mod Examples
use clawmast.Prelude.{
  ℕ, ◌+◌, ◌-◌, ◌*◌, Time, Duration, second, String, Bool, true, false, ◌||◌, ◌==◌, not,
  if◌then◌else◌, before, since_ge,
}

abbrev pub default_gate_window : Duration
default_gate_window = 90 * second

abbrev pub default_gate_stable_for : Duration
default_gate_stable_for = 15 * second

pub data GateState : Type 0 where
  inactive armed stabilizing passed failed : GateState

pub data GateOutcome : Type 0 where
  pending pass crashed timed_out : GateOutcome

-- `no_reason` is the empty string.
pub data GateFailReason : Type 0 where
  no_reason crash timeout spawn_failed : GateFailReason

pub record HealthGate : Type 0 where
  pub window : Duration
  pub stable_for : Duration
  pub state : GateState
  pub version : String
  pub deadline : Time
  pub ready_at : Time
  pub fail_reason : GateFailReason

-- A duration that is not positive is given as 0.
unfoldable pub new_health_gate : Duration → Duration → HealthGate
new_health_gate window stable_for = record {
  window = if window == 0 then default_gate_window else window;
  stable_for = if stable_for == 0 then default_gate_stable_for else stable_for;
  state = inactive;
  version = "";
  deadline = 0;
  ready_at = 0;
  fail_reason = no_reason;
}

unfoldable pub arm : HealthGate → String → Time → Time → HealthGate × Bool
arm g version installed_at now =
    let deadline = installed_at + g.window in
    if not (before now deadline) then (record g { state = inactive }, false) else (
      record g {
        state = armed;
        version = version;
        deadline = deadline;
        ready_at = 0;
        fail_reason = no_reason;
      },
      true,
    )

on_ready_in : GateState → HealthGate → Time → HealthGate
on_ready_in armed g now = record g { state = stabilizing; ready_at = now }
on_ready_in _ g now = g

unfoldable pub on_ready : HealthGate → Time → HealthGate
unfolding on_ready_in
on_ready g now = on_ready_in g.state g now

abbrev pub is_watching : GateState → Bool
is_watching armed = true
is_watching stabilizing = true
is_watching _ = false

unfoldable pub is_active : HealthGate → Bool
is_active g = is_watching g.state

unfoldable pub on_crash : HealthGate → Time → HealthGate × GateOutcome
on_crash g now =
    if not (is_watching g.state)
    then (g, pending)
    else (record g { state = failed; fail_reason = crash }, crashed)

time_out : HealthGate → HealthGate × GateOutcome
time_out g = (record g { state = failed; fail_reason = timeout }, timed_out)

tick_in : GateState → HealthGate → Time → HealthGate × GateOutcome
unfolding time_out
tick_in stabilizing g now =
    if since_ge now g.ready_at g.stable_for
    then (record g { state = passed }, pass)
    else if not (before now g.deadline)
    then time_out g
    else (g, pending)
tick_in armed g now = if not (before now g.deadline) then time_out g else (g, pending)
tick_in _ g now = (g, pending)

unfoldable pub tick : HealthGate → Time → HealthGate × GateOutcome
unfolding tick_in
tick g now = tick_in g.state g now

-- untilNonNegative: the clamp at 0 is the truncated subtraction.
until_non_negative : Time → Time → Duration
until_non_negative deadline now = deadline - now

next_wake_in : GateState → HealthGate → Time → Duration
unfolding until_non_negative
next_wake_in armed g now = until_non_negative g.deadline now
next_wake_in stabilizing g now =
    let stable_by = g.ready_at + g.stable_for in
    if before stable_by g.deadline
    then until_non_negative stable_by now
    else until_non_negative g.deadline now
next_wake_in _ g now = 0

unfoldable pub next_wake : HealthGate → Time → Duration
unfolding next_wake_in
next_wake g now = next_wake_in g.state g now

unfoldable pub reset : HealthGate → HealthGate
reset g = record g { state = inactive }
