-- ===== src/Openclaw/Phase.antt =====
-- internal/openclaw/snapshot.go, phase.go and autoheal.go: the observed state of the gateway, the phase
-- that is shown for it, and the decision to heal it.
pub mod Decisions
use text.Mathlib.Text.{◌==◌ as str_eq}
use clawmast.Prelude.{
  ℕ, ◌+◌, ◌*◌, Time, Duration, second, String, Bool, true, false, not, ◌&&◌, ◌||◌, List, ltb,
  if◌then◌else◌, is_zero_time, before, since_ge,
}

pub data Phase : Type 0 where
  unknown missing stopped starting running error : Phase

pub data Intent : Type 0 where
  intent_unknown intent_running intent_stopped : Intent

pub record ProbeSample : Type 0 where
  pub at : Time
  pub alive : Bool
  pub probe_ms : ℕ

-- The text of ProbeError, by what it is made of; `no_error` is the empty text.
pub data ProbeError : Type 0 where
  no_error : ProbeError
  message : String → ProbeError
  http_status : ℕ → ProbeError
  exit_status : ℕ → String → ProbeError

-- A text in RFC 3339 is kept as its instant, the empty text as 0. The integers that OpenClaw reports
-- are kept as naturals.
pub record Snapshot : Type 0 where
  pub phase : Phase
  pub probed : Bool
  pub alive : Bool
  pub cli_missing : Bool
  pub binary_path : String
  pub binary_source : String
  pub probe_error : ProbeError
  pub last_probe_at : Time
  pub last_probe_ms : ℕ
  pub last_alive_at : Time
  pub health_ts : ℕ
  pub health_duration_ms : ℕ
  pub default_agent_id : String
  pub heartbeat_seconds : ℕ
  pub sessions_count : ℕ
  pub channel_count : ℕ
  pub intent : Intent
  pub current_action : String
  pub last_enriched_at : Time
  pub gateway_host : String
  pub gateway_port : ℕ
  pub gateway_port_source : String
  pub gateway_addr_resolved : Time
  pub gateway_pid : ℕ
  pub gateway_pid_since : Time
  pub crash_count : ℕ
  pub probe_history : List ProbeSample
  pub autoheal_enabled : Bool
  pub autoheal_count : ℕ
  pub autoheal_last_at : Time
  pub autoheal_consecutive_down : ℕ
  pub autoheal_next_eligible : Time

pub record AutohealConfig : Type 0 where
  pub enabled : Bool
  pub threshold : ℕ
  pub cooldown : Duration

abbrev pub warmup_grace_period : Duration
warmup_grace_period = 15 * second

unfoldable pub is_starting_action : String → Bool
is_starting_action name = str_eq name "start" || str_eq name "restart" || str_eq name "fix"

abbrev pub is_stopped : Intent → Bool
is_stopped intent_stopped = true
is_stopped _ = false

unfoldable pub compute_phase_with_grace : Snapshot → String → Time → Time → Duration → Phase
compute_phase_with_grace s current_action last_start_at now grace =
    if not s.probed
    then unknown
    else if s.cli_missing
    then missing
    else if is_stopped s.intent
    then stopped
    else if is_starting_action current_action
    then starting
    else if s.alive
    then running
    else if not (is_zero_time last_start_at) && not (since_ge now last_start_at grace)
    then starting
    else error

unfoldable pub compute_phase : Snapshot → String → Time → Time → Phase
unfolding compute_phase_with_grace
compute_phase s current_action last_start_at now =
    compute_phase_with_grace s current_action last_start_at now warmup_grace_period

unfoldable pub should_autoheal : Snapshot → AutohealConfig → Time → Bool
should_autoheal s cfg now =
    if not cfg.enabled
    then false
    else if s.alive
    then false
    else if is_stopped s.intent
    then false
    else if s.cli_missing
    then false
    else if ltb s.autoheal_consecutive_down cfg.threshold
    then false
    else if not (is_zero_time s.autoheal_next_eligible) && before now s.autoheal_next_eligible
    then false
    else true
