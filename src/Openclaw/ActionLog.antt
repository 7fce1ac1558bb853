-- ===== src/Openclaw/ActionLog.antt =====
-- internal/openclaw/actionlog.go, and the step events of cascade.go that it keeps.
pub mod Replay
use text.Mathlib.Text.{◌==◌ as str_eq}
use clawmast.Prelude.{
  ℕ, Time, String, Bool, true, false, List, [], ◌∷◌, ◌++◌, leb, length, if◌then◌else◌,
}

pub record StepEvent : Type 0 where
  pub step : String
  pub phase : String
  pub outcome : String
  pub command : String
  pub duration_ms : ℕ
  pub exit_code : ℕ
  pub stdout_tail : String
  pub stderr_tail : String
  pub note : String

pub record ActionLogEntry : Type 0 where
  pub name : String
  pub running : Bool
  pub outcome : String
  pub started_at : Time
  pub finished_at : Time
  pub events : List StepEvent

abbrev pub action_log_max_events : ℕ
action_log_max_events = 256

abbrev pub idle_log : ActionLogEntry
idle_log = record {
  name = "";
  running = false;
  outcome = "";
  started_at = 0;
  finished_at = 0;
  events = [];
}

unfoldable pub reset_action_log : String → Time → ActionLogEntry → ActionLogEntry
reset_action_log name now log = record {
  name = name;
  running = true;
  outcome = "";
  started_at = now;
  finished_at = 0;
  events = [];
}

unfoldable pub record_action_event : StepEvent → ActionLogEntry → ActionLogEntry
record_action_event ev log =
    if str_eq log.name ""
    then log
    else if leb action_log_max_events (length log.events)
    then log
    else record log { events = log.events ++ ev ∷ [] }

unfoldable pub finalize_action_log : String → Time → ActionLogEntry → ActionLogEntry
finalize_action_log outcome now log =
    if str_eq log.name ""
    then log
    else record log { running = false; outcome = outcome; finished_at = now }
