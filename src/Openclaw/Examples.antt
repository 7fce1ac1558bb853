-- ===== src/Openclaw/Examples.antt =====
-- Runs of internal/openclaw on concrete inputs.
use clawmast.Prelude.{
  if◌then◌else◌, eq_iff, Time, String, Bool, true, false, none, some, List, [], ◌∷◌, ◌≡◌, ◌≢◌, ◌⊎◌,
  arith,
}
use clawmast.Openclaw.Phase.{
  unknown, no_error, intent_running, intent_stopped, Snapshot, AutohealConfig,
}
use clawmast.Openclaw.ActionLog.{StepEvent, idle_log, reset_action_log, finalize_action_log}
use clawmast.Openclaw.ActionLog.Replay.{record_all, replay_exact}
use clawmast.Openclaw.Cascade.{
  Ran, ActionScript, FixScript, outcome_of, valid_action, run_action, cascade,
}
use clawmast.Openclaw.Cascade.Settling.{Settled, run_action-Settled}
use clawmast.Openclaw.Cascade.Tiers.{IsFixed, cascade-IsFixed}
use clawmast.Openclaw.Poller.{Manager, active_poll_interval, current_action_of}
use clawmast.Openclaw.Poller.Healing.{
  heals, IsSpaced, IsWilling, heals-IsSpaced, down_long_enough_heals,
}

-- A gateway that a probe at the given time found alive or not.
abbrev pub seen : Bool → Time → Snapshot
seen up at = record {
  phase = unknown;
  probed = true;
  alive = up;
  cli_missing = false;
  binary_path = "/usr/local/bin/openclaw";
  binary_source = "brew";
  probe_error = no_error;
  last_probe_at = at;
  last_probe_ms = 3;
  last_alive_at = 0;
  health_ts = 0;
  health_duration_ms = 0;
  default_agent_id = "";
  heartbeat_seconds = 0;
  sessions_count = 0;
  channel_count = 0;
  last_enriched_at = 0;
  gateway_host = "127.0.0.1";
  gateway_port = 18_789;
  gateway_port_source = "default";
  gateway_addr_resolved = 0;
  intent = intent_running;
  current_action = "";
  gateway_pid = 77;
  gateway_pid_since = 0;
  crash_count = 0;
  probe_history = [];
  autoheal_enabled = true;
  autoheal_count = 0;
  autoheal_last_at = 0;
  autoheal_consecutive_down = 0;
  autoheal_next_eligible = 0;
}

abbrev pub healing : AutohealConfig
healing = record { enabled = true; threshold = 2; cooldown = 60 }

abbrev pub idle : Manager
idle = record {
  snap = seen true 0;
  interval = active_poll_interval;
  autoheal = healing;
  current_action = none;
  last_start_attempt = 0;
  action_log = idle_log;
}

abbrev outage : List (Snapshot × Time)
outage = (seen false 1, 10) ∷ (seen false 2, 12) ∷ []

heals-IsSpaced_example : IsSpaced 60 0 (heals outage idle)
heals-IsSpaced_example = heals-IsSpaced outage idle

abbrev stopping : Manager
stopping = record idle { current_action = some "stop" }

stopping_is_busy : (current_action_of stopping ≢ "") ⊎ (intent_running ≡ intent_stopped)
unfolding current_action_of
stopping_is_busy = ground (arith, eq_iff "stop" "")

idle-IsWilling : IsWilling idle
unfolding current_action_of
idle-IsWilling = ground arith

down_long_enough_heals_example : heals outage idle ≡ 12 ∷ []
down_long_enough_heals_example =
    down_long_enough_heals (seen false 1) 10 ((seen false 2, 12) ∷ []) idle idle-IsWilling
      (ground arith) (ground arith) (omega arith)

abbrev event : String → StepEvent
event step = record {
  step = step;
  phase = "finish";
  outcome = "ok";
  command = "";
  duration_ms = 5;
  exit_code = 0;
  stdout_tail = "";
  stderr_tail = "";
  note = "";
}

replay_exact_example :
    let log =
      finalize_action_log "ok" 9
        (record_all (event "doctor" ∷ event "start" ∷ []) (reset_action_log "fix" 3 idle_log)) in
    (log.events ≡ event "doctor" ∷ event "start" ∷ [])
    × (log.name ≡ "fix")
    × (log.running ≡ false)
    × (log.outcome ≡ "ok")
replay_exact_example =
    replay_exact "fix" 3 9 "ok" (event "doctor" ∷ event "start" ∷ []) idle_log
      (ground (arith, eq_iff "fix" ""))

abbrev worked : Ran
worked = record {
  result = some (record {
    killed = false;
    duration_ms = 40;
    exit_code = 0;
    stdout_tail = "done";
    stderr_tail = "";
  });
  error = none;
}

abbrev restarting : ActionScript
restarting = record {
  begin = 100;
  ran = worked;
  stamp = 101;
  probe = (seen true 3, 102);
  finish = 103;
}

run_action-Settled_example :
    let (s, fire) = run_action (λ a. a) "restart" restarting idle in
    Settled "restart"
      (if valid_action "restart" then outcome_of worked.result worked.error else "failed")
      (if valid_action "restart" then 2 else 1)
      s
    × (fire ≡ false)
run_action-Settled_example =
    run_action-Settled (λ a. a) "restart" restarting idle (ground (arith, eq_iff "restart" ""))

abbrev stubborn : FixScript
stubborn = record {
  begin = 100;
  doctor = worked;
  after_doctor = (seen false 3, 110);
  restart = worked;
  after_restart = (seen true 4, 120);
  os_argv = none;
  os_note = "T3 OS restart not implemented on plan9";
  os_restart = worked;
  after_os = (seen true 5, 130);
  stamp = 121;
  finish = 122;
}

cascade-IsFixed_example : IsFixed 4 (cascade stubborn idle)
cascade-IsFixed_example = cascade-IsFixed stubborn idle
