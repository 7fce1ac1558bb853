-- ===== src/Agent/Actions/Examples.antt =====
-- Actions over HTTP on a concrete manager (internal/agent/handlers_openclaw.go).
use clawmast.Prelude.{true, false, none, some, [], ◌∷◌, ◌++◌, ◌≡◌, refl}
use mathlib.Core.List.{map}
use clawmast.Openclaw.Phase.{intent_stopped, intent_running}
use clawmast.Openclaw.Poller.{Manager, get, set_intent}
use clawmast.Openclaw.Poller.Healing.{heals}
use clawmast.Openclaw.Cascade.{
  Ran, ActionScript, FixScript, outcome_of, valid_action, run_action, cascade,
}
use clawmast.Openclaw.Examples.{seen, idle}
use clawmast.Agent.Server.{replied}
use clawmast.Agent.Actions.{
  step_line, final_line, intent_for_action, with_intent, handle_openclaw_action, action_reply,
  handle_openclaw_fix,
}
use clawmast.Agent.Actions.Intents.{stop_holds}
use clawmast.Agent.Actions.Outcomes.{fix_matches_log, action_matches_log}

abbrev fine : Ran
fine = record {
  result = some (record {
    killed = false;
    duration_ms = 4;
    exit_code = 0;
    stdout_tail = "";
    stderr_tail = "";
  });
  error = none;
}

abbrev script : ActionScript
script = record { begin = 5; ran = fine; stamp = 6; probe = (seen false 7, 7); finish = 8 }

abbrev repair : FixScript
repair = record {
  begin = 5;
  doctor = fine;
  after_doctor = (seen false 6, 6);
  restart = fine;
  after_restart = (seen true 7, 7);
  os_argv = none;
  os_note = "";
  os_restart = fine;
  after_os = (seen true 8, 8);
  stamp = 9;
  finish = 10;
}

abbrev stopped : Manager
stopped =
    (run_action (λ a. a) "stop" script (with_intent (intent_for_action "stop") idle)).0.manager

stop_sent : (handle_openclaw_action (λ a. a) (some idle) "stop" script (some 1)).0 ≡ some stopped
unfolding handle_openclaw_action action_reply valid_action
stop_sent = refl

stop_holds_example :
    (stopped.snap.intent ≡ intent_stopped)
    × (heals ((seen false 20, 20) ∷ (seen false 22, 22) ∷ []) stopped ≡ [])
stop_holds_example =
    stop_holds (λ a. a) idle stopped script (some 1)
      ((seen false 20, 20) ∷ (seen false 22, 22) ∷ []) stop_sent

fix_matches_log_example :
    let m' = (cascade repair (set_intent intent_running idle)).0.manager in
    handle_openclaw_fix (some idle) repair none ≡ (
      some m',
      replied 200
          (map step_line m'.action_log.events ++ final_line m'.action_log.outcome (get m') ∷ []),
    )
fix_matches_log_example = fix_matches_log idle repair

known : valid_action "restart" ≡ true
unfolding valid_action
known = refl

action_matches_log_example :
    let m' =
      (run_action
        (λ a. a)
        "restart"
        script
        (with_intent (intent_for_action "restart") idle)).0.manager in
    (handle_openclaw_action (λ a. a) (some idle) "restart" script none ≡ (
      some m',
      replied 200
          (map step_line m'.action_log.events ++ final_line m'.action_log.outcome (get m') ∷ []),
    ))
    × (m'.action_log.outcome ≡ outcome_of fine.result fine.error)
action_matches_log_example = action_matches_log (λ a. a) idle "restart" script known
