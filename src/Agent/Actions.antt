-- ===== src/Agent/Actions.antt =====
-- The action and repair handlers of internal/agent/handlers_openclaw.go. The actions run on when the
-- client is gone; how many events it has read by then is an argument.
pub mod Outcomes
pub mod Intents
mod Examples
use clawmast.Prelude.{
  ℕ, Time, String, Bool, true, false, not, ◌||◌, ◌&&◌, Option, none, some, List, [], ◌∷◌, ◌++◌,
  take, if◌then◌else◌, str_eq,
}
use mathlib.Core.List.{map}
use clawmast.Openclaw.Phase.{Snapshot, Intent, intent_unknown, intent_running, intent_stopped}
use clawmast.Openclaw.ActionLog.{StepEvent, ActionLogEntry}
use clawmast.Openclaw.Poller.{Manager, get, set_intent}
use clawmast.Openclaw.Cascade.{ActionScript, FixScript, Stream, valid_action, run_action, cascade}
use clawmast.Agent.Server.{Reply, refused, replied}

-- One line of the stream: a step, or the last event with the outcome and the snapshot.
pub data Line : Type 0 where
  step_line : StepEvent → Line
  final_line : String → Snapshot → Line

unfoldable pub intent_for_action : String → Intent
intent_for_action a =
    if str_eq a "stop"
    then intent_stopped
    else if str_eq a "start" || str_eq a "restart"
    then intent_running
    else intent_unknown

-- The test of the intent, and SetIntent.
unfoldable pub with_intent : Intent → Manager → Manager
with_intent intent_unknown m = m
with_intent intent m = set_intent intent m

unfoldable pub action_final_outcome : String → String
action_final_outcome cli = if str_eq cli "" || str_eq cli "ok" then "ok" else cli

unfoldable pub final_outcome : Bool → Bool → String
final_outcome true true = "ok"
final_outcome false false = "ok"
final_outcome _ _ = "failed"

-- cliOutcome: the outcome of the last end event that has one.
unfoldable pub cli_outcome : String → List StepEvent → String
cli_outcome last [] = last
cli_outcome last (ev ∷ rest) =
    cli_outcome (if str_eq ev.phase "end" && not (str_eq ev.outcome "") then ev.outcome else last)
      rest

-- What the client reads: all of it, or a number of events before it is gone.
unfoldable pub streamed : Option ℕ → List StepEvent → Line → List Line
streamed none events final = map step_line events ++ final ∷ []
streamed (some k) events final = map step_line (take k events)

unfoldable pub action_reply : Option ℕ → Stream × Bool → Manager × Reply (List Line)
action_reply client (s, fire) = (
  s.manager,
  replied 200 (
      streamed client s.sent
        (final_line (action_final_outcome (cli_outcome "" s.sent)) (get s.manager))),
)

-- handleOpenclawAction
unfoldable pub handle_openclaw_action :
    (String → String)
    → Option Manager
    → String
    → ActionScript
    → Option ℕ
    → Option Manager × Reply (List Line)
handle_openclaw_action quote none name sc client = (none, refused 503)
handle_openclaw_action quote (some m) name sc client =
    if not (valid_action name)
    then (some m, refused 400)
    else let (m', reply) =
        action_reply client (run_action quote name sc (with_intent (intent_for_action name) m)) in
      (some m', reply)

unfoldable pub fix_reply : Option ℕ → Stream × Bool → Manager × Reply (List Line)
fix_reply client (s, fire) = (
  s.manager,
  replied 200 (
      streamed client s.sent
        (final_line (final_outcome (get s.manager).alive true) (get s.manager))),
)

-- handleOpenclawFix
unfoldable pub handle_openclaw_fix :
    Option Manager → FixScript → Option ℕ → Option Manager × Reply (List Line)
handle_openclaw_fix none sc client = (none, refused 503)
handle_openclaw_fix (some m) sc client =
    let (m', reply) = fix_reply client (cascade sc (set_intent intent_running m)) in
    (some m', reply)

-- handleOpenclawStatus
unfoldable pub handle_openclaw_status : Option Manager → Reply Snapshot
handle_openclaw_status none = refused 503
handle_openclaw_status (some m) = replied 200 (get m)

-- handleOpenclawActionLog
unfoldable pub handle_openclaw_action_log : Option Manager → Reply ActionLogEntry
handle_openclaw_action_log none = refused 503
handle_openclaw_action_log (some m) = replied 200 m.action_log
