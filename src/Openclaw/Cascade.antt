-- ===== src/Openclaw/Cascade.antt =====
-- internal/openclaw/action.go and cascade.go: the single actions and the repair in three tiers. What a
-- command and a probe return is an argument; the two functions that run a command emit alike.
pub mod Settling
pub mod Tiers
use Prim.Native.String.{◌++◌ as str_append}
use text.Mathlib.Text.{◌==◌ as str_eq}
use clawmast.Prelude.{
  ℕ, Time, String, Bool, true, false, not, ◌||◌, Option, none, some, List, [], ◌∷◌, ◌++◌, ◌==◌,
  if◌then◌else◌,
}
use clawmast.Openclaw.Phase.{Snapshot}
use clawmast.Openclaw.ActionLog.{StepEvent, record_action_event, finalize_action_log}
use clawmast.Openclaw.Poller.{
  Manager, probe_now, set_current_action, clear_current_action, stamp_start_attempt,
}

-- Result of runCmd, with the output as trimErr leaves it; an exit code of -1 is given as 2^64 - 1.
pub record Result : Type 0 where
  pub killed : Bool
  pub duration_ms : ℕ
  pub exit_code : ℕ
  pub stdout_tail : String
  pub stderr_tail : String

-- What runCmd returns: the result, unless it is nil, and the text of the error, if there is one.
pub record Ran : Type 0 where
  pub result : Option Result
  pub error : Option String

-- The manager, with the events sent on the channel so far.
pub record Stream : Type 0 where
  pub manager : Manager
  pub sent : List StepEvent

-- What a probe returns, and when it is stored.
abbrev pub Probe : Type 0
Probe = Snapshot × Time

unfoldable pub valid_action : String → Bool
valid_action name =
    str_eq name "start" || str_eq name "stop" || str_eq name "restart" || str_eq name "doctor"

abbrev pub action_argv : String → List String
action_argv a =
    if str_eq a "start"
    then "gateway" ∷ "start" ∷ []
    else if str_eq a "stop"
    then "gateway" ∷ "stop" ∷ []
    else if str_eq a "restart"
    then "gateway" ∷ "restart" ∷ []
    else if str_eq a "doctor"
    then "doctor" ∷ []
    else []

abbrev pub join_rest : List String → String
join_rest [] = ""
join_rest (a ∷ rest) = str_append " " (str_append a (join_rest rest))

abbrev pub join_argv : List String → String
join_argv [] = ""
join_argv (a ∷ rest) = str_append a (join_rest rest)

was_killed : Option Result → Bool
was_killed none = false
was_killed (some r) = r.killed

exit_of : Option Result → ℕ
exit_of none = 0
exit_of (some r) = r.exit_code

unfoldable pub outcome_of : Option Result → Option String → String
unfolding was_killed exit_of
outcome_of r (some error) = if was_killed r then "timeout" else "failed"
outcome_of r none = if not (exit_of r == 0) then "failed" else "ok"

abbrev pub note_of : Option String → String
note_of none = ""
note_of (some e) = e

abbrev pub start_event : String → String → String → StepEvent
start_event step command note = record {
  step = step;
  phase = "start";
  outcome = "";
  command = command;
  duration_ms = 0;
  exit_code = 0;
  stdout_tail = "";
  stderr_tail = "";
  note = note;
}

abbrev pub with_result : Option Result → StepEvent → StepEvent
with_result none ev = ev
with_result (some r) ev = record ev {
  duration_ms = r.duration_ms;
  exit_code = r.exit_code;
  stdout_tail = r.stdout_tail;
  stderr_tail = r.stderr_tail;
}

abbrev pub end_event : String → String → String → String → StepEvent
end_event step outcome command note = record (start_event step command note) {
  phase = "end";
  outcome = outcome;
}

-- RecordActionEvent, then the send.
unfoldable pub emit : StepEvent → Stream → Stream
emit ev s = record s {
  manager = record s.manager { action_log = record_action_event ev s.manager.action_log };
  sent = s.sent ++ ev ∷ [];
}

-- runStep and runSystemStep.
unfoldable pub run_step : String → String → Ran → Stream → Stream
run_step step command ran s =
    let started = emit (start_event step command "") s in
    emit
      (with_result ran.result
        (end_event step (outcome_of ran.result ran.error) command (note_of ran.error)))
      started

unfoldable pub finalize : String → Time → Manager → Manager
finalize outcome now m = record m { action_log = finalize_action_log outcome now m.action_log }

-- ProbeNow; the Boolean says that autoheal is started.
unfoldable pub probed : Probe → Stream → Stream × Bool
probed (next, now) s =
    let (m, fire) = probe_now next now s.manager in (record s { manager = m }, fire)

abbrev pub on_manager : (Manager → Manager) → Stream → Stream
on_manager f s = record s { manager = f s.manager }

abbrev pub opened : String → Time → Manager → Stream
opened name begin m = record { manager = set_current_action name begin m; sent = [] }

-- The end of an action: the log is finalised, and the deferred clearCurrentAction runs.
unfoldable pub closed : String → Time → Stream → Stream
closed outcome finish s = on_manager (λ m. clear_current_action (finalize outcome finish m)) s

-- What the environment does during RunAction: the clock when the log is reset, what the command
-- leads to, the clock when the attempt is stamped, the probe, and the clock at the end.
pub record ActionScript : Type 0 where
  pub begin : Time
  pub ran : Ran
  pub stamp : Time
  pub probe : Probe
  pub finish : Time

-- `quote` is the verb %q.
unfoldable pub reject_action : (String → String) → String → ActionScript → Stream → Stream
reject_action quote a sc s = closed "failed" sc.finish (
    emit (end_event (str_append "action-" a) "failed" "" (str_append "unknown action " (quote a)))
      s)

unfoldable pub perform_action : String → ActionScript → Stream → Stream × Bool
perform_action a sc s =
    let ran = run_step (str_append "action-" a) (join_argv ("openclaw" ∷ action_argv a)) sc.ran s in
    let starts = str_eq a "start" || str_eq a "restart" in
    let stamped = if starts then on_manager (stamp_start_attempt sc.stamp) ran else ran in
    let (settled, fire) = probed sc.probe stamped in
    (closed (outcome_of sc.ran.result sc.ran.error) sc.finish settled, fire)

-- RunAction. The Boolean says that its probe starts autoheal.
unfoldable pub run_action : (String → String) → String → ActionScript → Manager → Stream × Bool
run_action quote a sc m =
    if not (valid_action a)
    then (reject_action quote a sc (opened a sc.begin m), false)
    else perform_action a sc (opened a sc.begin m)

-- What the environment does during Cascade; `os_argv` and `os_note` are what osRestartCommand returns.
pub record FixScript : Type 0 where
  pub begin : Time
  pub doctor : Ran
  pub after_doctor : Probe
  pub restart : Ran
  pub after_restart : Probe
  pub os_argv : Option (List String)
  pub os_note : String
  pub os_restart : Ran
  pub after_os : Probe
  pub stamp : Time
  pub finish : Time

-- finalizeFixLog, and the deferred clearCurrentAction.
unfoldable pub close_fix : FixScript → Stream → Stream
close_fix sc s = closed (if s.manager.snap.alive then "ok" else "failed") sc.finish s

-- healthyAfter held: the attempt is stamped.
unfoldable pub revived : FixScript → Stream → Stream
revived sc s = close_fix sc (on_manager (stamp_start_attempt sc.stamp) s)

unfoldable pub third_tier : FixScript → Option (List String) → Stream → Stream × Bool
third_tier sc none s = (
  close_fix sc (
      emit (end_event "t3-os-restart" "skipped" "" sc.os_note)
        (emit (start_event "t3-os-restart" "" sc.os_note) s)),
  false,
)
third_tier sc (some argv) s =
    let ran = run_step "t3-os-restart" (join_argv argv) sc.os_restart s in
    let (settled, fire) = probed sc.after_os (on_manager (stamp_start_attempt sc.stamp) ran) in
    (close_fix sc settled, fire)

-- After a tier and the probe of healthyAfter: the end, or the result of the later tiers.
unfoldable pub escalate : FixScript → Stream × Bool → Stream × Bool → Stream × Bool
escalate sc (settled, fire) (later, fire_later) =
    if settled.manager.snap.alive then (revived sc settled, fire) else (later, fire || fire_later)

unfoldable pub second_tier : FixScript → Stream → Stream × Bool
second_tier sc s =
    let tier =
      probed sc.after_restart
        (run_step "t2-gateway-restart" "openclaw gateway restart" sc.restart s) in
    escalate sc tier (third_tier sc sc.os_argv tier.0)

-- Cascade. The Boolean says that one of its probes starts autoheal.
unfoldable pub cascade : FixScript → Manager → Stream × Bool
cascade sc m =
    let tier =
      probed sc.after_doctor
        (run_step "t1-doctor" "openclaw doctor --fix" sc.doctor (opened "fix" sc.begin m)) in
    escalate sc tier (second_tier sc tier.0)
