-- ===== src/Agent/Actions/Intents.antt =====
-- The operator's intent, which an action records (internal/agent/handlers_openclaw.go).
use clawmast.Prelude.{
  ℕ, Time, String, Bool, true, false, ◌||◌, Option, some, List, [], ◌∷◌, ◌≡◌, inr, refl, sym, ap,
  ◌∙◌, arith, if◌then◌else◌, str_eq,
}
use Prim.Native.String.{◌++◌ as str_append}
use clawmast.Openclaw.Phase.{Snapshot, intent_stopped}
use clawmast.Openclaw.Poller.{
  Manager, set_intent, set_current_action, clear_current_action, stamp_start_attempt,
}
use clawmast.Openclaw.Poller.Healing.{heals, hands_off, one_probe}
use clawmast.Openclaw.Cascade.{
  ActionScript, Stream, Probe, Ran, valid_action, run_action, perform_action, probed, emit,
  run_step, closed, opened, on_manager, finalize, outcome_of, action_argv, join_argv,
}
use clawmast.Agent.Actions.{intent_for_action, with_intent, action_reply, handle_openclaw_action}

run_step_snap :
    (step command : String) (ran : Ran) (s : Stream)
    → (run_step step command ran s).manager.snap ≡ s.manager.snap
unfolding run_step emit
run_step_snap step command ran s = refl

probed_intent :
    (p : Probe) (s : Stream) → (probed p s).0.manager.snap.intent ≡ s.manager.snap.intent
unfolding probed
probed_intent (next, now) s = let (healing, action, intent) = one_probe next now s.manager in intent

stamped_snap :
    (b : Bool) (t : Time) (s : Stream)
    → (if b then on_manager (stamp_start_attempt t) s else s).manager.snap ≡ s.manager.snap
unfolding stamp_start_attempt
stamped_snap true t s = refl
stamped_snap false t s = refl

closed_snap :
    (outcome : String) (t : Time) (s : Stream) → (closed outcome t s).manager.snap ≡ s.manager.snap
unfolding closed finalize clear_current_action
closed_snap outcome t s = refl

opened_snap : (name : String) (t : Time) (m : Manager) → (opened name t m).manager.snap ≡ m.snap
unfolding set_current_action
opened_snap name t m = ground arith

perform_intent :
    (a : String) (sc : ActionScript) (s : Stream)
    → (perform_action a sc s).0.manager.snap.intent ≡ s.manager.snap.intent
unfolding perform_action
perform_intent a sc s =
    let ran = run_step (str_append "action-" a) (join_argv ("openclaw" ∷ action_argv a)) sc.ran s in
    let starts = str_eq a "start" || str_eq a "restart" in
    let stamped = if starts then on_manager (stamp_start_attempt sc.stamp) ran else ran in
    let outcome = outcome_of sc.ran.result sc.ran.error in
    let intent = λ (x : Snapshot). x.intent in
    ap intent (closed_snap outcome sc.finish (probed sc.probe stamped).0)
    ∙ probed_intent sc.probe stamped
    ∙ ap intent (stamped_snap starts sc.stamp ran)
    ∙ ap intent
        (run_step_snap (str_append "action-" a) (join_argv ("openclaw" ∷ action_argv a)) sc.ran s)

-- A known action leaves the operator's intent as it is.
run_action_intent :
    (quote : String → String) (a : String) (sc : ActionScript) (m : Manager)
    → valid_action a ≡ true
    → (run_action quote a sc m).0.manager.snap.intent ≡ m.snap.intent
unfolding run_action
run_action_intent quote a sc m known = rw known (
    perform_intent a sc (opened a sc.begin m)
    ∙ ap (λ (x : Snapshot). x.intent) (opened_snap a sc.begin m))

intent_set : (m : Manager) → (with_intent (intent_for_action "stop") m).snap.intent ≡ intent_stopped
unfolding with_intent intent_for_action set_intent
intent_set m = refl

handled_manager :
    (quote : String → String) (m : Manager) (name : String) (sc : ActionScript) (client : Option ℕ)
    → valid_action name ≡ true
    → (handle_openclaw_action quote (some m) name sc client).0
      ≡ some (run_action quote name sc (with_intent (intent_for_action name) m)).0.manager
unfolding handle_openclaw_action action_reply
handled_manager quote m name sc client known = rw known refl

-- Once the operator asked for a stop, no probe starts autoheal, whatever the command returned, whether
-- or not the client stayed, and whatever the probes find.
pub stop_holds :
    (quote : String → String) (m m' : Manager) (sc : ActionScript) (client : Option ℕ)
    (probes : List (Snapshot × Time))
    → (handle_openclaw_action quote (some m) "stop" sc client).0 ≡ some m'
    → (m'.snap.intent ≡ intent_stopped) × (heals probes m' ≡ [])
unfolding valid_action
stop_holds quote m m' sc client probes h =
    let after = (run_action quote "stop" sc (with_intent (intent_for_action "stop") m)).0.manager in
    let same : after ≡ m' = cc (h, handled_manager quote m "stop" sc client refl) in
    let stopped : m'.snap.intent ≡ intent_stopped =
      ap (λ (x : Manager). x.snap.intent) (sym same)
      ∙ run_action_intent quote "stop" sc (with_intent (intent_for_action "stop") m) refl
      ∙ intent_set m in
    (stopped, hands_off probes m' (inr stopped))
