-- ===== src/Agent/Actions/Outcomes.antt =====
-- What the stream of an action reports (internal/agent/handlers_openclaw.go).
use clawmast.Prelude.{
  Time, String, Bool, true, false, ◌||◌, Option, none, some, [], ◌∷◌, ◌++◌, ◌≡◌, ◌≢◌, inl, inr,
  refl, sym, ap, ◌∙◌, arith, Bool-cases, if◌then◌else◌, str_eq, eq_iff,
}
use Prim.Native.String.{◌++◌ as str_append}
use mathlib.Core.List.{map}
use clawmast.Openclaw.Phase.{intent_running}
use clawmast.Openclaw.Poller.{Manager, get, set_intent, stamp_start_attempt}
use clawmast.Openclaw.Cascade.{
  ActionScript, FixScript, Stream, Probe, Ran, valid_action, run_action, cascade, perform_action,
  Result, start_event, end_event, with_result, note_of, probed, emit, run_step, closed, opened,
  on_manager, outcome_of, action_argv, join_argv,
}
use clawmast.Openclaw.Cascade.Tiers.{cascade-IsFixed}
use clawmast.Openclaw.Cascade.Settling.{run_action-Settled}
use clawmast.Agent.Server.{replied}
use clawmast.Agent.Actions.{
  step_line, final_line, intent_for_action, with_intent, action_final_outcome, final_outcome,
  cli_outcome, streamed, action_reply, handle_openclaw_action, fix_reply, handle_openclaw_fix,
}

probed_sent : (p : Probe) (s : Stream) → (probed p s).0.sent ≡ s.sent
unfolding probed
probed_sent (next, now) s = refl

stamped_sent :
    (b : Bool) (t : Time) (s : Stream)
    → (if b then on_manager (stamp_start_attempt t) s else s).sent ≡ s.sent
stamped_sent true t s = refl
stamped_sent false t s = refl

closed_sent : (outcome : String) (t : Time) (s : Stream) → (closed outcome t s).sent ≡ s.sent
unfolding closed
closed_sent outcome t s = refl

filled : (r : Option Result) (e : Option String) → outcome_of r e ≢ ""
unfolding outcome_of
filled none none = ground (arith, eq_iff "failed" "", eq_iff "ok" "")
filled (some r) none = ground (arith, eq_iff "failed" "", eq_iff "ok" "")
filled none (some e) = ground (arith, eq_iff "failed" "", eq_iff "timeout" "")
filled (some r) (some e) = ground (arith, eq_iff "failed" "", eq_iff "timeout" "")

end_outcome :
    (step command note outcome : String) (r : Option Result)
    → outcome ≢ ""
    → cli_outcome ""
        (start_event step command "" ∷ with_result r (end_event step outcome command note) ∷ [])
      ≡ outcome
unfolding cli_outcome
end_outcome step command note outcome none h = ground (arith, h, eq_iff outcome "")
end_outcome step command note outcome (some r) h = ground (arith, h, eq_iff outcome "")

step_outcome :
    (step command : String) (ran : Ran) (s : Stream)
    → s.sent ≡ []
    → cli_outcome "" (run_step step command ran s).sent ≡ outcome_of ran.result ran.error
unfolding run_step emit cli_outcome
step_outcome step command ran s fresh = rw fresh (
    end_outcome step command (note_of ran.error) (outcome_of ran.result ran.error) ran.result
      (filled ran.result ran.error))

perform_outcome :
    (a : String) (sc : ActionScript) (s : Stream)
    → s.sent ≡ []
    → cli_outcome "" (perform_action a sc s).0.sent ≡ outcome_of sc.ran.result sc.ran.error
unfolding perform_action
perform_outcome a sc s fresh =
    let ran = run_step (str_append "action-" a) (join_argv ("openclaw" ∷ action_argv a)) sc.ran s in
    let starts = str_eq a "start" || str_eq a "restart" in
    let stamped = if starts then on_manager (stamp_start_attempt sc.stamp) ran else ran in
    let outcome = outcome_of sc.ran.result sc.ran.error in
    ap (cli_outcome "") (
      closed_sent outcome sc.finish (probed sc.probe stamped).0
      ∙ probed_sent sc.probe stamped
      ∙ stamped_sent starts sc.stamp ran)
    ∙ step_outcome (str_append "action-" a) (join_argv ("openclaw" ∷ action_argv a)) sc.ran s fresh

log_lines :
    (s : Stream) (final : String)
    → s.manager.action_log.events ≡ s.sent
    → s.manager.action_log.outcome ≡ final
    → let m = s.manager in
      streamed none s.sent (final_line final (get m))
      ≡ map step_line m.action_log.events ++ final_line m.action_log.outcome (get m) ∷ []
unfolding streamed
log_lines s final events outcome =
    let m = s.manager in
    ap (λ es. map step_line es ++ final_line final (get m) ∷ []) (sym events)
    ∙ ap (λ o. map step_line m.action_log.events ++ final_line o (get m) ∷ []) (sym outcome)

final_alive :
    (m : Manager) → final_outcome (get m).alive true ≡ (if m.snap.alive then "ok" else "failed")
unfolding final_outcome get
final_alive m = elim (Bool-cases m.snap.alive) [ inl up ↦ rw up refl | inr down ↦ rw down refl ]

-- The stream of a repair to a client that stays is the log that a later client is shown: its events,
-- and a last line with its outcome and the snapshot.
pub fix_matches_log :
    (m : Manager) (sc : FixScript)
    → let m' = (cascade sc (set_intent intent_running m)).0.manager in
      handle_openclaw_fix (some m) sc none ≡ (
        some m',
        replied 200
            (map step_line m'.action_log.events ++ final_line m'.action_log.outcome (get m') ∷ []),
      )
unfolding handle_openclaw_fix fix_reply
fix_matches_log m sc =
    let (s, fire) = cascade sc (set_intent intent_running m) in
    let ((action, name, running, outcome, events, count), quiet) =
      cascade-IsFixed sc (set_intent intent_running m) in
    ap (λ l. (some s.manager, replied 200 l))
      (log_lines s (final_outcome (get s.manager).alive true) events
        (outcome ∙ sym (final_alive s.manager)))

run_outcome :
    (quote : String → String) (a : String) (sc : ActionScript) (m : Manager)
    → valid_action a ≡ true
    → action_final_outcome (cli_outcome "" (run_action quote a sc m).0.sent)
      ≡ outcome_of sc.ran.result sc.ran.error
unfolding run_action action_final_outcome
run_outcome quote a sc m known =
    let e = perform_outcome a sc (opened a sc.begin m) refl in
    let o = outcome_of sc.ran.result sc.ran.error in
    rw (known, e) (ground (arith, filled sc.ran.result sc.ran.error, eq_iff o "", eq_iff o "ok"))

known_named : (name : String) → valid_action name ≡ true → name ≢ ""
unfolding valid_action
known_named name known = λ e. let wrong : valid_action "" ≡ true = rw e at known in cc

-- The stream of a single action that is known, to a client that stays, is the log that a later client is
-- shown: its events, and a last line with the outcome of the log and the snapshot. That outcome is the
-- one of the command.
pub action_matches_log :
    (quote : String → String) (m : Manager) (name : String) (sc : ActionScript)
    → valid_action name ≡ true
    → let m' = (run_action quote name sc (with_intent (intent_for_action name) m)).0.manager in
      (handle_openclaw_action quote (some m) name sc none ≡ (
        some m',
        replied 200
            (map step_line m'.action_log.events ++ final_line m'.action_log.outcome (get m') ∷ []),
      ))
      × (m'.action_log.outcome ≡ outcome_of sc.ran.result sc.ran.error)
unfolding handle_openclaw_action action_reply
action_matches_log quote m name sc known =
    let m0 = with_intent (intent_for_action name) m in
    let s = (run_action quote name sc m0).0 in
    let ((action, same, running, outcome, events, count), quiet) =
      run_action-Settled quote name sc m0 (known_named name known) in
    let verdict : s.manager.action_log.outcome ≡ outcome_of sc.ran.result sc.ran.error =
      rw known at outcome in
    rw known (
      ap (λ l. (some s.manager, replied 200 l))
          (log_lines s (action_final_outcome (cli_outcome "" s.sent)) events
            (verdict ∙ sym (run_outcome quote name sc m0 known))),
      verdict,
    )
