-- ===== src/Openclaw/Cascade/Settling.antt =====
-- How an action and a repair end (internal/openclaw/action.go, cascade.go).
use mathlib.Core.Path.{subst}
use text.Mathlib.Text.{◌==◌ as str_eq}
use clawmast.Prelude.{
  ℕ, ◌+◌, ◌<◌, Time, String, Bool, true, false, ◌||◌, none, some, [], ◌∷◌, ◌++◌, ◌≡◌, ◌≢◌, inl, inr,
  refl, sym, ap, ◌∙◌, arith, eq_iff, Bool-cases, leb, length, length-append, if◌then◌else◌,
}
use clawmast.Openclaw.ActionLog.{
  StepEvent, action_log_max_events, record_action_event, finalize_action_log, reset_action_log,
}
use clawmast.Openclaw.Poller.{
  Manager, probe_now, update_snapshot, carry_over, with_phase, fired, action_name,
  current_action_of, set_current_action, clear_current_action, stamp_start_attempt,
}
use clawmast.Openclaw.Poller.History.{one_fall}
use clawmast.Openclaw.Poller.Healing.{one_quiet}
use Prim.Native.String.{◌++◌ as str_append}
use clawmast.Openclaw.Cascade.{
  with_result, end_event, start_event, note_of, join_argv, action_argv, Ran, Stream, Probe, emit,
  run_step, probed, closed, finalize, opened, on_manager, outcome_of, valid_action, ActionScript,
  reject_action, perform_action, run_action,
}

-- An action of that name is in flight, and the log holds what was sent.
abbrev pub InFlight : String → ℕ → Stream → Type 0
InFlight name n s =
    (s.manager.current_action ≡ some name)
    × (s.manager.action_log.name ≡ name)
    × (s.manager.action_log.running ≡ true)
    × (s.manager.action_log.events ≡ s.sent)
    × (length s.sent ≡ n)

-- No action is in flight, and the log is that of the action of that name, complete and settled.
abbrev pub Settled : String → String → ℕ → Stream → Type 0
Settled name outcome n s =
    (s.manager.current_action ≡ none)
    × (s.manager.action_log.name ≡ name)
    × (s.manager.action_log.running ≡ false)
    × (s.manager.action_log.outcome ≡ outcome)
    × (s.manager.action_log.events ≡ s.sent)
    × (length s.sent ≡ n)

pub opened-InFlight :
    (name : String) (begin : Time) (m : Manager) → name ≢ "" → InFlight name 0 (opened name begin m)
unfolding set_current_action reset_action_log
opened-InFlight name begin m named = ground (arith, eq_iff name "")

name_set :
    (name : String) (n : ℕ) (s : Stream)
    → name ≢ ""
    → InFlight name n s
    → str_eq s.manager.action_log.name "" ≡ false
name_set name n s named h = rw h.1 (ground (arith, eq_iff name ""))

has_room :
    (name : String) (n : ℕ) (s : Stream)
    → n < action_log_max_events
    → InFlight name n s
    → leb action_log_max_events (length s.manager.action_log.events) ≡ false
has_room name n s room h = rw h.3 (rw h.4 (ground arith))

busy :
    (name : String) (n : ℕ) (s : Stream)
    → name ≢ ""
    → InFlight name n s
    → current_action_of s.manager ≢ ""
unfolding current_action_of
busy name n s named h = λ e. named (sym (ap action_name h.0) ∙ e)

pub emit-InFlight :
    (name : String) (n : ℕ) (ev : StepEvent) (s : Stream)
    → name ≢ ""
    → n < action_log_max_events
    → InFlight name n s
    → InFlight name (n + 1) (emit ev s)
unfolding emit record_action_event
emit-InFlight name n ev s named room h =
    let (action, named_log, running, same, count) = h in
    rw (name_set name n s named h, has_room name n s room h)
      (
        action,
        named_log,
        running,
        ap (λ l. l ++ ev ∷ []) same,
        omega (arith, count, length-append s.sent (ev ∷ [])),
      )

pub probed-InFlight :
    (name : String) (n : ℕ) (p : Probe) (s : Stream)
    → name ≢ ""
    → InFlight name n s
    → InFlight name n (probed p s).0 × ((probed p s).1 ≡ false)
unfolding probed probe_now update_snapshot carry_over with_phase fired current_action_of
probed-InFlight name n (next, now) s named h =
    (h, one_quiet next now s.manager (inl (busy name n s named h)))

pub closed-Settled :
    (name outcome : String) (n : ℕ) (finish : Time) (s : Stream)
    → name ≢ ""
    → InFlight name n s
    → Settled name outcome n (closed outcome finish s)
unfolding closed finalize clear_current_action finalize_action_log
closed-Settled name outcome n finish s named h =
    let (action, named_log, running, same, count) = h in
    rw (name_set name n s named h) (refl, named_log, refl, refl, same, count)

pub run_step-InFlight :
    (name : String) (n : ℕ) (step command : String) (ran : Ran) (s : Stream)
    → name ≢ ""
    → n + 1 < action_log_max_events
    → InFlight name n s
    → InFlight name (n + 2) (run_step step command ran s)
unfolding run_step
run_step-InFlight name n step command ran s named room h =
    let two : n + 1 + 1 ≡ n + 2 = omega arith in
    subst (λ k. InFlight name k (run_step step command ran s)) two
      (emit-InFlight name (n + 1)
        (with_result ran.result
          (end_event step (outcome_of ran.result ran.error) command (note_of ran.error)))
        (emit (start_event step command "") s) named room
        (emit-InFlight name n (start_event step command "") s named (omega arith) h))

pub probed_alive : (p : Probe) (s : Stream) → (probed p s).0.manager.snap.alive ≡ p.0.alive
unfolding probed
probed_alive (next, now) s = (one_fall next now s.manager).2

reject-Settled :
    (quote : String → String) (a : String) (sc : ActionScript) (s : Stream)
    → a ≢ ""
    → InFlight a 0 s
    → Settled a "failed" 1 (reject_action quote a sc s)
unfolding reject_action
reject-Settled quote a sc s named h =
    let ev =
      end_event (str_append "action-" a) "failed" "" (str_append "unknown action " (quote a)) in
    closed-Settled a "failed" 1 sc.finish (emit ev s) named
      (emit-InFlight a 0 ev s named (omega arith) h)

pub stamped-InFlight :
    (name : String) (n : ℕ) (starts : Bool) (t : Time) (s : Stream)
    → InFlight name n s
    → InFlight name n (if starts then on_manager (stamp_start_attempt t) s else s)
unfolding stamp_start_attempt
stamped-InFlight name n true t s h = h
stamped-InFlight name n false t s h = h

perform-Settled :
    (a : String) (sc : ActionScript) (s : Stream)
    → a ≢ ""
    → InFlight a 0 s
    → Settled a (outcome_of sc.ran.result sc.ran.error) 2 (perform_action a sc s).0
      × ((perform_action a sc s).1 ≡ false)
unfolding perform_action
perform-Settled a sc s named h =
    let ran = run_step (str_append "action-" a) (join_argv ("openclaw" ∷ action_argv a)) sc.ran s in
    let starts = str_eq a "start" || str_eq a "restart" in
    let stamped = if starts then on_manager (stamp_start_attempt sc.stamp) ran else ran in
    let ran_h =
      run_step-InFlight a 0 (str_append "action-" a) (join_argv ("openclaw" ∷ action_argv a)) sc.ran
        s named (omega arith) h in
    let (flies, quiet) =
      probed-InFlight a 2 sc.probe stamped named (stamped-InFlight a 2 starts sc.stamp ran ran_h) in
    (
      closed-Settled a (outcome_of sc.ran.result sc.ran.error) 2 sc.finish
          (probed sc.probe stamped).0 named flies,
      quiet,
    )

-- However a single action ends, known or unknown, if its name is not empty, the operator's log is
-- settled: no action is in flight, the log holds exactly the events that were sent, one for an unknown action and two for the
-- others, and its outcome is that of the command. Its probe does not start autoheal.
pub run_action-Settled :
    (quote : String → String) (a : String) (sc : ActionScript) (m : Manager)
    → a ≢ ""
    → let (s, fire) = run_action quote a sc m in
      Settled a
        (if valid_action a then outcome_of sc.ran.result sc.ran.error else "failed")
        (if valid_action a then 2 else 1)
        s
      × (fire ≡ false)
unfolding run_action
run_action-Settled quote a sc m named = elim (Bool-cases (valid_action a)) [
  | inl known ↦
      rw known
        (perform-Settled a sc (opened a sc.begin m) named (opened-InFlight a sc.begin m named))
  | inr unknown ↦ rw unknown (
    reject-Settled quote a sc (opened a sc.begin m) named (opened-InFlight a sc.begin m named),
    refl,
  )
]
