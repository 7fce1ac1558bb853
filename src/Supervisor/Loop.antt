-- ===== src/Supervisor/Loop.antt =====
-- loop of internal/supervisor/loop.go: one turn spawns a worker, watches it and decides what is next.
-- filepath.Base and the JSON codecs are parameters.
pub mod Gate
pub mod Blocking
pub mod Fresh
mod Examples
use text.Mathlib.Text.{◌==◌ as str_eq}
use clawmast.Prelude.{
  ℕ, zero, suc, Time, String, Bool, true, false, Option, none, some, List, [], ◌∷◌, if◌then◌else◌,
}
use clawmast.Json.{Codec}
use clawmast.Blacklist.{Entry}
use clawmast.SelfUpdate.Marker.{GateMarker}
use clawmast.Supervisor.Backoff
use clawmast.Supervisor.Backoff.{Signed, delay, record_crash, consecutive, should_rollback}
use clawmast.Supervisor.HealthGate.{GateFailReason, on_crash, is_active}
use clawmast.Supervisor.HealthGate
use clawmast.Supervisor.State.{
  HistoryEntry, Supervisor, Disk, LoopError, stop_error, resolve_failed, record_history,
}
use clawmast.Supervisor.State
use clawmast.Supervisor.Rollback.{
  BlacklistCheck, proceed, blocked, check_blacklist, rollback_for_install_health, prepare_gate,
  attempt_rollback, attempt_worker_requested_rollback, attempt_spawn_failure_rollback,
}
use clawmast.Supervisor.Session.{
  OutcomeKind, crash, no_restart, rollback, stopped, install_health_timeout, spawn_failure,
  SpawnOutcome, SpawnEvent, Finish, still_running, finished, run_one_spawn,
}

-- How a turn ends: the next turn starts at once or after a delay, the loop returns (with an error
-- or nil), or the worker is still running.
pub data Next : Type 0 where
  again : Next
  backing_off : Signed → Next
  returned : Option LoopError → Next
  watching : Next

-- What the environment does during a turn: whether the context is cancelled when it starts (during
-- the sleep before it, too, which then ends at once), the clock when the gate is prepared and when a crash is
-- seen, the random draw, a failure of cmd.Start, and what the select receives.
pub record Script (B : Type 0) : Type 0 where
  pub cancelled : Bool
  pub disk : Disk B
  pub at_spawn : Time
  pub at_exit : Time
  pub draw : ℕ
  pub start_error : Option String
  pub events : List SpawnEvent

abbrev pub ended : {B : Type 0} → Supervisor B × Option LoopError → Supervisor B × Next
ended (s, none) = (s, again)
ended (s, some e) = (s, returned (some e))

module _ {B : Type 0} where
  -- The crash-cap path of outcomeCrash.
  unfoldable pub on_plain_crash : Script B → Supervisor B → String → Supervisor B × Next
  on_plain_crash sc s version =
      let t = record_crash s.tracker sc.at_exit in
      let s' = record s { tracker = t } in
      if should_rollback t
      then ended (attempt_rollback sc.disk s' version)
      else (s', backing_off (delay t.policy (consecutive t) sc.draw))

module _ {B : Type 0} (entries_json : Codec (List Entry) B) where
  -- The switch on outcome.kind.
  unfoldable pub on_outcome : Script B → Supervisor B → String → OutcomeKind → Supervisor B × Next
  unfolding on_plain_crash record_history
  on_outcome sc s version stopped = (s, returned none)
  on_outcome sc s version no_restart = (
    record_history
        (record {
          event = State.stop;
          version = version;
          exit_code = some 64;
          reason = "worker requested no-restart";
        })
        s,
    returned (some (stop_error 64 "worker requested no-restart")),
  )
  on_outcome sc s version rollback = ended (attempt_worker_requested_rollback sc.disk s version)
  on_outcome sc s version install_health_timeout =
      ended
        (rollback_for_install_health entries_json sc.disk s version sc.at_exit HealthGate.timeout)
  on_outcome sc s version spawn_failure =
      if is_active s.gate
      then ended (
          rollback_for_install_health entries_json sc.disk s version sc.at_exit
            HealthGate.spawn_failed)
      else ended (attempt_spawn_failure_rollback sc.disk s version)
  on_outcome sc s version crash =
      if is_active s.gate
      then ended (
          rollback_for_install_health entries_json sc.disk
            (record s { gate = (on_crash s.gate sc.at_exit).0 }) version sc.at_exit
            HealthGate.crash)
      else on_plain_crash sc s version

  on_finish : Script B → String → Finish B → Supervisor B × Next
  unfolding on_outcome
  on_finish sc version (still_running s w) = (s, watching)
  on_finish sc version (finished s o) = on_outcome sc s version o.kind

module _ {B : Type 0} (base : String → String) (entries_json : Codec (List Entry) B)
    (marker_json : Codec GateMarker B) where
  spawn_if : Script B → String → Supervisor B × BlacklistCheck → Supervisor B × Next
  unfolding on_finish
  spawn_if sc version (s, blocked none) = (s, again)
  spawn_if sc version (s, blocked (some e)) = (s, returned (some e))
  spawn_if sc version (s, proceed) =
      let armed = prepare_gate marker_json sc.disk s version sc.at_spawn in
      on_finish entries_json sc version
        (run_one_spawn sc.disk armed version sc.at_spawn sc.start_error sc.events)

  turn_with : Script B → Supervisor B → Option String → Supervisor B × Next
  unfolding spawn_if
  turn_with sc s none = (s, returned (some resolve_failed))
  turn_with sc s (some target) =
      let version = base target in
      spawn_if sc version (check_blacklist entries_json sc.disk s version)

  -- One turn of `for`: the version is the base of what `current` points at.
  unfoldable pub loop_turn : Script B → Supervisor B → Supervisor B × Next
  unfolding turn_with
  loop_turn sc s = if sc.cancelled then (s, returned none) else turn_with sc s s.links.current

  -- Turns of the loop, each after the delay that the one before asks for, until it returns.
  unfoldable pub loop_turns : List (Script B) → Supervisor B → Supervisor B × Next
  loop_turns [] s = (s, again)
  loop_turns (sc ∷ scs) s =
      let (s', next) = loop_turn sc s in
      elim next [
        | again ↦ loop_turns scs s'
        | backing_off d ↦ loop_turns scs s'
        | returned e ↦ (s', returned e)
        | watching ↦ (s', watching)
      ]
