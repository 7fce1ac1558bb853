-- ===== src/Supervisor/Rollback.antt =====
-- internal/supervisor/supervisor.go and prepareGate of loop.go: the blacklist check before a spawn,
-- the rollbacks, and the arming of the gate.
pub mod Arming
pub mod Effects
use Prim.Native.String.{◌++◌ as str_append}
use text.Mathlib.Text.{◌==◌ as str_eq}
use clawmast.Prelude.{
  ℕ, Time, String, Bool, true, false, Option, none, some, List, [], ◌∷◌, not, if◌then◌else◌,
}
use clawmast.Json.{Codec}
use clawmast.Blacklist.{Entry, Result, ok, err, contains, load, add}
use clawmast.SelfUpdate.Marker.{GateMarker, MarkerResult, read_gate_marker, delete_gate_marker}
use clawmast.SelfUpdate.Marker
use clawmast.Supervisor.Symlinks.{
  Links, SwapResult, swapped, no_rollback_target, swap_current_previous,
}
use clawmast.Supervisor.Backoff
use clawmast.Supervisor.HealthGate
use clawmast.Supervisor.HealthGate.{
  HealthGate, GateFailReason, no_reason, crash, timeout, spawn_failed, arm,
}
use clawmast.Supervisor.State.{
  HistoryEntry, Supervisor, Disk, LoopError, stop_error, rollback_failed, record_history,
}
use clawmast.Supervisor.State

-- The wire value of a reason.
unfoldable pub reason_text : GateFailReason → String
reason_text no_reason = ""
reason_text crash = "install-health-crash"
reason_text timeout = "install-health-timeout"
reason_text spawn_failed = "install-health-spawn-failed"

pub data BlacklistCheck : Type 0 where
  proceed : BlacklistCheck
  blocked : Option LoopError → BlacklistCheck

module _ {B : Type 0} where
  after_swap :
      Supervisor B → String → String → String → Links × SwapResult → Supervisor B × Option LoopError
  after_swap s version reason stop_msg (links, swapped) = (
    record_history
        (record { event = State.rollback; version = version; exit_code = none; reason = reason })
        (record s { links = links; tracker = Backoff.reset s.tracker }),
    none,
  )
  after_swap s version reason stop_msg (links, no_rollback_target) = (
    record_history
        (record {
          event = State.stop;
          version = version;
          exit_code = none;
          reason = str_append reason "-no-rollback";
        })
        (record s { links = links }),
    some (stop_error 65 stop_msg),
  )
  after_swap s version reason stop_msg (links, failure) =
      (record s { links = links }, some (rollback_failed failure))

  unfoldable pub rollback :
      Disk B → Supervisor B → String → String → String → Supervisor B × Option LoopError
  unfolding after_swap record_history
  rollback d s version reason stop_msg =
      after_swap s version reason stop_msg (swap_current_previous false d.swap s.links)

  -- DeleteGateMarker, whose failure is only logged.
  drop_marker : Disk B → Supervisor B → Supervisor B
  drop_marker d s = record s { marker = (delete_gate_marker {0} d.marker_delete s.marker).0 }

  unfoldable pub attempt_rollback : Disk B → Supervisor B → String → Supervisor B × Option LoopError
  attempt_rollback d s version =
      rollback d s version "crash-loop" "crash-loop with no rollback target"

  unfoldable pub attempt_worker_requested_rollback :
      Disk B → Supervisor B → String → Supervisor B × Option LoopError
  attempt_worker_requested_rollback d s version =
      rollback d s version "rollback-requested" "rollback-requested with no rollback target"

  unfoldable pub attempt_spawn_failure_rollback :
      Disk B → Supervisor B → String → Supervisor B × Option LoopError
  attempt_spawn_failure_rollback d s version =
      rollback d s version "spawn-failed" "spawn-failed with no rollback target"

module _ {B : Type 0} (entries_json : Codec (List Entry) B) where
  check_entries :
      Disk B → Supervisor B → String → Result (List Entry) → Supervisor B × BlacklistCheck
  check_entries d s version (err e) = (s, proceed)
  check_entries d s version (ok entries) =
      if not (contains entries version)
      then (s, proceed)
      else let (s', e) =
          rollback d s version "blacklisted" "blacklisted version with no rollback target" in
        (s', blocked e)

  -- The path of the file is known: a supervisor with an install root has one.
  unfoldable pub check_blacklist : Disk B → Supervisor B → String → Supervisor B × BlacklistCheck
  unfolding check_entries
  check_blacklist d s version =
      if str_eq version ""
      then (s, proceed)
      else check_entries d s version (load entries_json d.save.read s.blacklist)

  unfoldable pub rollback_for_install_health :
      Disk B → Supervisor B → String → Time → GateFailReason → Supervisor B × Option LoopError
  unfolding drop_marker
  rollback_for_install_health d s version now reason =
      let entry : Entry = record {
        version = version;
        timestamp = now;
        reason = reason_text reason;
      } in
      let listed = record s { blacklist = (add entries_json d.save s.blacklist now entry).0 } in
      let unmarked = drop_marker d listed in
      rollback d (record unmarked { gate = HealthGate.reset unmarked.gate }) version
        (reason_text reason) (str_append (reason_text reason) " with no rollback target")

module _ {B : Type 0} (marker_json : Codec GateMarker B) where
  arm_for : Disk B → Supervisor B → String → Time → MarkerResult GateMarker → Supervisor B
  unfolding drop_marker
  arm_for d s version now (Marker.err e) = s
  arm_for d s version now (Marker.ok marker) =
      if str_eq marker.version ""
      then s
      else if not (str_eq marker.version version)
      then drop_marker d s
      else let (gate, armed) = arm s.gate version marker.installed_at now in
        if not armed then drop_marker d (record s { gate = gate }) else record s { gate = gate }

  unfoldable pub prepare_gate : Disk B → Supervisor B → String → Time → Supervisor B
  unfolding arm_for HealthGate.reset
  prepare_gate d s version now =
      let reset = record s { gate = HealthGate.reset s.gate } in
      arm_for d reset version now (read_gate_marker marker_json d.marker_read s.marker)
