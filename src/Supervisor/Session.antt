-- ===== src/Supervisor/Session.antt =====
-- runOneSpawn and classifyOutcome of internal/supervisor/loop.go: the life of one worker process.
-- Each round of the select is one event; a timer is the instant at which it fires.
pub mod Protocol
pub mod Requests
use Prim.Native.String.{◌++◌ as str_append}
use clawmast.Prelude.{
  ℕ, ◌+◌, ◌*◌, Time, Duration, second, String, Bool, true, false, Option, none, some, List, [], ◌∷◌,
  ltb, if◌then◌else◌,
}
use clawmast.SelfUpdate.Marker.{delete_gate_marker}
use clawmast.Supervisor.Backoff
use clawmast.Supervisor.HealthGate
use clawmast.Supervisor.HealthGate.{
  HealthGate, GateOutcome, pending, pass, crashed, timed_out, timeout, on_ready, is_active, tick,
  next_wake,
}
use clawmast.Supervisor.ExitCode
use clawmast.Supervisor.ExitCode.{
  Classification, graceful, unexpected, ExitInfo, label, classify_exit_code,
}
use clawmast.Supervisor.State.{HistoryEntry, Supervisor, Disk, record_history}
use clawmast.Supervisor.State
use clawmast.Supervisor.Rollback.{reason_text}

pub data NotifyKind : Type 0 where
  ready watchdog stopping : NotifyKind

pub data WorkerState : Type 0 where
  starting running : WorkerState

-- The local variables of runOneSpawn; a timer that is stopped or has fired is `none`.
pub record Session : Type 0 where
  pub cur_state : WorkerState
  pub start_deadline : Option Time
  pub watchdog_timer : Option Time
  pub gate_timer : Option Time

pub data OutcomeKind : Type 0 where
  crash no_restart rollback stopped install_health_timeout spawn_failure : OutcomeKind

pub record SpawnOutcome : Type 0 where
  pub kind : OutcomeKind
  pub info : ExitInfo

-- What the select receives. The info beside an event is what sess.stop returns, should it be called.
pub data SpawnEvent : Type 0 where
  shutdown : ExitInfo → SpawnEvent
  reaped : ExitInfo → SpawnEvent
  start_deadline_fired : ExitInfo → SpawnEvent
  watchdog_fired : ExitInfo → SpawnEvent
  gate_timer_fired : Time → ExitInfo → SpawnEvent
  message : Time → List NotifyKind → SpawnEvent
  listener_closed : SpawnEvent

-- clampWake: at least 10 ms.
clamp_wake : Duration → Duration
clamp_wake d = if ltb d 10_000_000 then 10_000_000 else d

outcome_of : Classification → ExitInfo → SpawnOutcome
outcome_of ExitCode.no_restart info = record { kind = no_restart; info = info }
outcome_of ExitCode.rollback info = record { kind = rollback; info = info }
outcome_of _ info = record { kind = crash; info = info }

-- The edge rule of runOneSpawn: a zero exit that nobody asked for is unexpected.
demote : Classification → Classification
demote graceful = unexpected
demote c = c

-- What one round leads to: the next round, or the end of the worker's life.
pub data Turn (B : Type 0) : Type 0 where
  continue : Supervisor B → Session → Turn B
  done : Supervisor B → SpawnOutcome → Turn B

-- Where a sequence of events has led to.
pub data Finish (B : Type 0) : Type 0 where
  still_running : Supervisor B → Session → Finish B
  finished : Supervisor B → SpawnOutcome → Finish B

abbrev spawn_entry : String → HistoryEntry
spawn_entry version = record {
  event = State.spawn;
  version = version;
  exit_code = none;
  reason = "";
}

module _ {B : Type 0} where
  unfoldable pub classify_outcome : Supervisor B → String → ExitInfo → Classification → Turn B
  unfolding record_history outcome_of
  classify_outcome s version info cls =
      done
        (record_history
          (record {
            event = State.crash;
            version = version;
            exit_code = some info.code;
            reason = if info.signaled then str_append "signal-" (label cls) else label cls;
          })
          s)
        (outcome_of cls info)

  on_tick :
      Disk B → Supervisor B → Session → String → Time → ExitInfo → HealthGate × GateOutcome → Turn B
  unfolding record_history clamp_wake
  on_tick d s w version now info (gate, pass) =
      continue
        (record s {
          gate = HealthGate.reset gate;
          marker = (delete_gate_marker {0} d.marker_delete s.marker).0;
        })
        (record w { gate_timer = none })
  on_tick d s w version now info (gate, timed_out) =
      done
        (record_history
          (record {
            event = State.crash;
            version = version;
            exit_code = some info.code;
            reason = reason_text timeout;
          })
          (record s { gate = gate }))
        (record { kind = install_health_timeout; info = info })
  on_tick d s w version now info (gate, other) =
      continue (record s { gate = gate })
        (record w {
          gate_timer =
              if is_active gate then some (now + clamp_wake (next_wake gate now)) else none;
        })

  on_worker_ready : Supervisor B → Session → Time → WorkerState → Supervisor B × Session
  unfolding clamp_wake
  on_worker_ready s w now running = (s, w)
  on_worker_ready s w now starting =
      let gate = if is_active s.gate then on_ready s.gate now else s.gate in
      (
        record s { tracker = Backoff.mark_running s.tracker now; gate = gate },
        record {
          cur_state = running;
          start_deadline = none;
          watchdog_timer = some (now + s.watchdog_interval);
          gate_timer =
              if is_active s.gate
              then some (now + clamp_wake (next_wake gate now))
              else w.gate_timer;
        },
      )

  on_heartbeat : Supervisor B → Session → Time → WorkerState → Supervisor B × Session
  on_heartbeat s w now running = (s, record w { watchdog_timer = some (now + s.watchdog_interval) })
  on_heartbeat s w now starting = (s, w)

  unfoldable pub on_kind : Supervisor B → Session → Time → NotifyKind → Supervisor B × Session
  unfolding on_worker_ready on_heartbeat
  on_kind s w now ready = on_worker_ready s w now w.cur_state
  on_kind s w now watchdog = on_heartbeat s w now w.cur_state
  on_kind s w now stopping = (s, w)

  unfoldable pub on_kinds : Supervisor B → Session → Time → List NotifyKind → Supervisor B × Session
  unfolding on_kind
  on_kinds s w now [] = (s, w)
  on_kinds s w now (k ∷ ks) = let (s', w') = on_kind s w now k in on_kinds s' w' now ks

  on_start_deadline : Supervisor B → Session → String → ExitInfo → WorkerState → Turn B
  unfolding classify_outcome
  on_start_deadline s w version info starting = classify_outcome s version info unexpected
  on_start_deadline s w version info running = continue s (record w { start_deadline = none })

  abbrev pub proceed : Supervisor B × Session → Turn B
  proceed (s, w) = continue s w

  -- One round of the loop in runOneSpawn.
  unfoldable pub turn : Disk B → Supervisor B → Session → String → SpawnEvent → Turn B
  unfolding record_history classify_outcome demote on_tick on_start_deadline
  turn d s w version (shutdown info) =
      done
        (record_history
          (record {
            event = State.stop;
            version = version;
            exit_code = some info.code;
            reason = "";
          })
          s)
        (record { kind = stopped; info = info })
  turn d s w version (reaped info) =
      classify_outcome s version info (demote (classify_exit_code info))
  turn d s w version (start_deadline_fired info) = on_start_deadline s w version info w.cur_state
  turn d s w version (watchdog_fired info) = classify_outcome s version info unexpected
  turn d s w version (gate_timer_fired now info) = on_tick d s w version now info (tick s.gate now)
  turn d s w version (message now kinds) = proceed (on_kinds s w now kinds)
  turn d s w version listener_closed = continue s w

  -- The timers at the start: `now` is when they are set.
  unfoldable pub start_session : Supervisor B → Time → Session
  start_session s now = record {
    cur_state = starting;
    start_deadline = some (now + s.start_timeout);
    watchdog_timer = none;
    gate_timer = if is_active s.gate then some (now + next_wake s.gate now) else none;
  }

  -- The rounds, until the worker's life ends.
  unfoldable pub run_session : Disk B → Supervisor B → Session → String → List SpawnEvent → Finish B
  unfolding turn
  run_session d s w version [] = still_running s w
  run_session d s w version (e ∷ es) = elim (turn d s w version e) [
    | done s' o ↦ finished s' o
    | continue s' w' ↦ run_session d s' w' version es
  ]

  -- runOneSpawn. `start_error` is the text of cmd.Start's error, if it fails.
  unfoldable pub run_one_spawn :
      Disk B → Supervisor B → String → Time → Option String → List SpawnEvent → Finish B
  unfolding run_session record_history start_session
  run_one_spawn d s version now (some start_error) es =
      finished
        (record_history
          (record {
            event = State.crash;
            version = version;
            exit_code = some 71;
            reason = str_append "spawn-failed: " start_error;
          })
          (record_history (spawn_entry version) s))
        (record { kind = spawn_failure; info = record { code = 71; signaled = false } })
  run_one_spawn d s version now none es =
      let s' = record_history (spawn_entry version) s in
      run_session d s' (start_session s' now) version es
