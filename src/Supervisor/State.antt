-- ===== src/Supervisor/State.antt =====
-- The state that the supervisor's main loop owns (internal/supervisor/supervisor.go, history.go,
-- loop.go): its in-memory parts, and the files under the install root that it reads and writes.
use clawmast.Prelude.{ℕ, Duration, String, Bool, Option, List, [], ◌∷◌, ◌++◌}
use clawmast.Blacklist.{BlacklistFile, Faults}
use clawmast.SelfUpdate.Marker.{MarkerFile}
use clawmast.Supervisor.Symlinks.{Links, SwapFaults, SwapResult}
use clawmast.Supervisor.Backoff.{Tracker}
use clawmast.Supervisor.HealthGate.{HealthGate}

pub data HistoryEvent : Type 0 where
  spawn crash rollback stop : HistoryEvent

-- An entry without its timestamp, which Append fills in.
pub record HistoryEntry : Type 0 where
  pub event : HistoryEvent
  pub version : String
  pub exit_code : Option ℕ
  pub reason : String

-- `ledger` is what is handed to recordHistory, oldest first; a failed Append is only logged.
pub record Supervisor (B : Type 0) : Type 0 where
  pub start_timeout : Duration
  pub watchdog_interval : Duration
  pub tracker : Tracker
  pub gate : HealthGate
  pub links : Links
  pub blacklist : BlacklistFile B
  pub marker : MarkerFile B
  pub ledger : List HistoryEntry

-- Which file system calls fail during one turn of the loop.
pub record Disk (B : Type 0) : Type 0 where
  pub swap : SwapFaults
  pub save : Faults B
  pub marker_read : Bool
  pub marker_delete : Bool

-- The errors that end the loop.
pub data LoopError : Type 0 where
  stop_error : ℕ → String → LoopError
  rollback_failed : SwapResult → LoopError
  resolve_failed : LoopError

unfoldable pub record_history : {B : Type 0} → HistoryEntry → Supervisor B → Supervisor B
record_history e s = record s { ledger = s.ledger ++ e ∷ [] }
