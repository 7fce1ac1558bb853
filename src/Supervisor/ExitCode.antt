-- ===== src/Supervisor/ExitCode.antt =====
-- internal/supervisor/exitcode.go: what the exit of a worker means.
use clawmast.Prelude.{ℕ, String, Bool, true, false, ◌&&◌, ◌==◌, leb, if◌then◌else◌}

pub data Classification : Type 0 where
  graceful unexpected no_restart rollback : Classification

unfoldable pub label : Classification → String
label graceful = "graceful"
label no_restart = "no-restart"
label rollback = "rollback"
label unexpected = "unexpected"

-- A code below 0 (no process state) is not modelled: the supervisor only classifies reaped workers.
pub record ExitInfo : Type 0 where
  pub code : ℕ
  pub signaled : Bool

-- The parts of syscall.WaitStatus that the code reads.
pub data WaitStatus : Type 0 where
  exited : ℕ → WaitStatus
  killed : ℕ → WaitStatus

unfoldable pub from_process_state : WaitStatus → ExitInfo
from_process_state (killed sig) = record { code = sig; signaled = true }
from_process_state (exited status) = record { code = status; signaled = false }

unfoldable pub classify_exit_code : ExitInfo → Classification
classify_exit_code info =
    if info.signaled
    then unexpected
    else if info.code == 0
    then graceful
    else if info.code == 64
    then no_restart
    else if info.code == 65
    then rollback
    else if leb 1 info.code && leb info.code 63
    then unexpected
    else unexpected
