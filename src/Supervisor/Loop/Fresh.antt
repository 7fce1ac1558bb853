-- ===== src/Supervisor/Loop/Fresh.antt =====
-- From an install of the worker to its observation by the supervisor: internal/selfupdate/install_unix.go,
-- and prepareGate of internal/supervisor/loop.go.
use clawmast.Updater.Manifest.{Manifest}
use clawmast.SelfUpdate.Marker
use clawmast.SelfUpdate.Download.{Download}
use clawmast.Supervisor.State.{Supervisor}
