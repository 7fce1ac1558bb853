-- ===== src/Supervisor/Rollback/Arming.antt =====
-- Which spawns are observed by the gate (prepareGate of internal/supervisor/loop.go).
use clawmast.SelfUpdate.Marker.{MarkerFile}
use clawmast.SelfUpdate.Marker
use clawmast.Supervisor.HealthGate
use clawmast.Supervisor.State.{Supervisor}
