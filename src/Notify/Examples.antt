-- ===== src/Notify/Examples.antt =====
-- A datagram and a heartbeat on concrete inputs (internal/sdnotify).
use clawmast.Prelude.{
  ◌*◌, ◌^◌, ◌≤◌, ◌<◌, second, String, true, false, some, [], ◌∷◌, ◌≡◌, refl, arith,
}
use mathlib.Core.List.{map}
use clawmast.Supervisor.Session.{ready, watchdog}
use clawmast.Notify.{parse_notify_frame, sent, send, text_of, watchdog_interval}
use clawmast.Notify.Frames.{kinds_arrive, heartbeat_bounds}

kinds_arrive_example :
    (frame : String) × (send true false (map text_of (ready ∷ watchdog ∷ [])) ≡ sent frame)
    × (parse_notify_frame frame ≡ ready ∷ watchdog ∷ [])
kinds_arrive_example = kinds_arrive (ready ∷ watchdog ∷ [])

interval : watchdog_interval (some 30_000_000) ≡ some (10 * second)
unfolding watchdog_interval
interval = refl

long : 3 * second ≤ 30_000_000 * 1000
long = omega arith

small : 30_000_000 * 1000 < 2 ^ 63
small = omega arith

heartbeat_bounds_example : (second ≤ 10 * second) × (3 * (10 * second) ≤ 30_000_000 * 1000)
heartbeat_bounds_example = heartbeat_bounds 30_000_000 (10 * second) long small interval
