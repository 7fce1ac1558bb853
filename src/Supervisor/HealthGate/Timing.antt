-- ===== src/Supervisor/HealthGate/Timing.antt =====
-- When the gate decides, and which way (internal/supervisor/healthgate.go).
use clawmast.Prelude.{◌+◌, ◌≤◌, ◌<◌, Time, ◌≡◌, ◌≢◌, ◌↔◌, true, arith, String}
use clawmast.Supervisor.HealthGate.{
  HealthGate, armed, pending, pass, timed_out, arm, on_ready, is_active, tick, next_wake,
}

-- While the gate watches, a tick that comes when the gate asked to be woken, or later, decides: no
-- further wake-up is needed.
pub tick-next_wake :
    (g : HealthGate) (asked now : Time)
    → is_active g ≡ true
    → asked + next_wake g asked ≤ now
    → (tick g now).1 ≢ pending
unfolding is_active tick next_wake
tick-next_wake g asked now active due = ground arith

-- The wake-up is not too late to matter either: before it, a tick changes nothing.
pub tick_before_wake :
    (g : HealthGate) (asked now : Time)
    → is_active g ≡ true
    → now < asked + next_wake g asked
    → asked ≤ now
    → tick g now ≡ (g, pending)
unfolding is_active tick next_wake
tick_before_wake g asked now active early later = ground arith

-- Arm accepts exactly the markers that are not stale, and leaves the gate watching just then.
pub arm_iff :
    (g : HealthGate) (version : String) (installed_at now : Time)
    → (((arm g version installed_at now).1 ≡ true) ↔ (now < installed_at + g.window))
      × (is_active (arm g version installed_at now).0 ≡ (arm g version installed_at now).1)
unfolding arm is_active
arm_iff g version installed_at now = ground arith

-- A worker that is READY at an instant from which the stable period ends before the deadline, and
-- that does not crash, passes at the wake-up that the gate asks for on READY.
pub ready_in_time_passes :
    (g : HealthGate) (now : Time)
    → g.state ≡ armed
    → now + g.stable_for < g.deadline
    → (tick (on_ready g now) (now + next_wake (on_ready g now) now)).1 ≡ pass
unfolding on_ready tick next_wake
ready_in_time_passes g now is_armed room = ground arith

-- A worker that is READY with less than the stable period left to the deadline is timed out when
-- the gate is woken on time, and passes when the wake-up comes only after the stable period.
pub ready_late :
    (g : HealthGate) (ready late : Time)
    → g.state ≡ armed
    → g.deadline < ready + g.stable_for
    → ready ≤ g.deadline
    → ready + g.stable_for ≤ late
    → ((tick (on_ready g ready) (ready + next_wake (on_ready g ready) ready)).1 ≡ timed_out)
      × ((tick (on_ready g ready) late).1 ≡ pass)
unfolding on_ready tick next_wake
ready_late g ready late is_armed short soon after = ground arith
