-- ===== src/Supervisor/Loop/Gate.antt =====
-- Crashes, with and without an observed install (internal/supervisor/loop.go).
use clawmast.Prelude.{String, Bool, true, false, Option, none, some, List, ◌≡◌, ◌≢◌, refl}
use clawmast.Json.{Codec, RoundTrips}
use clawmast.Blacklist.{Entry, ok, contains, load, add}
use clawmast.Supervisor.Symlinks.Swapping.{no_faults}
use clawmast.Supervisor.HealthGate.{is_active, GateFailReason, on_crash}
use clawmast.Supervisor.HealthGate
use clawmast.Supervisor.State.{Supervisor, LoopError}
use clawmast.Supervisor.Rollback.{reason_text, rollback_for_install_health}
use clawmast.Supervisor.Rollback.Effects.{install_health_rollback}
use clawmast.Supervisor.Session.{OutcomeKind, crash, spawn_failure, install_health_timeout}
use clawmast.Supervisor.Loop.{Script, again, on_outcome, ended}

-- The reason under which an outcome fails an install.
abbrev pub gate_reason : OutcomeKind → GateFailReason
gate_reason crash = HealthGate.crash
gate_reason spawn_failure = HealthGate.spawn_failed
gate_reason _ = HealthGate.timeout

-- The outcomes that fail an observed install: the gate still watches, or it has just timed out.
abbrev pub FailsInstall : OutcomeKind → Bool → Type 0
FailsInstall crash watching = watching ≡ true
FailsInstall spawn_failure watching = watching ≡ true
FailsInstall install_health_timeout watching = Unit
FailsInstall _ watching = ⊥

ended_again :
    {B : Type 0} (r : Supervisor B × Option LoopError) → r.1 ≡ none → ended r ≡ (r.0, again)
ended_again (s, none) e = refl
ended_again (s, some x) e = cc

-- The old version is current, the install is no longer observed, and the failed version is in the
-- blacklist that is loaded next.
abbrev pub Recovered :
    {B : Type 0}
    → Codec (List Entry) B
    → String
    → String
    → String
    → List Entry
    → Supervisor B
    → Type 0
Recovered json version a b es s =
    (s.links ≡ record { current = some b; previous = some a; swap_tmp = none })
    × (s.marker.path ≡ none)
    × (is_active s.gate ≡ false)
    × (load json false s.blacklist ≡ ok es)
    × (contains es version ≡ true)

module _ {B : Type 0} (json : Codec (List Entry) B) where
  -- install_health_rollback, as the loop takes its result.
  rolled_back :
      (laws : RoundTrips (List Entry) B json) (sc : Script B) (s : Supervisor B)
      (version a b : String) (why : GateFailReason) (old es : List Entry)
      → sc.disk.swap ≡ no_faults
      → sc.disk.marker_delete ≡ false
      → s.links.current ≡ some a
      → s.links.previous ≡ some b
      → a ≢ b
      → load json sc.disk.save.read s.blacklist ≡ ok old
      → (add json sc.disk.save s.blacklist sc.at_exit
          (record { version = version; timestamp = sc.at_exit; reason = reason_text why })).1
        ≡ ok es
      → let r = rollback_for_install_health json sc.disk s version sc.at_exit why in
        (ended r ≡ (r.0, again)) × Recovered json version a b es r.0
  rolled_back laws sc s version a b why old es calm removed cur prev ne loaded added =
      let (fine, links, marker, gate, loads, listed) =
        install_health_rollback json laws sc.disk s version a b sc.at_exit why old es calm removed
          cur prev ne loaded added in
      (
        ended_again (rollback_for_install_health json sc.disk s version sc.at_exit why) fine,
        (links, marker, gate, loads, listed),
      )

  -- While an install is observed, a single crash, a failure to start or a missed deadline ends it at
  -- once, with no delay and whatever the crash counter says: the links are exchanged, the marker is
  -- gone, the gate stops watching, and the failed version is in the blacklist that is loaded before
  -- the next spawn. The two links must have distinct targets, and the swap, the removal
  -- of the marker, and the reading and writing of the blacklist must succeed.
  pub observed_failure_rolls_back :
      (laws : RoundTrips (List Entry) B json) (sc : Script B) (s : Supervisor B)
      (kind : OutcomeKind) (version a b : String) (old es : List Entry)
      → FailsInstall kind (is_active s.gate)
      → sc.disk.swap ≡ no_faults
      → sc.disk.marker_delete ≡ false
      → s.links.current ≡ some a
      → s.links.previous ≡ some b
      → a ≢ b
      → load json sc.disk.save.read s.blacklist ≡ ok old
      → (add json sc.disk.save s.blacklist sc.at_exit (record {
        version = version;
        timestamp = sc.at_exit;
        reason = reason_text (gate_reason kind);
      })).1
        ≡ ok es
      → let (s', next) = on_outcome json sc s version kind in
        (next ≡ again) × Recovered json version a b es s'
  unfolding on_outcome
  observed_failure_rolls_back laws sc s crash version a b old es f calm removed cur prev ne loaded
        added =
      let s1 : Supervisor B = record s { gate = (on_crash s.gate sc.at_exit).0 } in
      let (fine, after) =
        rolled_back laws sc s1 version a b HealthGate.crash old es calm removed cur prev ne loaded
          added in
      rw (f, fine) (refl, after)
  observed_failure_rolls_back laws sc s spawn_failure version a b old es f calm removed cur prev ne
        loaded added =
      let s1 : Supervisor B = s in
      let (fine, after) =
        rolled_back laws sc s1 version a b HealthGate.spawn_failed old es calm removed cur prev ne
          loaded added in
      rw (f, fine) (refl, after)
  observed_failure_rolls_back laws sc s install_health_timeout version a b old es f calm removed cur
        prev ne loaded added =
      let s1 : Supervisor B = s in
      let (fine, after) =
        rolled_back laws sc s1 version a b HealthGate.timeout old es calm removed cur prev ne loaded
          added in
      rw fine (refl, after)
  observed_failure_rolls_back laws sc s _ version a b old es f calm removed cur prev ne loaded
        added =
      elim f [ ]
