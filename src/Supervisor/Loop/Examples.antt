-- ===== src/Supervisor/Loop/Examples.antt =====
-- Turns of the main loop on concrete states (internal/supervisor).
use clawmast.Prelude.{
  ◌+◌, ◌*◌, String, true, false, Option, none, some, List, [], ◌∷◌, ◌≡◌, ◌≢◌, ◌⊎◌, refl, arith,
  eq_iff, second, length,
}
use clawmast.Json.{Codec, RoundTrips}
use clawmast.Blacklist.{Entry, Faults, contains, load, add, upsert}
use clawmast.SelfUpdate.Marker.{GateMarker, no_marker, read_gate_marker}
use clawmast.Supervisor.Backoff.{new_backoff, new_tracker}
use clawmast.Supervisor.Symlinks.Swapping.{no_faults}
use clawmast.Supervisor.HealthGate.{new_health_gate, arm, is_active}
use clawmast.Supervisor.State.{Supervisor, Disk, LoopError}
use clawmast.Supervisor.Rollback.{prepare_gate, reason_text}
use clawmast.Supervisor.Rollback.Effects.{spawns}
use clawmast.Supervisor.Session.{
  SpawnEvent, message, ready, watchdog, reaped, crash, run_session, start_session,
}
use clawmast.Supervisor.Session.Protocol.{Closes, session-Closes}
use clawmast.Supervisor.Session.Requests.{Explained, session-Explained}
use clawmast.Supervisor.Loop.{Script, again, returned, loop_turn, loop_turns, on_outcome}
use clawmast.Supervisor.Loop.Gate.{Recovered, observed_failure_rolls_back}
use clawmast.Supervisor.Loop.Blocking.{blacklisted_not_spawned, both_blacklisted_spins}

-- A document is kept as its value: a list of entries, or a marker.
data Document : Type 0 where
  entries : List Entry → Document
  marker : GateMarker → Document

abbrev as_entries : Document → Option (List Entry)
as_entries (entries es) = some es
as_entries (marker m) = none

abbrev as_marker : Document → Option GateMarker
as_marker (entries es) = none
as_marker (marker m) = some m

abbrev entries_json : Codec (List Entry) Document
entries_json = record {
  marshal = λ es. some (entries es);
  unmarshal = as_entries;
  is_empty = λ _. false;
}

abbrev marker_json : Codec GateMarker Document
marker_json = record {
  marshal = λ m. some (marker m);
  unmarshal = as_marker;
  is_empty = λ _. false;
}

entries_round_trip : RoundTrips (List Entry) Document entries_json
entries_round_trip = record { decoded = λ a b h. ground arith; filled = λ a b h. refl }

abbrev save_fine : Faults Document
save_fine = record {
  read = false;
  mkdir = false;
  clear = false;
  create = false;
  write = false;
  sync = false;
  close = false;
  rename = false;
  cleanup = false;
  debris = marker no_marker;
}

abbrev disk : Disk Document
disk = record { swap = no_faults; save = save_fine; marker_read = false; marker_delete = false }

abbrev bad : String → Entry
bad v = record { version = v; timestamp = 1; reason = "user-marked-bad" }

abbrev listing : List Entry → Supervisor Document
listing es = record {
  start_timeout = 30 * second;
  watchdog_interval = 30 * second;
  tracker = new_tracker new_backoff;
  gate = new_health_gate 0 0;
  links = record { current = some "v2"; previous = some "v1"; swap_tmp = none };
  blacklist = record { path = some (entries es); tmp = none };
  marker = record {
    path = some (marker (record { version = "v2"; installed_at = 100 }));
    tmp = none;
  };
  ledger = [];
}

v2_not_v1 : ◌≢◌ {A = String} "v2" "v1"
v2_not_v1 = ground (arith, eq_iff "v2" "v1")

abbrev observed : Supervisor Document
observed = prepare_gate marker_json disk (listing []) "v2" 200

observed_active : is_active observed.gate ≡ true
unfolding is_active prepare_gate read_gate_marker arm new_health_gate
observed_active = refl

abbrev life : List SpawnEvent
life =
    message 210 (ready ∷ [])
    ∷ message 220 (watchdog ∷ [])
    ∷ reaped (record { code = 64; signaled = false })
    ∷ []

session-Closes_example :
    Closes observed "v2" (run_session disk observed (start_session observed 200) "v2" life)
session-Closes_example = session-Closes disk observed (start_session observed 200) "v2" life

session-Explained_example :
    Explained disk observed
      (start_session observed 200)
      "v2"
      life
      (run_session disk observed (start_session observed 200) "v2" life)
session-Explained_example = session-Explained disk observed (start_session observed 200) "v2" life

abbrev crashing : Script Document
crashing = record {
  cancelled = false;
  disk = disk;
  at_spawn = 200;
  at_exit = 300;
  draw = 0;
  start_error = none;
  events = [];
}

abbrev failed_install : List Entry
failed_install = record { version = "v2"; timestamp = 300; reason = "install-health-crash" } ∷ []

observed_failure_rolls_back_example :
    let (s', next) = on_outcome entries_json crashing observed "v2" crash in
    (next ≡ again) × Recovered entries_json "v2" "v2" "v1" failed_install s'
unfolding prepare_gate read_gate_marker arm new_health_gate reason_text
observed_failure_rolls_back_example =
    observed_failure_rolls_back entries_json entries_round_trip crashing observed crash "v2" "v2"
      "v1" [] failed_install observed_active refl refl refl refl v2_not_v1 (unfold load in refl)
      (unfold add upsert load in refl)

abbrev both : List Entry
both = bad "v1" ∷ bad "v2" ∷ []

blacklisted_not_spawned_example :
    let (s', next) = loop_turn (λ t. t) entries_json marker_json crashing (listing both) in
    (spawns s'.ledger ≡ 0) × ((next ≡ again) ⊎ ((e : Option LoopError) × (next ≡ returned e)))
blacklisted_not_spawned_example =
    blacklisted_not_spawned (λ t. t) entries_json marker_json crashing (listing both) "v2" both refl
      (unfold load in refl) (unfold contains in refl)

both_blacklisted_spins_example :
    let (s', next) =
      loop_turns
        (λ t. t)
        entries_json
        marker_json
        (crashing ∷ crashing ∷ crashing ∷ [])
        (listing both) in
    (next ≡ again) × (spawns s'.ledger ≡ 0) × (length s'.ledger ≡ 0 + 3)
both_blacklisted_spins_example =
    both_blacklisted_spins (λ t. t) entries_json marker_json (crashing ∷ crashing ∷ crashing ∷ [])
      (listing both) "v2" "v1" both
      ((refl, refl, refl), ((refl, refl, refl), ((refl, refl, refl), tt))) refl refl v2_not_v1
      (unfold load in refl) (unfold contains in refl) (unfold contains in refl)
