-- ===== src/SelfUpdate/Examples.antt =====
-- Runs of internal/selfupdate on concrete files and links.
use clawmast.Prelude.{true, false, none, some, ◌≡◌, refl, arith}
use clawmast.Json.{Codec, RoundTrips}
use clawmast.Supervisor.Symlinks.{Links}
use clawmast.SelfUpdate.Marker.{
  GateMarker, MarkerFile, MarkerFaults, no_marker, write_gate_marker, read_gate_marker,
  marker_write_fails,
}
use clawmast.SelfUpdate.Rotate.{RotateFaults}

abbrev plain : Codec GateMarker GateMarker
plain = record { marshal = some; unmarshal = some; is_empty = λ _. false }

plain-RoundTrips : RoundTrips GateMarker GateMarker plain
plain-RoundTrips = record { decoded = λ a b h. ground arith; filled = λ a b h. refl }

abbrev fine : MarkerFaults GateMarker
fine = record { mkdir = false; write = false; rename = false; cleanup = false; debris = no_marker }

abbrev v2 : GateMarker
v2 = record { version = "v2"; installed_at = 50 }

abbrev nothing : MarkerFile GateMarker
nothing = record { path = none; tmp = none }

abbrev there : MarkerFile GateMarker
there = record { path = some v2; tmp = none }

marker_write_fails_example :
    read_gate_marker plain false
      (write_gate_marker plain (record fine { rename = true }) there 60 no_marker).0
    ≡ read_gate_marker plain false there
marker_write_fails_example =
    marker_write_fails GateMarker plain (record fine { rename = true }) there 60 no_marker
      (unfold write_gate_marker in λ e. cc)

abbrev calm : RotateFaults
calm = record {
  read_current = false;
  clear_previous = false;
  write_previous = false;
  read_previous = false;
  clear_current = false;
  write_current = false;
}

abbrev installed : Links
installed = record { current = some "versions/v1"; previous = some "versions/v0"; swap_tmp = none }
