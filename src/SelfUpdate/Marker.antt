-- ===== src/SelfUpdate/Marker.antt =====
-- internal/selfupdate/marker.go: the trace of an install, read by the supervisor before a spawn.
use text.Mathlib.Text.{◌==◌ as str_eq}
use clawmast.Prelude.{
  Time, String, Bool, true, false, ◌&&◌, Option, none, some, ◌≡◌, ◌≢◌, refl, arith, if◌then◌else◌,
  is_zero_time,
}
use clawmast.Json.{Codec, RoundTrips}

pub record GateMarker : Type 0 where
  pub version : String
  pub installed_at : Time

-- The zero value, which stands for "no install under observation".
abbrev pub no_marker : GateMarker
no_marker = record { version = ""; installed_at = 0 }

-- The marker and its staging file.
pub record MarkerFile (B : Type 0) : Type 0 where
  pub path : Option B
  pub tmp : Option B

pub data MarkerError : Type 0 where
  version_required mkdir_failed encode_failed write_failed rename_failed : MarkerError
  read_failed parse_failed remove_failed : MarkerError

pub data MarkerResult {ℓ} (A : Type ℓ) : Type ℓ where
  ok : A → MarkerResult A
  err : MarkerError → MarkerResult A

-- A failed write leaves `debris` in the staging file; `cleanup` is its removal after a failed rename.
pub record MarkerFaults (B : Type 0) : Type 0 where
  pub mkdir : Bool
  pub write : Bool
  pub rename : Bool
  pub cleanup : Bool
  pub debris : B

abbrev is_present {ℓ} : {A : Type ℓ} → Option A → Bool
is_present none = false
is_present (some a) = true

-- A failed removal, of a file that is there, changes nothing.
unfoldable pub delete_gate_marker {ℓ} :
    {B : Type 0} → Bool → MarkerFile B → MarkerFile B × MarkerResult (Unit {ℓ})
delete_gate_marker fault file =
    if fault && is_present file.path
    then (file, err remove_failed)
    else (record file { path = none }, ok tt)

module _ {B : Type 0} (json : Codec GateMarker B) where
  write_marker : MarkerFaults B → MarkerFile B → Option B → MarkerFile B × MarkerResult (Unit {0})
  write_marker f file none = (file, err encode_failed)
  write_marker f file (some buf) =
      if f.write
      then (record file { tmp = some f.debris }, err write_failed)
      else if f.rename
      then (record file { tmp = if f.cleanup then some buf else none }, err rename_failed)
      else (record file { path = some buf; tmp = none }, ok tt)

  unfoldable pub write_gate_marker :
      MarkerFaults B → MarkerFile B → Time → GateMarker → MarkerFile B × MarkerResult (Unit {0})
  unfolding write_marker
  write_gate_marker f file now m =
      if str_eq m.version ""
      then (file, err version_required)
      else let m' = if is_zero_time m.installed_at then record m { installed_at = now } else m in
        if f.mkdir then (file, err mkdir_failed) else write_marker f file (json.marshal m')

  parse_marker : Option GateMarker → MarkerResult GateMarker
  parse_marker none = err parse_failed
  parse_marker (some m) = ok m

  read_content : Option B → MarkerResult GateMarker
  unfolding parse_marker
  read_content none = ok no_marker
  read_content (some buf) = parse_marker (json.unmarshal buf)

  -- `fault` is a failure to read a file that is there.
  unfoldable pub read_gate_marker : Bool → MarkerFile B → MarkerResult GateMarker
  unfolding read_content
  read_gate_marker fault file =
      if fault && is_present file.path then err read_failed else read_content file.path

module _ (B : Type 0) (json : Codec GateMarker B) where
  read_written :
      (laws : RoundTrips GateMarker B json) (f : MarkerFaults B) (file : MarkerFile B)
      (m : GateMarker) (o : Option B)
      → json.marshal m ≡ o
      → (write_marker json f file o).1 ≡ ok tt
      → read_content json (write_marker json f file o).0.path ≡ ok m
  unfolding write_marker read_content
  read_written laws f file m none e h = cc
  read_written laws f file m (some b) e h = ground (arith, laws.decoded m b)

  -- A marker that is written is read back, with the clock's time if it had none, until it is
  -- deleted.
  pub marker_round_trip :
      (laws : RoundTrips GateMarker B json) (f : MarkerFaults B) (file : MarkerFile B) (now : Time)
      (m : GateMarker)
      → (write_gate_marker json f file now m).1 ≡ ok tt
      → let written = (write_gate_marker json f file now m).0 in
        (read_gate_marker json false written
          ≡ ok (if is_zero_time m.installed_at then record m { installed_at = now } else m))
        × (read_gate_marker json false (delete_gate_marker {0} false written).0 ≡ ok no_marker)
  unfolding write_gate_marker read_gate_marker delete_gate_marker
  marker_round_trip laws f file now m h =
      let m' : GateMarker =
        if is_zero_time m.installed_at then record m { installed_at = now } else m in
      (ground (arith, read_written laws f file m' (json.marshal m') refl), refl)

  -- A write that fails leaves the marker that a reader sees as it was.
  pub marker_write_fails :
      (f : MarkerFaults B) (file : MarkerFile B) (now : Time) (m : GateMarker)
      → (write_gate_marker json f file now m).1 ≢ ok tt
      → read_gate_marker json false (write_gate_marker json f file now m).0
        ≡ read_gate_marker json false file
  unfolding write_gate_marker read_gate_marker
  marker_write_fails f file now m h = ground arith
