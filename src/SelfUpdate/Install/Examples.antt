-- ===== src/SelfUpdate/Install/Examples.antt =====
-- An install on a concrete root, with its download (internal/selfupdate).
use text.Mathlib.Text.{◌==◌ as str_eq}
use clawmast.Prelude.{
  ℕ, ◌*◌, String, true, false, Option, none, some, List, [], ◌∷◌, ◌≡◌, ◌≢◌, refl, arith, length,
  second, All,
}
use clawmast.Json.{Codec, RoundTrips}
use clawmast.Updater.Manifest.{Artifact, Manifest, for_host, validate, is_digest}
use clawmast.Supervisor.Symlinks.Swapping.{no_faults}
use clawmast.Supervisor.Backoff.{new_backoff, new_tracker}
use clawmast.Supervisor.HealthGate.{new_health_gate}
use clawmast.Supervisor.State.{Supervisor, Disk}
use clawmast.SelfUpdate.Marker.{GateMarker, no_marker, write_gate_marker}
use clawmast.SelfUpdate.Rotate.{Rotation, rotate_symlinks}
use clawmast.SelfUpdate.Download.{
  TarItem, TarEntry, entry, Worker, Download, WriteFaults, response, place, extract_tar, equal_fold,
  file_mode, download_and_extract, extract_body, after_extract, check_seen, clean, is_unsafe,
}
use clawmast.SelfUpdate.Download.Names.{IsWorkerOf, IsSafe}
use clawmast.SelfUpdate.Download.Extraction.{download_sound}
use clawmast.SelfUpdate.Install.{
  Root, InstallFaults, Config, installed, apply, apply_manifest, validated, chosen, staged,
  downloaded, promoted, rotated, mark, marked, has_version, remove_version,
}
use clawmast.SelfUpdate.Install.Observed.{IsInstalled, apply-IsInstalled}

abbrev digest : String
digest = "00112233445566778899aabbccddeeff00112233445566778899aabbccddeeff"

abbrev pub linux : Artifact
linux = record {
  os = "linux";
  arch = "amd64";
  url = "https://example.org/c.tgz";
  size = 3;
  sha256 = digest;
}

abbrev pub release : Manifest
release = record {
  channel = "stable";
  version = "v2";
  published_at = 5;
  notes = "";
  artifacts = linux ∷ [];
}

abbrev worker_entry : TarEntry
worker_entry = record {
  regular = true;
  name = record { rooted = false; parts = "clawmast-linux-amd64" ∷ "clawmast" ∷ [] };
  mode = 493;
  content = 9 ∷ [];
}

abbrev pub worker : Worker
worker = record { mode = 493; content = 9 ∷ [] }

-- The archive with one entry, whatever the bytes, and their digest.
abbrev unpack : List ℕ → Option (List TarItem)
unpack bytes = some (entry worker_entry ∷ [])

abbrev hash : List ℕ → String
hash bytes = digest

abbrev no_write_faults : WriteFaults
no_write_faults = record { create = false; write = false; close = false }

abbrev body : List ℕ
body = 1 ∷ 2 ∷ 3 ∷ []

fetched :
    download_and_extract unpack hash no_write_faults false linux (response 200 body)
    ≡ Download.ok (worker, 3)
unfolding download_and_extract extract_body after_extract check_seen extract_tar place is_unsafe
    clean file_mode equal_fold
fetched = refl

download_sound_example :
    ◌≡◌ {A = ℕ} 3 3
    × (length body ≡ 3)
    × (equal_fold digest digest ≡ true)
    × ((items : List TarItem) × (unpack body ≡ some items)
        × IsWorkerOf worker items
        × All IsSafe items)
download_sound_example =
    download_sound unpack hash no_write_faults false linux 200 body worker 3 fetched

abbrev pub plain : Codec GateMarker GateMarker
plain = record { marshal = some; unmarshal = some; is_empty = λ _. false }

pub plain-RoundTrips : RoundTrips GateMarker GateMarker plain
plain-RoundTrips = record { decoded = λ a b h. ground arith; filled = λ a b h. refl }

abbrev pub fine : InstallFaults GateMarker
fine = record {
  mkdir_versions = false;
  clear_staging = false;
  mkdir_staging = false;
  write_manifest = false;
  discard = false;
  clear_target = false;
  promote = false;
  rotate = record {
    read_current = false;
    clear_previous = false;
    write_previous = false;
    read_previous = false;
    clear_current = false;
    write_current = false;
  };
  write_marker = record {
    mkdir = false;
    write = false;
    rename = false;
    cleanup = false;
    debris = no_marker;
  };
}

abbrev pub in_versions : String → String
in_versions version = elim (str_eq version "v2") [ true ↦ "versions/v2" | false ↦ version ]

abbrev base : String → String
base target = elim (str_eq target "versions/v2") [ true ↦ "v2" | false ↦ target ]

abbrev config : Config
config = record {
  manifest = some release;
  root_is_empty = false;
  current_version = "v1";
  goos = "linux";
  goarch = "amd64";
}

abbrev pub before : Root GateMarker
before = record {
  links = record { current = some "versions/v1"; previous = none; swap_tmp = none };
  marker = record { path = none; tmp = none };
  versions = ("v1", worker) ∷ [];
  staging = false;
}

abbrev pub download : Artifact → Download (Worker × ℕ)
download art = Download.ok (worker, 3)

abbrev report : Rotation
report = record {
  before = "versions/v1";
  after = "versions/v2";
  previous = "versions/v1";
  error = none;
}

done : (apply plain in_versions fine 100 download config before).1 ≡ installed report 3
unfolding apply apply_manifest validated chosen staged downloaded promoted rotated mark marked
    has_version remove_version rotate_symlinks write_gate_marker for_host validate is_digest
done = refl

clock_set : ◌≢◌ {A = ℕ} 100 0
clock_set = ground arith

apply-IsInstalled_example :
    IsInstalled plain in_versions fine 100 download config release 3
      (apply plain in_versions fine 100 download config before).0
apply-IsInstalled_example =
    apply-IsInstalled plain in_versions fine 100 plain-RoundTrips download config before release
      report 3 refl clock_set done

abbrev disk : Disk GateMarker
disk = record {
  swap = no_faults;
  save = record {
    read = false;
    mkdir = false;
    clear = false;
    create = false;
    write = false;
    sync = false;
    close = false;
    rename = false;
    cleanup = false;
    debris = no_marker;
  };
  marker_read = false;
  marker_delete = false;
}

abbrev spawning : Supervisor GateMarker
spawning = record {
  start_timeout = 30 * second;
  watchdog_interval = 30 * second;
  tracker = new_tracker new_backoff;
  gate = new_health_gate 0 0;
  links = (apply plain in_versions fine 100 download config before).0.links;
  blacklist = record { path = none; tmp = none };
  marker = (apply plain in_versions fine 100 download config before).0.marker;
  ledger = [];
}
