-- ===== src/Release/Examples.antt =====
-- A small release, from its build to its download (cmd/clawmast-release).
use mathlib.Core.List.{Memᴰ, map}
use clawmast.Strings.{before_first}
use clawmast.Prelude.{
  ℕ, String, true, false, Option, none, some, List, [], ◌∷◌, ◌≡◌, refl, arith, eq_iff,
}
use clawmast.Updater.Manifest.{Manifest, is_digest, validate, for_host}
use clawmast.Updater.Client.{trim_slashes}
use clawmast.SelfUpdate.Download.{TarEntry, TarItem, entry, ok, download_and_extract, response}
use clawmast.Release.Build.{Target, EntryFaults, Workshop, build_one, ok as released}
use clawmast.Release.Describe.{artifact_of, Flags, Dist, resolve_targets, run_manifest}
use clawmast.Release.Paths.{no_slash}
use clawmast.Release.Packing.{IsSupervised, no_faults}
use clawmast.Release.Installable.{release_installs}

abbrev works : EntryFaults
works = record {
  dir_header = false;
  stat = false;
  header = false;
  open_source = false;
  copy = false;
  close = false;
}

abbrev workshop : Workshop
workshop = record {
  temp_fails = false;
  worker = some (1 ∷ 2 ∷ 3 ∷ []);
  supervisor = some (4 ∷ []);
  template = 5 ∷ [];
  create_fails = false;
  prefix_fails = false;
  worker_faults = works;
  supervisor_faults = works;
  template_faults = works;
}

abbrev linux : Target
linux = record { os_name = "linux"; arch_name = "amd64" }

abbrev header_of : List String → ℕ → List ℕ → TarEntry
header_of parts mode content = record {
  regular = true;
  name = record { rooted = false; parts = "clawmast-linux-amd64" ∷ parts };
  mode = mode;
  content = content;
}

abbrev folder : List String → TarEntry
folder parts = record {
  regular = false;
  name = record { rooted = false; parts = "clawmast-linux-amd64" ∷ parts };
  mode = 493;
  content = [];
}

abbrev packed_headers : List TarEntry
packed_headers =
    folder ("" ∷ [])
    ∷ header_of ("clawmast" ∷ []) 493 (1 ∷ 2 ∷ 3 ∷ [])
    ∷ header_of ("clawmastd" ∷ []) 493 (4 ∷ [])
    ∷ folder ("systemd" ∷ "" ∷ [])
    ∷ header_of ("systemd" ∷ "clawmastd.service.tmpl" ∷ []) 420 (5 ∷ [])
    ∷ []

build_test : build_one workshop linux ≡ released packed_headers
unfolding build_one before_first
build_test = refl

abbrev digest : List ℕ → String
digest bytes = "00112233445566778899aabbccddeeff00112233445566778899aabbccddeeff"

abbrev unpacked : List ℕ → Option (List TarItem)
unpacked bytes = some (map entry packed_headers)

abbrev flags : Flags
flags = record {
  out = "manifest.json";
  channel = "stable";
  version = "v0.2.0";
  base_url = "https://example.org/v0.2.0/";
  notes = "";
  platforms = "";
}

abbrev dist : Dist
dist = record {
  listing = some ("README" ∷ "clawmast-linux-amd64.tar.gz" ∷ []);
  tarball = λ name. some (31 ∷ 139 ∷ []);
  write_fails = false;
}

abbrev described : Manifest
described = record {
  channel = "stable";
  version = "v0.2.0";
  published_at = 7;
  notes = "";
  artifacts =
      record {
        os = "linux";
        arch = "amd64";
        url = "https://example.org/v0.2.0/clawmast-linux-amd64.tar.gz";
        size = 2;
        sha256 = digest [];
      }
      ∷ [];
}

targets_test : resolve_targets flags.platforms dist.listing ≡ released (linux ∷ [])
unfolding resolve_targets before_first
targets_test = refl

manifest_test : run_manifest digest flags dist 7 ≡ released described
unfolding run_manifest validate is_digest
manifest_test = refl

linux-IsSupervised : IsSupervised linux
unfolding no_slash
linux-IsSupervised = (refl, refl, λ e. ground (arith, e, eq_iff "linux" "windows"))

release_installs_example :
    let artifact = artifact_of digest "https://example.org/v0.2.0" linux (31 ∷ 139 ∷ []) in
    (validate described ≡ none)
    × (for_host described "linux" "amd64" ≡ some artifact)
    × (download_and_extract unpacked digest no_faults false artifact (response 200 (31 ∷ 139 ∷ []))
        ≡ ok (record { mode = 493; content = 1 ∷ 2 ∷ 3 ∷ [] }, 2))
unfolding trim_slashes
release_installs_example =
    release_installs digest unpacked workshop flags dist 7 (linux ∷ []) described linux
      (1 ∷ 2 ∷ 3 ∷ []) (31 ∷ 139 ∷ []) packed_headers linux-IsSupervised refl build_test refl refl
      targets_test (Memᴰ.head refl) manifest_test
