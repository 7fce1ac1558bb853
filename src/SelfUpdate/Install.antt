-- ===== src/SelfUpdate/Install.antt =====
-- internal/selfupdate/install_unix.go: Apply, which downloads a version, moves it into place, rotates the
-- links and leaves the marker. filepath.Join is a parameter.
pub mod Steps
pub mod Observed
pub mod Examples
use text.Mathlib.Text.{◌==◌ as str_eq}
use clawmast.Prelude.{
  ℕ, Time, String, Bool, true, false, not, ◌&&◌, ◌||◌, Option, none, some, List, [], ◌∷◌,
  if◌then◌else◌,
}
use clawmast.Json.{Codec}
use clawmast.Updater.Manifest.{Artifact, Manifest, ManifestError, validate, for_host}
use clawmast.Supervisor.Symlinks.{Links}
use clawmast.SelfUpdate.Marker.{
  GateMarker, MarkerFile, MarkerError, MarkerResult, MarkerFaults, write_gate_marker,
}
use clawmast.SelfUpdate.Marker
use clawmast.SelfUpdate.Rotate.{RotateFaults, RotateError, Rotation, rotate_symlinks}
use clawmast.SelfUpdate.Download.{Worker, Download, DownloadError, WriteFaults}
use clawmast.SelfUpdate.Download

-- The install root: the links, the marker, and the version directories with the worker in each.
-- `staging` says that the staging directory of the version is there.
pub record Root (B : Type 0) : Type 0 where
  pub links : Links
  pub marker : MarkerFile B
  pub versions : List (String × Worker)
  pub staging : Bool

-- Which system calls fail; `discard` is the removal of the staging directory after a failure.
pub record InstallFaults (B : Type 0) : Type 0 where
  pub mkdir_versions : Bool
  pub clear_staging : Bool
  pub mkdir_staging : Bool
  pub write_manifest : Bool
  pub discard : Bool
  pub clear_target : Bool
  pub promote : Bool
  pub rotate : RotateFaults
  pub write_marker : MarkerFaults B

-- Config, with the host that runtime names.
pub record Config : Type 0 where
  pub manifest : Option Manifest
  pub root_is_empty : Bool
  pub current_version : String
  pub goos : String
  pub goarch : String

pub data InstallError : Type 0 where
  nil_manifest empty_root no_artifact already_installed : InstallError
  mkdir_versions_failed clear_staging_failed mkdir_staging_failed manifest_failed : InstallError
  clear_target_failed promote_failed : InstallError
  invalid : ManifestError → InstallError
  not_downloaded : DownloadError → InstallError
  not_rotated : RotateError → InstallError
  not_marked : MarkerError → InstallError

pub data Outcome : Type 0 where
  installed : Rotation → ℕ → Outcome
  failed : InstallError → Outcome

unfoldable pub has_version : String → List (String × Worker) → Bool
has_version version [] = false
has_version version ((v, w) ∷ rest) = str_eq v version || has_version version rest

unfoldable pub remove_version : String → List (String × Worker) → List (String × Worker)
remove_version version [] = []
remove_version version ((v, w) ∷ rest) =
    let others = remove_version version rest in if str_eq v version then others else (v, w) ∷ others

unfoldable pub lookup_version : String → List (String × Worker) → Option Worker
lookup_version version [] = none
lookup_version version ((v, w) ∷ rest) =
    let later = lookup_version version rest in if str_eq v version then some w else later

-- What Apply does with a file system that works as `f` says, at the time `now`.
module _ {B : Type 0} (json : Codec GateMarker B) (in_versions : String → String)
    (f : InstallFaults B) (now : Time) where
  unfoldable pub marked :
      Root B → Rotation → ℕ → MarkerFile B × MarkerResult (Unit {0}) → Root B × Outcome
  marked root r n (file, Marker.ok _) = (record root { marker = file }, installed r n)
  marked root r n (file, Marker.err e) = (record root { marker = file }, failed (not_marked e))

  unfoldable pub mark : String → ℕ → Root B → Rotation → Option RotateError → Root B × Outcome
  mark version n root r (some e) = (root, failed (not_rotated e))
  mark version n root r none = marked root r n (
      write_gate_marker json f.write_marker root.marker now
        (record { version = version; installed_at = now }))

  unfoldable pub rotated : String → ℕ → Root B → Links × Rotation → Root B × Outcome
  rotated version n root (links, r) = mark version n (record root { links = links }) r r.error

  -- Moving the staging directory into place, and what follows.
  unfoldable pub promoted : String → ℕ → Worker → Root B → Root B × Outcome
  promoted version n w root =
      if has_version version root.versions && f.clear_target
      then (root, failed clear_target_failed)
      else let cleared = record root { versions = remove_version version root.versions } in
        if f.promote
        then (cleared, failed promote_failed)
        else rotated version n
            (record cleared { versions = (version, w) ∷ cleared.versions; staging = false })
            (rotate_symlinks f.rotate root.links (in_versions version))

  unfoldable pub discarded : InstallError → Root B → Root B × Outcome
  discarded e root = (record root { staging = f.discard }, failed e)

  unfoldable pub downloaded : String → Root B → Download (Worker × ℕ) → Root B × Outcome
  downloaded version root (Download.err e) = discarded (not_downloaded e) root
  downloaded version root (Download.ok (w, n)) =
      if f.write_manifest then discarded manifest_failed root else promoted version n w root

  unfoldable pub staged :
      (Artifact → Download (Worker × ℕ)) → String → Artifact → Root B → Root B × Outcome
  staged download version art root =
      if f.mkdir_versions
      then (root, failed mkdir_versions_failed)
      else if f.clear_staging
      then (root, failed clear_staging_failed)
      else if f.mkdir_staging
      then (record root { staging = false }, failed mkdir_staging_failed)
      else downloaded version (record root { staging = true }) (download art)

  unfoldable pub chosen :
      (Artifact → Download (Worker × ℕ))
      → Config
      → Manifest
      → Root B
      → Option Artifact
      → Root B × Outcome
  chosen download cfg m root none = (root, failed no_artifact)
  chosen download cfg m root (some art) =
      if not (str_eq cfg.current_version "") && str_eq cfg.current_version m.version
      then (root, failed already_installed)
      else staged download m.version art root

  unfoldable pub validated :
      (Artifact → Download (Worker × ℕ))
      → Config
      → Manifest
      → Root B
      → Option ManifestError
      → Root B × Outcome
  validated download cfg m root (some e) = (root, failed (invalid e))
  validated download cfg m root none = chosen download cfg m root (for_host m cfg.goos cfg.goarch)

  unfoldable pub apply_manifest :
      (Artifact → Download (Worker × ℕ)) → Config → Root B → Option Manifest → Root B × Outcome
  apply_manifest download cfg root none = (root, failed nil_manifest)
  apply_manifest download cfg root (some m) =
      if cfg.root_is_empty
      then (root, failed empty_root)
      else validated download cfg m root (validate m)

  -- Apply; `download` is downloadAndExtract.
  unfoldable pub apply : (Artifact → Download (Worker × ℕ)) → Config → Root B → Root B × Outcome
  apply download cfg root = apply_manifest download cfg root cfg.manifest
