-- ===== src/Agent/Updates.antt =====
-- The update handlers of internal/agent/handlers.go, and the background check of server.go. The times
-- that only bound a request are left out.
pub mod Installing
pub mod Checking
mod Examples
use clawmast.Prelude.{
  ℕ, Time, Duration, String, Bool, true, false, not, ◌||◌, Option, none, some, List, [], ◌∷◌, ◌==◌,
  if◌then◌else◌, str_eq,
}
use clawmast.Json.{Codec}
use clawmast.Updater.Manifest.{Artifact, Manifest}
use clawmast.Updater.Client.{
  CheckError, bad_url, manifest_missing, manifest_too_big, bad_signature, channel_mismatch, Checked,
}
use clawmast.Updater.Client
use clawmast.SelfUpdate.Marker.{GateMarker}
use clawmast.SelfUpdate.Rotate.{Rotation}
use clawmast.SelfUpdate.Download.{
  Worker, Download, DownloadError, drain_failed, bad_gzip, tar_header, unsafe_path,
  duplicate_worker, no_worker, too_long, too_short, bad_sha256,
}
use clawmast.SelfUpdate.Install.{
  Root, InstallFaults, InstallError, no_artifact, already_installed, not_downloaded, Outcome,
  installed, failed, apply,
}
use clawmast.SelfUpdate.Install
use clawmast.Agent.Server.{Config, Reply, refused, replied}

pub data Source : Type 0 where
  signed_manifest not_configured error : Source

-- UpdateCheckResponse, without the free texts.
pub record UpdateCheckResponse : Type 0 where
  pub current : String
  pub latest : String
  pub update_available : Bool
  pub channel : String
  pub source : Source
  pub error_code : String

unfoldable pub classify_updater_error : CheckError → String
classify_updater_error bad_signature = "bad-signature"
classify_updater_error channel_mismatch = "channel-mismatch"
classify_updater_error manifest_missing = "manifest-missing"
classify_updater_error manifest_too_big = "manifest-too-big"
classify_updater_error bad_url = "bad-url"
classify_updater_error _ = "unreachable"

unfoldable pub checked_reply : Config → String → Checked Manifest → UpdateCheckResponse
checked_reply cfg current (Client.err e) = record {
  current = current;
  latest = current;
  update_available = false;
  channel = cfg.update_channel;
  source = error;
  error_code = classify_updater_error e;
}
checked_reply cfg current (Client.ok m) = record {
  current = current;
  latest = m.version;
  update_available = not (str_eq m.version current);
  channel = m.channel;
  source = signed_manifest;
  error_code = "";
}

-- runUpdateCheck, also the body of handleUpdateCheck; the last argument is what Check returns, if it is
-- called. NewServer makes an updater exactly if the base URL is not empty.
unfoldable pub run_update_check : Config → String → Checked Manifest → UpdateCheckResponse
run_update_check cfg current check =
    if str_eq cfg.update_base_url ""
    then record {
      current = current;
      latest = current;
      update_available = false;
      channel = cfg.update_channel;
      source = not_configured;
      error_code = "";
    }
    else checked_reply cfg current check

-- The outcome of the last background check and its time.
pub record Background : Type 0 where
  pub at_time : Time
  pub last : Option UpdateCheckResponse

abbrev pub no_check : Background
no_check = record { at_time = 0; last = none }

unfoldable pub record_background_check : UpdateCheckResponse → Time → Background → Background
record_background_check resp now b = record { at_time = now; last = some resp }

-- The rounds of RunBackgroundChecks: what Check returns in each, and the time after it.
unfoldable pub run_background_checks :
    Config → String → List (Checked Manifest × Time) → Background → Background
run_background_checks cfg current [] b = b
run_background_checks cfg current ((check, now) ∷ rest) b =
    run_background_checks cfg current rest
      (record_background_check (run_update_check cfg current check) now b)

-- When the first round is due after the start, and whether there are rounds at all.
unfoldable pub first_delay : Duration → Duration → Option Duration
first_delay interval first =
    if interval == 0 then none else some (if first == 0 then interval else first)

-- UpdateInstallResponse of a success.
pub record UpdateInstallResponse : Type 0 where
  pub version : String
  pub previous_version : String
  pub current_after : String
  pub previous_after : String
  pub bytes_downloaded : ℕ

pub data InstallReply : Type 0 where
  install_failed : ℕ → String → InstallReply
  install_done : UpdateInstallResponse → InstallReply

unfoldable pub classify_download_error : DownloadError → String × ℕ
classify_download_error bad_sha256 = ("bad-sha256", 502)
classify_download_error too_long = ("size-mismatch", 502)
classify_download_error too_short = ("size-mismatch", 502)
classify_download_error bad_gzip = ("bad-tarball", 502)
classify_download_error tar_header = ("bad-tarball", 502)
classify_download_error unsafe_path = ("bad-tarball", 502)
classify_download_error duplicate_worker = ("bad-tarball", 502)
classify_download_error no_worker = ("bad-tarball", 502)
classify_download_error _ = ("install-failed", 500)

unfoldable pub classify_selfupdate_error : InstallError → String × ℕ
unfolding classify_download_error
classify_selfupdate_error (not_downloaded e) = classify_download_error e
classify_selfupdate_error no_artifact = ("no-artifact", 409)
classify_selfupdate_error already_installed = ("already-installed", 409)
classify_selfupdate_error _ = ("install-failed", 500)

-- What is answered after Apply; the last component says that RequestRestart is called.
unfoldable pub install_reply :
    {B : Type 0} → String → Manifest → Root B × Outcome → Root B × InstallReply × Bool
install_reply label m (root, failed e) =
    let (code, status) = classify_selfupdate_error e in (root, install_failed status code, false)
install_reply label m (root, installed r n) = (
  root,
  install_done (record {
    version = m.version;
    previous_version = label;
    current_after = r.after;
    previous_after = r.previous;
    bytes_downloaded = n;
  }),
  true,
)

module _ {B : Type 0} (json : Codec GateMarker B) (in_versions : String → String)
    (f : InstallFaults B) (now : Time) (download : Artifact → Download (Worker × ℕ)) where
  unfoldable pub install_checked :
      Config → String → String → String → Root B → Checked Manifest → Root B × InstallReply × Bool
  unfolding install_reply
  install_checked cfg label goos goarch root (Client.err e) =
      (root, install_failed 502 (classify_updater_error e), false)
  install_checked cfg label goos goarch root (Client.ok m) = install_reply label m (
      apply json in_versions f now download
        (record {
          manifest = some m;
          root_is_empty = str_eq cfg.install_root "";
          current_version = label;
          goos = goos;
          goarch = goarch;
        })
        root)

  -- handleUpdateInstall; `check` is what Check returns, if it is called. The last component says that
  -- RequestRestart is called, which the code does a quarter of a second later.
  unfoldable pub handle_update_install :
      Config → String → String → String → Root B → Checked Manifest → Root B × InstallReply × Bool
  unfolding install_checked
  handle_update_install cfg label goos goarch root check =
      if str_eq cfg.update_base_url ""
      then (root, install_failed 503 "not-configured", false)
      else if str_eq cfg.install_root ""
      then (root, install_failed 503 "install-root-unknown", false)
      else if not cfg.request_restart
      then (root, install_failed 503 "restart-unavailable", false)
      else install_checked cfg label goos goarch root check
