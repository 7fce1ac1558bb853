-- ===== src/Agent/Updates/Examples.antt =====
-- An update over HTTP, and a check that fails, on concrete inputs (internal/agent/handlers.go, server.go).
use clawmast.Prelude.{
  ℕ, String, Bool, true, false, ◌==◌, Option, some, List, [], ◌∷◌, ◌++◌, ◌≡◌, ◌≢◌, refl, arith,
  eq_iff,
}
use clawmast.Updater.Manifest.{Manifest, validate, for_host, is_digest}
use clawmast.Updater.Client.{
  Response, response, Checked, transport_failed, check, urls, fetch, check_urls, check_fetched,
  check_signed, check_parsed, check_sensible, received, read_body, limit_body, channel_base,
  trim_slashes,
}
use clawmast.Updater.Client
use clawmast.SelfUpdate.Rotate.{rotate_symlinks}
use clawmast.SelfUpdate.Marker.{write_gate_marker}
use clawmast.SelfUpdate.Install.{
  apply, apply_manifest, validated, chosen, staged, downloaded, promoted, rotated, mark, marked,
  has_version, remove_version,
}
use clawmast.SelfUpdate.Install.Observed.{IsInstalled}
use clawmast.SelfUpdate.Install.Examples.{
  plain, plain-RoundTrips, fine, in_versions, before, download, release,
}
use clawmast.Agent.Server.{Config}
use clawmast.Agent.Updates.{
  UpdateInstallResponse, install_done, handle_update_install, install_checked, install_reply, error,
  run_background_checks, no_check, classify_updater_error,
}
use clawmast.Agent.Updates.Installing.{install_config, verified_install}
use clawmast.Agent.Updates.Checking.{failure_forgets}

abbrev config : Config
config = record {
  install_root = "/home/u/.clawmast";
  request_rollback = true;
  request_restart = true;
  update_base_url = "https://example.org";
  update_channel = "stable";
  token = "";
  state_dir = "/home/u/.clawmast/state";
}

-- The manifest is the byte 1, and its signature under the key 7 is the byte 2.
abbrev unmarshal : List ℕ → Option Manifest
unmarshal bytes = some release

abbrev verify : ℕ → List ℕ → List ℕ → Bool
verify key manifest sig = key == 7

abbrev scheme_of : String → Option String
scheme_of url = some "https"

abbrev get : String → Response
get url = response 200 (some (1 ∷ []))

abbrev found : Checked Manifest
found =
    check unmarshal verify scheme_of get (Client.new config.update_base_url config.update_channel 7)

abbrev reported : UpdateInstallResponse
reported = record {
  version = "v2";
  previous_version = "v1";
  current_after = "versions/v2";
  previous_after = "versions/v1";
  bytes_downloaded = 3;
}

done :
    (handle_update_install plain in_versions fine 100 download config "v1" "linux" "amd64" before
      found).1
    ≡ install_done reported
unfolding handle_update_install install_checked install_reply check urls fetch check_urls
    check_fetched check_signed check_parsed check_sensible received read_body limit_body Client.new
    apply apply_manifest validated chosen staged downloaded promoted rotated mark marked has_version
    remove_version rotate_symlinks write_gate_marker for_host validate is_digest
done = refl

clock_set : ◌≢◌ {A = ℕ} 100 0
clock_set = ground arith

verified_install_example :
    let reply =
      handle_update_install plain in_versions fine 100 download config "v1" "linux" "amd64" before
        found in
    (reply.2 ≡ true)
    × ((m : Manifest) × (manifest sig : List ℕ) × (verify 7 manifest sig ≡ true)
        × (unmarshal manifest ≡ some m)
        × (m.channel
            ≡ (Client.new {Key = ℕ} config.update_base_url config.update_channel 7).channel)
        × (reported.version ≡ m.version)
        × (reported.previous_version ≡ "v1")
        × IsInstalled plain in_versions fine 100 download
            (install_config config "v1" "linux" "amd64" m)
            m
            3
            reply.0)
verified_install_example =
    verified_install plain in_versions fine 100 download unmarshal verify scheme_of get 7
      plain-RoundTrips config "v1" "linux" "amd64" before reported clock_set done

base_set : config.update_base_url ≢ ""
base_set = ground (arith, eq_iff "https://example.org" "")

failure_forgets_example :
    run_background_checks config "v1"
      ((Client.ok release, 60) ∷ [] ++ (Client.err transport_failed, 120) ∷ [])
      no_check
    ≡ record {
      at_time = 120;
      last = some (record {
        current = "v1";
        latest = "v1";
        update_available = false;
        channel = "stable";
        source = error;
        error_code = classify_updater_error transport_failed;
      });
    }
failure_forgets_example =
    failure_forgets config "v1" ((Client.ok release, 60) ∷ []) transport_failed 120 no_check
      base_set
