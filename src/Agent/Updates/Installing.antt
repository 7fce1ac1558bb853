-- ===== src/Agent/Updates/Installing.antt =====
-- What an install over HTTP leads to (internal/agent/handlers.go).
use clawmast.Prelude.{
  ℕ, Time, String, Bool, true, Option, some, List, ◌≡◌, ◌≢◌, refl, sym, ap, ◌∙◌, arith, str_eq,
}
use clawmast.Json.{Codec, RoundTrips}
use clawmast.Updater.Manifest.{Artifact, Manifest}
use clawmast.Updater.Client.{Checked, Response, Client, check}
use clawmast.Updater.Client
use clawmast.Updater.Client.Soundness.{check_iff}
use clawmast.SelfUpdate.Marker.{GateMarker}
use clawmast.SelfUpdate.Rotate.{Rotation}
use clawmast.SelfUpdate.Download.{Worker, Download}
use clawmast.SelfUpdate.Install.{
  Root, InstallFaults, Config as InstallConfig, Outcome, installed, failed, apply,
}
use clawmast.SelfUpdate.Install.Observed.{IsInstalled, apply-IsInstalled}
use clawmast.Agent.Server.{Config}
use clawmast.Agent.Updates.{
  UpdateInstallResponse, InstallReply, install_done, install_reply, install_checked,
  handle_update_install,
}

abbrev pub install_config : Config → String → String → String → Manifest → InstallConfig
install_config cfg label goos goarch m = record {
  manifest = some m;
  root_is_empty = str_eq cfg.install_root "";
  current_version = label;
  goos = goos;
  goarch = goarch;
}

reply_done :
    {B : Type 0} (label : String) (m : Manifest) (a : Root B × Outcome) (r : UpdateInstallResponse)
    → (install_reply label m a).1 ≡ install_done r
    → (q : Rotation) × (a.1 ≡ installed q r.bytes_downloaded)
      × ((install_reply label m a).0 ≡ a.0)
      × ((install_reply label m a).2 ≡ true)
      × (r.version ≡ m.version)
      × (r.previous_version ≡ label)
      × (r.current_after ≡ q.after)
      × (r.previous_after ≡ q.previous)
unfolding install_reply
reply_done label m (root, failed e) r h = absurd (ground (arith, h))
reply_done label m (root, installed q n) r h = (
  q,
  ground (arith, h),
  refl,
  refl,
  ground (arith, h),
  ground (arith, h),
  ground (arith, h),
  ground (arith, h),
)

handled_done :
    {B : Type 0} (json : Codec GateMarker B) (in_versions : String → String) (f : InstallFaults B)
    (now : Time) (download : Artifact → Download (Worker × ℕ)) (cfg : Config)
    (label goos goarch : String) (root : Root B) (c : Checked Manifest) (r : UpdateInstallResponse)
    → let reply =
        handle_update_install json in_versions f now download cfg label goos goarch root c in
      reply.1 ≡ install_done r
      → (m : Manifest) × (c ≡ Client.ok m)
        × (reply
            ≡ install_reply label m (
                apply json in_versions f now download
                  (install_config cfg label goos goarch m)
                  root))
unfolding handle_update_install install_checked
handled_done json in_versions f now download cfg label goos goarch root (Client.err e) r h =
    absurd (ground (arith, h))
handled_done json in_versions f now download cfg label goos goarch root (Client.ok m) r h =
    (m, refl, ground (arith, h))

module _ {B : Type 0} {Key : Type 0} (json : Codec GateMarker B) (in_versions : String → String)
    (f : InstallFaults B) (now : Time) (download : Artifact → Download (Worker × ℕ))
    (unmarshal : List ℕ → Option Manifest) (verify : Key → List ℕ → List ℕ → Bool)
    (scheme_of : String → Option String) (get : String → Response) (key : Key) where
  -- An update that is reported installed comes from a manifest that was decoded from bytes whose
  -- signature verifies under the server's key, and that names the server's channel. The version that
  -- the reply names is the manifest's, its worker is installed and `current` points at it, the reply
  -- tells the number of the bytes downloaded and the version that ran before, and the worker is asked
  -- to restart. The clock must not stand at Go's zero time.
  pub verified_install :
      (laws : RoundTrips GateMarker B json) (cfg : Config) (label goos goarch : String)
      (root : Root B) (r : UpdateInstallResponse)
      → now ≢ 0
      → let client = Client.new cfg.update_base_url cfg.update_channel key in
        let reply =
          handle_update_install json in_versions f now download cfg label goos goarch root
            (check unmarshal verify scheme_of get client) in
        reply.1 ≡ install_done r
        → (reply.2 ≡ true)
          × ((m : Manifest) × (manifest sig : List ℕ) × (verify key manifest sig ≡ true)
              × (unmarshal manifest ≡ some m)
              × (m.channel ≡ client.channel)
              × (r.version ≡ m.version)
              × (r.previous_version ≡ label)
              × IsInstalled json in_versions f now download
                  (install_config cfg label goos goarch m)
                  m
                  r.bytes_downloaded
                  reply.0)
  unfolding Client.new
  verified_install laws cfg label goos goarch root r clock h =
      let client = Client.new cfg.update_base_url cfg.update_channel key in
      let c = check unmarshal verify scheme_of get client in
      let (m, found, replied) =
        handled_done json in_versions f now download cfg label goos goarch root c r h in
      let done =
        apply json in_versions f now download (install_config cfg label goos goarch m) root in
      let (q, outcome, left, fired, version, previous, after, before) =
        reply_done label m done r
          (sym (ap (λ (p : Root B × InstallReply × Bool). p.1) replied) ∙ h) in
      let (mu, su, manifest, sig, at, got, got_sig, verified, decoded, valid, channel, small) =
        (check_iff unmarshal verify scheme_of get client m).0 found in
      rw replied (
        fired,
        (
          m,
          manifest,
          sig,
          verified,
          decoded,
          channel,
          version,
          previous,
          rw left (
              apply-IsInstalled json in_versions f now laws download
                (install_config cfg label goos goarch m) root m q r.bytes_downloaded refl clock
                outcome),
        ),
      )
