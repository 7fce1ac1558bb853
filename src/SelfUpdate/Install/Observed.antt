-- ===== src/SelfUpdate/Install/Observed.antt =====
-- What an install leaves behind (internal/selfupdate/install_unix.go), and what the supervisor makes of it.
use clawmast.Prelude.{
  eq_refl, is_zero_time, ℕ, Time, String, false, none, some, List, ◌∷◌, ◌≡◌, ◌≢◌, refl, ap, ◌∙◌,
  arith, if◌then◌else◌,
}
use clawmast.Json.{Codec, RoundTrips}
use clawmast.Updater.Manifest.{Artifact, Manifest, validate, for_host}
use clawmast.Supervisor.Symlinks.{Links}
use clawmast.SelfUpdate.Marker.{
  GateMarker, MarkerFile, MarkerResult, write_gate_marker, read_gate_marker, marker_round_trip,
}
use clawmast.SelfUpdate.Marker
use clawmast.SelfUpdate.Rotate.{Rotation, rotation_report}
use clawmast.SelfUpdate.Download.{Worker, Download}
use clawmast.SelfUpdate.Install.{Root, InstallFaults, Config, installed, lookup_version, apply}
use clawmast.SelfUpdate.Install.Steps.{apply-Chain}

module _ {B : Type 0} (json : Codec GateMarker B) (in_versions : String → String)
    (f : InstallFaults B) (now : Time) where
  -- What is there after an install of that manifest, of which `k` bytes were downloaded.
  abbrev pub IsInstalled :
      (Artifact → Download (Worker × ℕ)) → Config → Manifest → ℕ → Root B → Type 0
  IsInstalled download cfg m k root' =
      (validate m ≡ none)
      × ((art : Artifact) × (for_host m cfg.goos cfg.goarch ≡ some art)
          × ((w : Worker) × (download art ≡ Download.ok (w, k))
              × (lookup_version m.version root'.versions ≡ some w)))
      × (root'.links.current ≡ some (in_versions m.version))
      × (root'.staging ≡ false)
      × (read_gate_marker json false root'.marker
          ≡ Marker.ok (record { version = m.version; installed_at = now }))

  lookup_first :
      (version : String) (w : Worker) (rest : List (String × Worker))
      → lookup_version version ((version, w) ∷ rest) ≡ some w
  unfolding lookup_version
  lookup_first version w rest = rw (eq_refl version) refl

  marker_read :
      (laws : RoundTrips GateMarker B json) (version : String) (file : MarkerFile B)
      → now ≢ 0
      → (write_gate_marker json f.write_marker file now
          (record { version = version; installed_at = now })).1
        ≡ Marker.ok tt
      → read_gate_marker json false
          (write_gate_marker json f.write_marker file now
            (record { version = version; installed_at = now })).0
        ≡ Marker.ok (record { version = version; installed_at = now })
  marker_read laws version file clock written =
      let m : GateMarker = record { version = version; installed_at = now } in
      let (read, gone) = marker_round_trip B json laws f.write_marker file now m written in
      let set : is_zero_time now ≡ false = ground (arith, clock) in
      read ∙ ap (λ b. Marker.ok (if b then record m { installed_at = now } else m)) set

  -- An install that is reported done was of a manifest that Validate accepts, and of the worker that
  -- was downloaded for the artifact of this host, which its version directory now holds. `current`
  -- points at that directory, no staging directory is left, and whoever reads the marker finds the
  -- version and the time of the install. The clock must not stand at Go's zero time.
  pub apply-IsInstalled :
      (laws : RoundTrips GateMarker B json) (download : Artifact → Download (Worker × ℕ))
      (cfg : Config) (root : Root B) (m : Manifest) (q : Rotation) (k : ℕ)
      → cfg.manifest ≡ some m
      → now ≢ 0
      → (apply json in_versions f now download cfg root).1 ≡ installed q k
      → IsInstalled download cfg m k (apply json in_versions f now download cfg root).0
  apply-IsInstalled laws download cfg root m q k given clock h =
      let (valid, (art, host, (w, got, done))) =
        apply-Chain json in_versions f now download cfg root m q k given h in
      let (no_error, links, wrote, marker, versions, staging) = done in
      let report = rotation_report f.rotate root.links (in_versions m.version) in
      (
        valid,
        (art, host, (w, got, ap (lookup_version m.version) versions ∙ lookup_first m.version w _)),
        ap (λ (l : Links). l.current) links ∙ (report.0 no_error).0,
        staging,
        ap (read_gate_marker json false) marker
            ∙ marker_read laws m.version root.marker clock wrote,
      )
