-- ===== src/SelfUpdate/Install/Steps.antt =====
-- The steps of an install that succeeds, one after the other (internal/selfupdate/install_unix.go).
use text.Mathlib.Text.{◌==◌ as str_eq}
use mathlib.Core.Path.{subst}
use clawmast.Prelude.{
  ℕ, Time, String, Bool, true, false, not, ◌&&◌, Option, none, some, ◌∷◌, ◌≡◌, refl, sym, ap, ◌∙◌,
  arith, if◌then◌else◌,
}
use clawmast.Json.{Codec}
use clawmast.Updater.Manifest.{Artifact, Manifest, ManifestError, validate, for_host}
use clawmast.SelfUpdate.Marker.{
  GateMarker, MarkerFile, MarkerResult, write_gate_marker, read_gate_marker, marker_round_trip,
}
use clawmast.SelfUpdate.Marker
use clawmast.SelfUpdate.Rotate.{Rotation, RotateError, rotate_symlinks}
use clawmast.SelfUpdate.Download.{Worker, Download}
use clawmast.SelfUpdate.Install.{
  Root, InstallFaults, Config, Outcome, InstallError, installed, failed, discarded, has_version,
  remove_version, marked, mark, rotated, promoted, discarded, downloaded, staged, chosen, validated,
  apply_manifest, apply,
}

module _ {B : Type 0} (json : Codec GateMarker B) (in_versions : String → String)
    (f : InstallFaults B) (now : Time) where
  -- The steps of an install of that worker under that version, from that root, all done.
  abbrev pub Done : String → Worker → Root B → Root B → Type 0
  Done version w root root' =
      ((rotate_symlinks f.rotate root.links (in_versions version)).1.error ≡ none)
      × (root'.links ≡ (rotate_symlinks f.rotate root.links (in_versions version)).0)
      × ((write_gate_marker json f.write_marker root.marker now
            (record { version = version; installed_at = now })).1
          ≡ Marker.ok tt)
      × (root'.marker
          ≡ (write_gate_marker json f.write_marker root.marker now
              (record { version = version; installed_at = now })).0)
      × (root'.versions ≡ (version, w) ∷ remove_version version root.versions)
      × (root'.staging ≡ false)

  marked-Installed :
      (root : Root B) (r q : Rotation) (n k : ℕ) (o : MarkerFile B × MarkerResult (Unit {0}))
      → (marked json in_versions f now root r n o).1 ≡ installed q k
      → (o.1 ≡ Marker.ok tt)
        × ((marked json in_versions f now root r n o).0 ≡ record root { marker = o.0 })
        × (n ≡ k)
  unfolding marked
  marked-Installed root r q n k (file, Marker.ok _) h = (refl, refl, ground (arith, h))
  marked-Installed root r q n k (file, Marker.err e) h = absurd cc

  mark-Installed :
      (version : String) (n k : ℕ) (root : Root B) (r q : Rotation) (e : Option RotateError)
      → (mark json in_versions f now version n root r e).1 ≡ installed q k
      → (e ≡ none)
        × ((mark json in_versions f now version n root r e) ≡ (
            marked json in_versions f now root r n (
              write_gate_marker json f.write_marker root.marker now
                (record { version = version; installed_at = now }))))
  unfolding mark
  mark-Installed version n k root r q none h = (refl, refl)
  mark-Installed version n k root r q (some e) h = absurd cc

  moved-Installed :
      (version : String) (n k : ℕ) (w : Worker) (root : Root B) (q : Rotation) (a b : Bool)
      → let cleared : Root B = record root { versions = remove_version version root.versions } in
        let moved : Root B = record cleared {
          versions = (version, w) ∷ cleared.versions;
          staging = false;
        } in
        let go =
          rotated json in_versions f now version n moved
            (rotate_symlinks f.rotate root.links (in_versions version)) in
        let r : Root B × Outcome =
          if a
          then (root, failed InstallError.clear_target_failed)
          else if b
          then (cleared, failed InstallError.promote_failed)
          else go in
        r.1 ≡ installed q k → Done version w root r.0 × (n ≡ k)
  unfolding rotated
  moved-Installed version n k w root q true b h = absurd cc
  moved-Installed version n k w root q false true h = absurd cc
  moved-Installed version n k w root q false false h =
      let cleared : Root B = record root { versions = remove_version version root.versions } in
      let rot = rotate_symlinks f.rotate root.links (in_versions version) in
      let written =
        write_gate_marker json f.write_marker root.marker now
          (record { version = version; installed_at = now }) in
      let turned : Root B = record cleared {
        links = rot.0;
        versions = (version, w) ∷ cleared.versions;
        staging = false;
      } in
      let (no_error, as_marked) = mark-Installed version n k turned rot.1 q rot.1.error h in
      let (written_ok, as_done, same) =
        marked-Installed turned rot.1 q n k written (ap (λ x. x.1) (sym as_marked) ∙ h) in
      let whole = ap (λ x. x.0) as_marked ∙ as_done in
      (
        (
          no_error,
          ap (λ (x : Root B). x.links) whole,
          written_ok,
          ap (λ (x : Root B). x.marker) whole,
          ap (λ (x : Root B). x.versions) whole,
          ap (λ (x : Root B). x.staging) whole,
        ),
        same,
      )

  promoted-Installed :
      (version : String) (n k : ℕ) (w : Worker) (root : Root B) (q : Rotation)
      → (promoted json in_versions f now version n w root).1 ≡ installed q k
      → Done version w root (promoted json in_versions f now version n w root).0 × (n ≡ k)
  unfolding promoted
  promoted-Installed version n k w root q h =
      moved-Installed version n k w root q (has_version version root.versions && f.clear_target)
        f.promote h

  downloaded-Installed :
      (version : String) (k : ℕ) (root : Root B) (q : Rotation) (d : Download (Worker × ℕ))
      → (downloaded json in_versions f now version root d).1 ≡ installed q k
      → (w : Worker) × (d ≡ Download.ok (w, k))
        × Done version w root (downloaded json in_versions f now version root d).0
  unfolding downloaded
  downloaded-Installed version k root q (Download.err e) h = absurd (unfold discarded in cc)
  downloaded-Installed version k root q (Download.ok (w, n)) h = go f.write_manifest h
    where
      go :
          (b : Bool)
          → let r : Root B × Outcome =
              if b
              then discarded json in_versions f now InstallError.manifest_failed root
              else promoted json in_versions f now version n w root in
            r.1 ≡ installed q k
            → (v : Worker) × (◌≡◌ {A = Download (Worker × ℕ)}
                (Download.ok (w, n))
                (Download.ok (v, k)))
              × Done version v root r.0
      go true e = absurd (unfold discarded in cc)
      go false e =
          let (done, same) = promoted-Installed version n k w root q e in
          (w, ap (λ j. Download.ok (w, j)) same, done)

  -- The worker of that artifact is the one that was installed.
  abbrev pub FromArtifact :
      (Artifact → Download (Worker × ℕ)) → String → ℕ → Artifact → Root B → Root B → Type 0
  FromArtifact download version k art root root' =
      (w : Worker) × (download art ≡ Download.ok (w, k)) × Done version w root root'

  staged-Installed :
      (download : Artifact → Download (Worker × ℕ)) (version : String) (k : ℕ) (art : Artifact)
      (root : Root B) (q : Rotation)
      → (staged json in_versions f now download version art root).1 ≡ installed q k
      → FromArtifact download version k art root
          (staged json in_versions f now download version art root).0
  unfolding staged
  staged-Installed download version k art root q h =
      go f.mkdir_versions f.clear_staging f.mkdir_staging h
    where
      go :
          (a b c : Bool)
          → let r : Root B × Outcome =
              if a
              then (root, failed InstallError.mkdir_versions_failed)
              else if b
              then (root, failed InstallError.clear_staging_failed)
              else if c
              then (record root { staging = false }, failed InstallError.mkdir_staging_failed)
              else downloaded json in_versions f now version
                  (record root { staging = true })
                  (download art) in
            r.1 ≡ installed q k → FromArtifact download version k art root r.0
      go true b c e = absurd cc
      go false true c e = absurd cc
      go false false true e = absurd cc
      go false false false e =
          downloaded-Installed version k (record root { staging = true }) q (download art) e

  chosen-Installed :
      (download : Artifact → Download (Worker × ℕ)) (cfg : Config) (m : Manifest) (k : ℕ)
      (root : Root B) (q : Rotation) (o : Option Artifact)
      → (chosen json in_versions f now download cfg m root o).1 ≡ installed q k
      → (art : Artifact) × (o ≡ some art)
        × FromArtifact download m.version k art root
            (chosen json in_versions f now download cfg m root o).0
  unfolding chosen
  chosen-Installed download cfg m k root q none h = absurd cc
  chosen-Installed download cfg m k root q (some art) h = (
    art,
    refl,
    go (not (str_eq cfg.current_version "") && str_eq cfg.current_version m.version) h,
  )
    where
      go :
          (b : Bool)
          → let r : Root B × Outcome =
              if b
              then (root, failed InstallError.already_installed)
              else staged json in_versions f now download m.version art root in
            r.1 ≡ installed q k → FromArtifact download m.version k art root r.0
      go true e = absurd cc
      go false e = staged-Installed download m.version k art root q e

  validated-Installed :
      (download : Artifact → Download (Worker × ℕ)) (cfg : Config) (m : Manifest) (k : ℕ)
      (root : Root B) (q : Rotation) (o : Option ManifestError)
      → (validated json in_versions f now download cfg m root o).1 ≡ installed q k
      → (o ≡ none)
        × ((art : Artifact) × (for_host m cfg.goos cfg.goarch ≡ some art)
            × FromArtifact download m.version k art root
                (validated json in_versions f now download cfg m root o).0)
  unfolding validated
  validated-Installed download cfg m k root q (some e) h = absurd cc
  validated-Installed download cfg m k root q none h =
      (refl, chosen-Installed download cfg m k root q (for_host m cfg.goos cfg.goarch) h)

  -- All that is known of an install of that manifest.
  abbrev pub Chain :
      (Artifact → Download (Worker × ℕ)) → Config → Manifest → ℕ → Root B → Root B → Type 0
  Chain download cfg m k root root' =
      (validate m ≡ none)
      × ((art : Artifact) × (for_host m cfg.goos cfg.goarch ≡ some art)
          × FromArtifact download m.version k art root root')

  pub apply-Chain :
      (download : Artifact → Download (Worker × ℕ)) (cfg : Config) (root : Root B) (m : Manifest)
      (q : Rotation) (k : ℕ)
      → cfg.manifest ≡ some m
      → (apply json in_versions f now download cfg root).1 ≡ installed q k
      → Chain download cfg m k root (apply json in_versions f now download cfg root).0
  unfolding apply apply_manifest
  apply-Chain download cfg root m q k given h =
      let same = ap (apply_manifest json in_versions f now download cfg root) given in
      subst (λ (x : Root B × Outcome). Chain download cfg m k root x.0) (sym same)
        (go cfg.root_is_empty (ap (λ x. x.1) (sym same) ∙ h))
    where
      go :
          (b : Bool)
          → let r : Root B × Outcome =
              if b
              then (root, failed InstallError.empty_root)
              else validated json in_versions f now download cfg m root (validate m) in
            r.1 ≡ installed q k → Chain download cfg m k root r.0
      go true e = absurd cc
      go false e = validated-Installed download cfg m k root q (validate m) e
