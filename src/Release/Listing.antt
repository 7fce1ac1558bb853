-- ===== src/Release/Listing.antt =====
-- What the manifest of a release says of a target (cmd/clawmast-release/manifest.go).
use mathlib.Core.List.{Memᴰ}
use mathlib.Core.List.Memᴰ
use mathlib.Core.Path.{subst}
use clawmast.Prelude.{
  ℕ, Time, String, Bool, true, false, ◌&&◌, Option, none, some, List, [], ◌∷◌, str_eq,
  if◌then◌else◌, ◌≡◌, inl, inr, refl, sym, ap, ◌∙◌, arith, eq_iff, eq_refl, Bool-cases,
}
use clawmast.Updater.Manifest.{Artifact, Manifest, ManifestError, validate, for_host_in, for_host}
use clawmast.Updater.Client.{trim_slashes}
use clawmast.Release.Build.{Target, Released, ok, err, hash_failed, invalid_manifest, write_failed}
use clawmast.Release.Describe.{
  tarball_name, artifact_of, artifacts_of, Flags, Dist, checked_manifest, manifest_for,
  resolve_targets, run_manifest,
}

-- What the loop of runManifest made of a first target.
first_listed :
    (sha256_hex : List ℕ → String) (tarball : String → Option (List ℕ)) (base : String) (t : Target)
    (rest : List Target) (l : List Artifact)
    → artifacts_of sha256_hex tarball base (t ∷ rest) ≡ ok l
    → (bytes : List ℕ) × (more : List Artifact) × (tarball (tarball_name t) ≡ some bytes)
      × (artifacts_of sha256_hex tarball base rest ≡ ok more)
      × (l ≡ artifact_of sha256_hex base t bytes ∷ more)
unfolding artifacts_of
first_listed sha256_hex tarball base t rest l h =
    go (tarball (tarball_name t)) (artifacts_of sha256_hex tarball base rest) refl refl h
  where
    go :
        (o : Option (List ℕ)) (r : Released (List Artifact))
        → tarball (tarball_name t) ≡ o
        → artifacts_of sha256_hex tarball base rest ≡ r
        → (elim o [
          | none ↦ err hash_failed
          | some bytes ↦ elim r [
            | err e ↦ err e
            | ok more ↦ ok (artifact_of sha256_hex base t bytes ∷ more)
          ]
        ])
          ≡ ok l
        → (bytes : List ℕ) × (more : List Artifact) × (tarball (tarball_name t) ≡ some bytes)
          × (artifacts_of sha256_hex tarball base rest ≡ ok more)
          × (l ≡ artifact_of sha256_hex base t bytes ∷ more)
    go none r read same k = absurd cc
    go (some bytes) (err e) read same k = absurd cc
    go (some bytes) (ok more) read same k = (bytes, more, read, same, cc)

same_target :
    (x t : Target) → str_eq x.os_name t.os_name && str_eq x.arch_name t.arch_name ≡ true → x ≡ t
same_target x t h =
    let os : x.os_name ≡ t.os_name = (eq_iff x.os_name t.os_name).0 (ground (arith, h)) in
    let arch : x.arch_name ≡ t.arch_name = (eq_iff x.arch_name t.arch_name).0 (ground (arith, h)) in
    let make : String → String → Target = λ a b. record { os_name = a; arch_name = b } in
    ap (λ a. make a x.arch_name) os ∙ ap (make t.os_name) arch

self_test : (t : Target) → str_eq t.os_name t.os_name && str_eq t.arch_name t.arch_name ≡ true
self_test t = rw (eq_refl t.os_name, eq_refl t.arch_name) refl

listed :
    (sha256_hex : List ℕ → String) (tarball : String → Option (List ℕ)) (base : String) (t : Target)
    (bytes : List ℕ) (ts : List Target) (l : List Artifact)
    → tarball (tarball_name t) ≡ some bytes
    → artifacts_of sha256_hex tarball base ts ≡ ok l
    → Memᴰ t ts
    → for_host_in l t.os_name t.arch_name ≡ some (artifact_of sha256_hex base t bytes)
unfolding for_host_in artifact_of
listed sha256_hex tarball base t bytes [] l held h m = absurd (Memᴰ.not-nil m)
listed sha256_hex tarball base t bytes (x ∷ ts) l held h m =
    let (read, more, found, later, same) = first_listed sha256_hex tarball base x ts l h in
    elim (Bool-cases (str_eq x.os_name t.os_name && str_eq x.arch_name t.arch_name)) [
      | inl here ↦
          let one : x ≡ t = same_target x t here in
          let both : read ≡ bytes = cc (one, found, held) in rw (same, here) (cc (one, both))
      | inr other ↦ elim (Memᴰ.cases_cons m) [
        | inl head ↦
            let self : str_eq t.os_name t.os_name && str_eq t.arch_name t.arch_name ≡ false =
              rw (sym head) at other in
            absurd (cc (self_test t, self))
        | inr later_one ↦
            rw (same, other) (listed sha256_hex tarball base t bytes ts more held later later_one)
      ]
    ]

-- A manifest that was made passes Validate, and is of the artifacts of the targets.
made_from :
    (sha256_hex : List ℕ → String) (f : Flags) (d : Dist) (now : Time) (ts : List Target)
    (m : Manifest)
    → manifest_for sha256_hex f d now ts ≡ ok m
    → (validate m ≡ none)
      × (artifacts_of sha256_hex d.tarball (trim_slashes f.base_url) ts ≡ ok m.artifacts)
unfolding manifest_for checked_manifest
made_from sha256_hex f d now ts m h =
    go (artifacts_of sha256_hex d.tarball (trim_slashes f.base_url) ts) refl h
  where
    of : List Artifact → Manifest
    of l = record {
      channel = f.channel;
      version = f.version;
      published_at = now;
      notes = f.notes;
      artifacts = l;
    }

    Made : Type 0
    Made =
        (validate m ≡ none)
        × (artifacts_of sha256_hex d.tarball (trim_slashes f.base_url) ts ≡ ok m.artifacts)

    checked :
        (l : List Artifact) (o : Option ManifestError) (b : Bool)
        → artifacts_of sha256_hex d.tarball (trim_slashes f.base_url) ts ≡ ok l
        → validate (of l) ≡ o
        → (elim o [
          | some e ↦ err (invalid_manifest e)
          | none ↦ if b then err write_failed else ok (of l)
        ])
          ≡ ok m
        → Made
    checked l (some e) b artifacts valid k = absurd cc
    checked l none true artifacts valid k = absurd cc
    checked l none false artifacts valid k =
        let same : of l ≡ m = cc in
        subst
          (λ x.
            (validate x ≡ none)
            × (artifacts_of sha256_hex d.tarball (trim_slashes f.base_url) ts ≡ ok x.artifacts))
          same (valid, artifacts)

    go :
        (r : Released (List Artifact))
        → artifacts_of sha256_hex d.tarball (trim_slashes f.base_url) ts ≡ r
        → (elim r [ err e ↦ err e | ok l ↦ checked_manifest d (of l) ]) ≡ ok m
        → Made
    go (err e) artifacts k = absurd cc
    go (ok l) artifacts k = checked l (validate (of l)) d.write_fails artifacts refl k

run_from :
    (sha256_hex : List ℕ → String) (f : Flags) (d : Dist) (now : Time) (ts : List Target)
    (m : Manifest)
    → resolve_targets f.platforms d.listing ≡ ok ts
    → run_manifest sha256_hex f d now ≡ ok m
    → manifest_for sha256_hex f d now ts ≡ ok m
unfolding run_manifest
run_from sha256_hex f d now ts m targets h = ground (arith, h, targets)

pub manifest_lists :
    (sha256_hex : List ℕ → String) (f : Flags) (d : Dist) (now : Time) (ts : List Target)
    (m : Manifest) (t : Target) (bytes : List ℕ)
    → resolve_targets f.platforms d.listing ≡ ok ts
    → run_manifest sha256_hex f d now ≡ ok m
    → Memᴰ t ts
    → d.tarball (tarball_name t) ≡ some bytes
    → (validate m ≡ none)
      × (for_host m t.os_name t.arch_name
          ≡ some (artifact_of sha256_hex (trim_slashes f.base_url) t bytes))
unfolding for_host
manifest_lists sha256_hex f d now ts m t bytes targets h mem held =
    let (valid, artifacts) =
      made_from sha256_hex f d now ts m (run_from sha256_hex f d now ts m targets h) in
    (
      valid,
      listed sha256_hex d.tarball (trim_slashes f.base_url) t bytes ts m.artifacts held artifacts
          mem,
    )
