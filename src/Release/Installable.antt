-- ===== src/Release/Installable.antt =====
-- A release that is built and described can be installed: the release tool (cmd/clawmast-release)
-- against internal/updater and internal/selfupdate.
use mathlib.Core.List.{Memᴰ, map}
use clawmast.Prelude.{
  ℕ, suc, ◌+◌, Time, String, true, false, Option, none, some, List, [], ◌∷◌, length, take, ◌≡◌,
  refl, ap, arith,
}
use clawmast.Updater.Manifest.{Manifest, validate, for_host}
use clawmast.Updater.Client.{trim_slashes}
use clawmast.SelfUpdate.Download.{
  TarEntry, TarItem, entry, Worker, ok, equal_fold, check_seen, after_extract, extract_body,
  extract_tar, download_and_extract, response,
}
use clawmast.Release.Build.{Target, Workshop, build_one, ok as released}
use clawmast.Release.Describe.{
  tarball_name, artifact_of, Flags, Dist, resolve_targets, run_manifest,
}
use clawmast.Release.Packing.{IsSupervised, no_faults}
use clawmast.Release.Extracting.{build_then_extract}
use clawmast.Release.Listing.{manifest_lists}

equal_fold_refl : (s : String) → equal_fold s s ≡ true
unfolding equal_fold
equal_fold_refl String.[] = refl
equal_fold_refl (String.◌∷◌ c s) = ground (arith, equal_fold_refl s)

take_whole : (xs : List ℕ) → take (suc (length xs)) xs ≡ xs
take_whole [] = refl
take_whole (x ∷ xs) = ap (λ l. x ∷ l) (take_whole xs)

take_all : (xs : List ℕ) → take (length xs + 1) xs ≡ xs
take_all xs = let n : length xs + 1 ≡ suc (length xs) = omega arith in rw n (take_whole xs)

-- An archive is accepted under the artifact that describes it.
described_accepted :
    (sha256_hex : List ℕ → String) (unpack : List ℕ → Option (List TarItem)) (base : String)
    (t : Target) (bytes : List ℕ) (items : List TarItem) (w : Worker)
    → unpack bytes ≡ some items
    → extract_tar no_faults items none ≡ ok w
    → download_and_extract unpack sha256_hex no_faults false
        (artifact_of sha256_hex base t bytes)
        (response 200 bytes)
      ≡ ok (w, length bytes)
unfolding download_and_extract extract_body after_extract check_seen artifact_of
described_accepted sha256_hex unpack base t bytes items w reads extracts =
    rw (take_all bytes, reads, extracts) (ground (arith, equal_fold_refl (sha256_hex bytes)))

-- Let the release tool build an archive for a target other than windows, with no slash in its names,
-- and let the tool's manifest, which lists that target, be made where the archive's file holds bytes that
-- the readers of tar and gzip read back as what was packed. Then the manifest passes Validate, the
-- artifact that it names for the target's host is the one of that file, and a download of these bytes,
-- while no call fails, is accepted and gives the worker that was compiled, as an executable.
pub release_installs :
    (sha256_hex : List ℕ → String) (unpack : List ℕ → Option (List TarItem)) (w : Workshop)
    (f : Flags) (d : Dist) (now : Time) (ts : List Target) (m : Manifest) (t : Target)
    (binary bytes : List ℕ) (headers : List TarEntry)
    → IsSupervised t
    → w.worker ≡ some binary
    → build_one w t ≡ released headers
    → unpack bytes ≡ some (map entry headers)
    → d.tarball (tarball_name t) ≡ some bytes
    → resolve_targets f.platforms d.listing ≡ released ts
    → Memᴰ t ts
    → run_manifest sha256_hex f d now ≡ released m
    → let artifact = artifact_of sha256_hex (trim_slashes f.base_url) t bytes in
      (validate m ≡ none)
      × (for_host m t.os_name t.arch_name ≡ some artifact)
      × (download_and_extract unpack sha256_hex no_faults false artifact (response 200 bytes)
          ≡ ok (record { mode = 493; content = binary }, length bytes))
release_installs sha256_hex unpack w f d now ts m t binary bytes headers unix made built reads held
      targets mem h =
    let (valid, listed) = manifest_lists sha256_hex f d now ts m t bytes targets h mem held in
    (
      valid,
      listed,
      described_accepted sha256_hex unpack (trim_slashes f.base_url) t bytes (map entry headers)
          (record { mode = 493; content = binary }) reads
          (build_then_extract w t binary headers unix made built),
    )
