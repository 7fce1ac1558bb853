-- ===== src/Release/Describe.antt =====
-- cmd/clawmast-release/manifest.go: the manifest of a directory of archives. The file system, SHA-256 and
-- the encoder are arguments.
use Prim.Native.String.{◌++◌ as str_append}
use Prim.Native.Char.{Char, code}
use clawmast.Prelude.{
  ℕ, Time, String, Bool, not, ◌||◌, Option, none, some, List, [], ◌∷◌, ◌==◌, if◌then◌else◌, str_eq,
  starts_with, length,
}
use clawmast.Strings.{cut_prefix, before_first}
use clawmast.Updater.Manifest.{Artifact, Manifest, validate}
use clawmast.Updater.Client.{trim_slashes}
use clawmast.Release.Build.{
  Target, Released, ok, err, flags_missing, version_prefix, invalid_platform, unreadable_dir,
  no_tarballs, hash_failed, invalid_manifest, write_failed, release_prefix,
}

-- strings.Split(s, ",")
unfoldable pub split_commas : String → List String
split_commas String.[] = "" ∷ []
split_commas (String.◌∷◌ c s) =
    let rest = split_commas s in if code c == 44 then "" ∷ rest else before_first c rest

abbrev on_first : Char → Option (String × String) → Option (String × String)
on_first c none = none
on_first c (some (a, b)) = some (String.◌∷◌ c a, b)

-- strings.Cut, at a character.
unfoldable pub cut_at : ℕ → String → Option (String × String)
cut_at n String.[] = none
cut_at n (String.◌∷◌ c s) =
    let rest = cut_at n s in if code c == n then some ("", s) else on_first c rest

abbrev on_rest : Char → Option String → Option String
on_rest c none = none
on_rest c (some a) = some (String.◌∷◌ c a)

-- strings.HasSuffix and TrimSuffix: the text before the suffix, or none without it.
unfoldable pub cut_suffix : String → String → Option String
cut_suffix String.[] t = if str_eq "" t then some "" else none
cut_suffix (String.◌∷◌ c s) t =
    let rest = cut_suffix s t in if str_eq (String.◌∷◌ c s) t then some "" else on_rest c rest

-- The targets of -platforms.
unfoldable pub parse_targets : List String → Released (List Target)
unfolding cut_at
parse_targets [] = ok []
parse_targets (p ∷ rest) =
    let later = parse_targets rest in
    elim (cut_at 47 p) [
      | none ↦ err invalid_platform
      | some (os_name, arch_name) ↦ elim later [
        | err e ↦ err e
        | ok ts ↦ ok (record { os_name = os_name; arch_name = arch_name } ∷ ts)
      ]
    ]

-- The target that a file's name tells, if it is an archive of the release.
unfoldable pub target_of_file : String → Option Target
unfolding cut_prefix cut_suffix cut_at
target_of_file name = elim (cut_prefix name "clawmast-") [
  | none ↦ none
  | some rest ↦ elim (cut_suffix rest ".tar.gz") [
    | none ↦ none
    | some stem ↦ elim (cut_at 45 stem) [
      | none ↦ none
      | some (os_name, arch_name) ↦ some (record { os_name = os_name; arch_name = arch_name })
    ]
  ]
]

unfoldable pub targets_of_files : List String → List Target
unfolding target_of_file
targets_of_files [] = []
targets_of_files (name ∷ rest) =
    let later = targets_of_files rest in
    elim (target_of_file name) [ none ↦ later | some t ↦ t ∷ later ]

-- resolveTargets; the directory's names are none where it cannot be read.
unfoldable pub resolve_targets : String → Option (List String) → Released (List Target)
unfolding split_commas parse_targets targets_of_files
resolve_targets platforms listing =
    if not (str_eq platforms "") then parse_targets (split_commas platforms) else elim listing [
      | none ↦ err unreadable_dir
      | some names ↦ elim (targets_of_files names) [ [] ↦ err no_tarballs | t ∷ ts ↦ ok (t ∷ ts) ]
    ]

unfoldable pub tarball_name : Target → String
unfolding release_prefix
tarball_name t = str_append (release_prefix t) ".tar.gz"

unfoldable pub artifact_of : (List ℕ → String) → String → Target → List ℕ → Artifact
unfolding tarball_name
artifact_of sha256_hex base t bytes = record {
  os = t.os_name;
  arch = t.arch_name;
  url = str_append base (str_append "/" (tarball_name t));
  size = length bytes;
  sha256 = sha256_hex bytes;
}

-- The loop over the targets; `tarball` is the content of a file of the directory.
unfoldable pub artifacts_of :
    (List ℕ → String) → (String → Option (List ℕ)) → String → List Target → Released (List Artifact)
unfolding artifact_of
artifacts_of sha256_hex tarball base [] = ok []
artifacts_of sha256_hex tarball base (t ∷ rest) =
    let later = artifacts_of sha256_hex tarball base rest in
    elim (tarball (tarball_name t)) [
      | none ↦ err hash_failed
      | some bytes ↦ elim later [
        | err e ↦ err e
        | ok more ↦ ok (artifact_of sha256_hex base t bytes ∷ more)
      ]
    ]

-- The flags of the subcommand.
pub record Flags : Type 0 where
  pub out : String
  pub channel : String
  pub version : String
  pub base_url : String
  pub notes : String
  pub platforms : String

-- The directory of the archives, and whether the manifest can be written.
pub record Dist : Type 0 where
  pub listing : Option (List String)
  pub tarball : String → Option (List ℕ)
  pub write_fails : Bool

-- The manifest is checked and then written.
unfoldable pub checked_manifest : Dist → Manifest → Released Manifest
checked_manifest d m = elim (validate m) [
  | some e ↦ err (invalid_manifest e)
  | none ↦ if d.write_fails then err write_failed else ok m
]

unfoldable pub manifest_for :
    (List ℕ → String) → Flags → Dist → Time → List Target → Released Manifest
unfolding artifacts_of checked_manifest trim_slashes
manifest_for sha256_hex f d now targets =
    elim (artifacts_of sha256_hex d.tarball (trim_slashes f.base_url) targets) [
      | err e ↦ err e
      | ok artifacts ↦ checked_manifest d (record {
        channel = f.channel;
        version = f.version;
        published_at = now;
        notes = f.notes;
        artifacts = artifacts;
      })
    ]

-- runManifest: the manifest that it writes.
unfoldable pub run_manifest : (List ℕ → String) → Flags → Dist → Time → Released Manifest
unfolding resolve_targets manifest_for
run_manifest sha256_hex f d now =
    if str_eq f.out "" || str_eq f.version "" || str_eq f.base_url ""
    then err flags_missing
    else if not (starts_with f.version "v")
    then err version_prefix
    else elim (resolve_targets f.platforms d.listing) [
      | err e ↦ err e
      | ok targets ↦ manifest_for sha256_hex f d now targets
    ]
