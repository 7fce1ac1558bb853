-- ===== src/Updater/Manifest.antt =====
-- internal/updater/manifest.go: the document that describes a release, and its checks.
use Prim.Native.String.{len}
use Prim.Native.Char.{Char, code}
use text.Mathlib.Text.{◌==◌ as str_eq, starts_with}
use mathlib.Core.Path.{subst}
use clawmast.Prelude.{
  ℕ, ◌<◌, Time, String, Bool, true, false, not, ◌&&◌, ◌||◌, Option, none, some, List, [], ◌∷◌, ◌≡◌,
  ◌≢◌, ◌↔◌, ◌⊎◌, arith, leb, ◌==◌, if◌then◌else◌, is_zero_time, All, eq_iff, Bool-cases, inl, inr,
}

-- A size that is not positive is kept as 0: Validate refuses both.
pub record Artifact : Type 0 where
  pub os : String
  pub arch : String
  pub url : String
  pub size : ℕ
  pub sha256 : String

pub record Manifest : Type 0 where
  pub channel : String
  pub version : String
  pub published_at : Time
  pub notes : String
  pub artifacts : List Artifact

pub data ManifestError : Type 0 where
  channel_empty version_prefix not_published no_artifacts : ManifestError
  host_missing url_not_https size_not_positive bad_sha256 : ManifestError

unfoldable pub for_host_in : List Artifact → String → String → Option Artifact
for_host_in [] goos goarch = none
for_host_in (a ∷ rest) goos goarch =
    if str_eq a.os goos && str_eq a.arch goarch then some a else for_host_in rest goos goarch

unfoldable pub for_host : Manifest → String → String → Option Artifact
unfolding for_host_in
for_host m goos goarch = for_host_in m.artifacts goos goarch

-- The bytes that encoding/hex decodes.
abbrev pub is_hex : Char → Bool
is_hex c =
    leb 48 (code c) && leb (code c) 57
    || leb 97 (code c) && leb (code c) 102
    || leb 65 (code c) && leb (code c) 70

unfoldable pub all_hex : String → Bool
all_hex String.[] = true
all_hex (String.◌∷◌ c s) = is_hex c && all_hex s

-- hex.DecodeString succeeds on the text, whose length is 64 bytes and so even.
unfoldable pub is_digest : String → Bool
unfolding all_hex
is_digest s = all_hex s && len s == 64

unfoldable pub validate_artifact : Artifact → Option ManifestError
validate_artifact a =
    if str_eq a.os "" || str_eq a.arch ""
    then some host_missing
    else if not (starts_with a.url "https://") && not (starts_with a.url "http://127.0.0.1")
    then some url_not_https
    else if a.size == 0
    then some size_not_positive
    else if not (is_digest a.sha256)
    then some bad_sha256
    else none

unfoldable pub validate_artifacts : List Artifact → Option ManifestError
unfolding validate_artifact
validate_artifacts [] = none
validate_artifacts (a ∷ rest) =
    let later = validate_artifacts rest in
    elim (validate_artifact a) [ some e ↦ some e | none ↦ later ]

abbrev is_empty : List Artifact → Bool
is_empty [] = true
is_empty (a ∷ rest) = false

unfoldable pub validate : Manifest → Option ManifestError
unfolding validate_artifacts
validate m =
    if str_eq m.channel ""
    then some channel_empty
    else if not (starts_with m.version "v")
    then some version_prefix
    else if is_zero_time m.published_at
    then some not_published
    else if is_empty m.artifacts
    then some no_artifacts
    else validate_artifacts m.artifacts

-- What an artifact must be to be installed.
abbrev pub IsInstallable : Artifact → Type 0
IsInstallable a =
    (a.os ≢ "")
    × (a.arch ≢ "")
    × ((starts_with a.url "https://" ≡ true) ⊎ (starts_with a.url "http://127.0.0.1" ≡ true))
    × (0 < a.size)
    × (is_digest a.sha256 ≡ true)

abbrev pub IsSensible : Manifest → Type 0
IsSensible m =
    (m.channel ≢ "")
    × (starts_with m.version "v" ≡ true)
    × (m.published_at ≢ 0)
    × (m.artifacts ≢ [])
    × All IsInstallable m.artifacts

validate_artifact_iff : (a : Artifact) → (validate_artifact a ≡ none) ↔ IsInstallable a
unfolding validate_artifact
validate_artifact_iff a = ground (arith, eq_iff a.os "", eq_iff a.arch "")

validate_artifacts_iff : (l : List Artifact) → (validate_artifacts l ≡ none) ↔ All IsInstallable l
unfolding validate_artifacts
validate_artifacts_iff [] = ground arith
validate_artifacts_iff (a ∷ rest) =
    ground (arith, validate_artifact_iff a, validate_artifacts_iff rest)

-- Validate accepts exactly the manifests that name a channel, a version with a "v" and a time, and
-- at least one artifact, each with a host, an https or loopback URL, a positive size and a SHA-256 of
-- 64 hexadecimal digits.
pub validate_iff : (m : Manifest) → (validate m ≡ none) ↔ IsSensible m
unfolding validate
validate_iff m = ground (arith, eq_iff m.channel "", validate_artifacts_iff m.artifacts)

chosen_in :
    (l : List Artifact) (goos goarch : String) (a : Artifact)
    → All IsInstallable l
    → for_host_in l goos goarch ≡ some a
    → (a.os ≡ goos) × (a.arch ≡ goarch) × IsInstallable a
unfolding for_host_in
chosen_in [] goos goarch a good found = ground arith
chosen_in (x ∷ rest) goos goarch a good found =
    elim (Bool-cases (str_eq x.os goos && str_eq x.arch goarch)) [
      | inl here ↦
          let same : x ≡ a = ground (arith, here, found) in
          let fits : (x.os ≡ goos) × (x.arch ≡ goarch) =
            ground (arith, here, eq_iff x.os goos, eq_iff x.arch goarch) in
          subst (λ b. (b.os ≡ goos) × (b.arch ≡ goarch) × IsInstallable b) same
            (fits.0, fits.1, good.0)
      | inr later ↦ chosen_in rest goos goarch a good.1 (ground (arith, later))
    ]

-- The artifact that is chosen from an accepted manifest is one for the host that is asked for, and
-- it can be installed.
pub chosen-IsInstallable :
    (m : Manifest) (goos goarch : String) (a : Artifact)
    → validate m ≡ none
    → for_host m goos goarch ≡ some a
    → (a.os ≡ goos) × (a.arch ≡ goarch) × IsInstallable a
unfolding for_host
chosen-IsInstallable m goos goarch a valid found =
    chosen_in m.artifacts goos goarch a ((validate_iff m).0 valid).4 found
