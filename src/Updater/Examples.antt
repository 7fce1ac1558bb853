-- ===== src/Updater/Examples.antt =====
-- A manifest, fetched and checked (internal/updater).
use text.Mathlib.Text.{◌==◌ as str_eq}
use clawmast.Prelude.{
  ◌==◌, ◌&&◌, if◌then◌else◌, ℕ, ◌≤◌, String, Bool, true, false, Option, none, some, List, [], ◌∷◌,
  ◌≡◌, ◌↔◌, refl, length,
}
use clawmast.Updater.Manifest.{Artifact, Manifest, validate, is_digest, IsSensible}
use clawmast.Updater.Client.{
  Client, ok, Response, response, urls, fetch, check, check_urls, check_fetched, check_signed,
  check_parsed, check_sensible, received, read_body, limit_body, max_manifest_bytes,
}
use clawmast.Updater.Client.Soundness.{check_iff}

abbrev linux : Artifact
linux = record {
  os = "linux";
  arch = "amd64";
  url = "https://example.org/clawmast.tar.gz";
  size = 1000;
  sha256 = "0123456789abcdef0123456789abcdef0123456789abcdef0123456789ABCDEF";
}

abbrev release : Manifest
release = record {
  channel = "stable";
  version = "v0.2.0";
  published_at = 5;
  notes = "";
  artifacts = linux ∷ [];
}

accepted : validate release ≡ none
unfolding validate is_digest
accepted = refl

-- The document is the byte 1 and its signature the byte 2.
abbrev served : String → Response
served url = elim (str_eq url "https://example.org/stable/manifest.json") [
  | true ↦ response 200 (some (1 ∷ []))
  | false ↦ response 200 (some (2 ∷ []))
]

abbrev decode : List ℕ → Option Manifest
decode [] = none
decode (b ∷ rest) = if b == 1 then some release else none

abbrev scheme : String → Option String
scheme url = some "https"

abbrev client : Client ℕ
client = record { base_url = "https://example.org/"; channel = "stable"; pub_key = 7 }

abbrev signed : ℕ → List ℕ → List ℕ → Bool
signed key (a ∷ _) (b ∷ _) = a == 1 && b == 2
signed key _ _ = false

check_iff_example : (check decode signed scheme served client ≡ ok release) ↔ (
    (manifest_url sig_url : String) × (manifest sig : List ℕ) × (urls scheme client
      ≡ ok (manifest_url, sig_url))
    × (fetch served manifest_url true ≡ ok manifest)
    × (fetch served sig_url false ≡ ok sig)
    × (signed 7 manifest sig ≡ true)
    × (decode manifest ≡ some release)
    × IsSensible release
    × ◌≡◌ {A = String} "stable" "stable"
    × (length manifest ≤ max_manifest_bytes))
check_iff_example = check_iff decode signed scheme served client release

found : check decode signed scheme served client ≡ ok release
unfolding check check_urls check_fetched check_signed check_parsed check_sensible urls fetch
    received read_body limit_body validate is_digest
found = refl
