-- ===== src/Updater/Client.antt =====
-- internal/updater/client.go: fetching and verifying a manifest. The HTTP client, url.Parse, the JSON
-- decoder and minisign.Verify are parameters; a body is the list of its bytes.
pub mod Soundness
use Prim.Native.String
use Prim.Native.String.{◌++◌ as str_append}
use Prim.Native.Char.{Char, code}
use text.Mathlib.Text.{◌==◌ as str_eq}
use clawmast.Prelude.{
  ℕ, suc, ◌+◌, ◌*◌, ◌≤◌, String, Bool, true, false, not, ◌&&◌, ◌||◌, Option, none, some, List, ◌≡◌,
  ◌≢◌, refl, arith, ltb, ◌==◌, if◌then◌else◌, length, take, eq_iff,
}
use clawmast.Updater.Manifest.{Manifest, ManifestError, validate, IsSensible, validate_iff}

abbrev pub default_channel : String
default_channel = "stable"

abbrev pub max_manifest_bytes : ℕ
max_manifest_bytes = 256 * 1024

pub record Client (Key : Type 0) : Type 0 where
  pub base_url : String
  pub channel : String
  pub pub_key : Key

pub data CheckError : Type 0 where
  bad_url manifest_missing manifest_too_big bad_signature not_json channel_mismatch : CheckError
  transport_failed read_failed : CheckError
  unexpected_status : ℕ → CheckError
  invalid : ManifestError → CheckError

pub data Checked {ℓ} (A : Type ℓ) : Type ℓ where
  ok : A → Checked A
  err : CheckError → Checked A

-- What a GET leads to: no response, or a status and a body, of which the reading may fail.
pub data Response : Type 0 where
  no_response : Response
  response : ℕ → Option (List ℕ) → Response

-- New: an empty channel is the default one.
unfoldable pub new : {Key : Type 0} → String → String → Key → Client Key
new base_url channel key = record {
  base_url = base_url;
  channel = if str_eq channel "" then default_channel else channel;
  pub_key = key;
}

-- strings.TrimRight(s, "/")
unfoldable pub trim_slashes : String → String
trim_slashes String.[] = ""
trim_slashes (String.◌∷◌ c s) =
    let rest = trim_slashes s in if code c == 47 && str_eq rest "" then "" else String.◌∷◌ c rest

-- io.ReadAll of a reader that stops one byte past the limit, and the test of the length.
unfoldable pub limit_body : ℕ → List ℕ → Checked (List ℕ)
limit_body limit body =
    let kept = take (limit + 1) body in
    if ltb limit (length kept) then err manifest_too_big else ok kept

unfoldable pub read_body : Option (List ℕ) → Checked (List ℕ)
read_body none = err read_failed
read_body (some body) = limit_body max_manifest_bytes body

-- The end of fetch. The flag is allowMissing.
unfoldable pub received : Bool → Response → Checked (List ℕ)
received allow_missing no_response = err transport_failed
received allow_missing (response status body) =
    if status == 404 && allow_missing
    then err manifest_missing
    else if not (status == 200)
    then err (unexpected_status status)
    else read_body body

-- fetch of client.go; `get` is the HTTP client.
unfoldable pub fetch : (String → Response) → String → Bool → Checked (List ℕ)
unfolding received
fetch get url allow_missing = received allow_missing (get url)

abbrev pub is_http : Option String → Bool
is_http none = false
is_http (some scheme) = str_eq scheme "https" || str_eq scheme "http"

unfoldable pub channel_base : {Key : Type 0} → Client Key → String
unfolding trim_slashes
channel_base c =
    str_append (str_append (trim_slashes c.base_url) "/")
      (if str_eq c.channel "" then default_channel else c.channel)

-- urls of client.go; `scheme_of` is the scheme that url.Parse finds, if it parses.
unfoldable pub urls :
    {Key : Type 0} → (String → Option String) → Client Key → Checked (String × String)
unfolding channel_base
urls scheme_of c =
    if str_eq c.base_url ""
    then err bad_url
    else if not (is_http (scheme_of c.base_url))
    then err bad_url
    else ok (
      str_append (channel_base c) "/manifest.json",
      str_append (channel_base c) "/manifest.json.minisig",
    )

module _ {Key : Type 0} (unmarshal : List ℕ → Option Manifest)
    (verify : Key → List ℕ → List ℕ → Bool) where
  unfoldable pub check_sensible : Client Key → Manifest → Option ManifestError → Checked Manifest
  check_sensible c m (some e) = err (invalid e)
  check_sensible c m none = if str_eq m.channel c.channel then ok m else err channel_mismatch

  unfoldable pub check_parsed : Client Key → Option Manifest → Checked Manifest
  unfolding check_sensible
  check_parsed c none = err not_json
  check_parsed c (some m) = check_sensible c m (validate m)

  unfoldable pub check_signed : Client Key → List ℕ → Checked (List ℕ) → Checked Manifest
  unfolding check_parsed
  check_signed c manifest (err e) = err e
  check_signed c manifest (ok sig) =
      if not (verify c.pub_key manifest sig)
      then err bad_signature
      else check_parsed c (unmarshal manifest)

  unfoldable pub check_fetched :
      (String → Response) → Client Key → String → Checked (List ℕ) → Checked Manifest
  unfolding check_signed
  check_fetched get c sig_url (err e) = err e
  check_fetched get c sig_url (ok manifest) = check_signed c manifest (fetch get sig_url false)

  unfoldable pub check_urls :
      (String → Response) → Client Key → Checked (String × String) → Checked Manifest
  unfolding check_fetched
  check_urls get c (err e) = err e
  check_urls get c (ok (manifest_url, sig_url)) =
      check_fetched get c sig_url (fetch get manifest_url true)

  -- Check of client.go.
  unfoldable pub check :
      (String → Option String) → (String → Response) → Client Key → Checked Manifest
  unfolding check_urls
  check scheme_of get c = check_urls get c (urls scheme_of c)
