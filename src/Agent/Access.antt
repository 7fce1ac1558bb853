-- ===== src/Agent/Access.antt =====
-- internal/agent/auth.go and publicHandler of server.go: the bearer token, and which requests it guards.
-- package net's readers of addresses are parameters.
pub mod Admission
pub mod Persistence
use Prim.Native.String
use Prim.Native.String.{◌++◌ as str_append}
use Prim.Native.Char.{Char, code}
use clawmast.Prelude.{
  ℕ, zero, suc, ◌+◌, ◌-◌, ◌/◌, ◌%◌, String, Bool, true, false, not, ◌&&◌, ◌||◌, Option, none, some,
  List, [], ◌∷◌, if◌then◌else◌, str_eq, starts_with, ltb,
}
use clawmast.Strings.{letter_at, trim_space, cut_prefix}
use clawmast.Agent.Server.{Config}

abbrev pub token_len : ℕ
token_len = 32

-- `stored` says that Path is not empty; it is then the file `token` of the state directory.
pub record Token : Type 0 where
  pub value : String
  pub stored : Bool
  pub generated : Bool

-- What the middleware reads of a request.
pub record Request : Type 0 where
  pub path : String
  pub remote_addr : String
  pub authorization : String

pub data Access : Type 0 where
  served missing_token rejected_token : Access

-- net.SplitHostPort, with none for an error, and net.ParseIP, with none for a text that is no address
-- and else with what IsLoopback says.
pub record Net : Type 0 where
  pub split_host_port : String → Option String
  pub parse_ip : String → Option Bool

unfoldable pub host_of : Option String → String → String
host_of none addr = addr
host_of (some host) addr = host

unfoldable pub loopback_ip : Option Bool → Bool
loopback_ip none = false
loopback_ip (some b) = b

unfoldable pub is_loopback : Net → Request → Bool
unfolding host_of loopback_ip
is_loopback net r =
    loopback_ip (net.parse_ip (host_of (net.split_host_port r.remote_addr) r.remote_addr))

unfoldable pub check_token : String → Option String → Access
check_token want none = missing_token
check_token want (some got) = if str_eq got want then served else rejected_token

-- bearerMiddleware; `public_path` is the map of the public paths.
unfoldable pub bearer_middleware : Net → Token → (String → Bool) → Request → Access
unfolding check_token
bearer_middleware net tok public_path r =
    if public_path r.path || is_loopback net r
    then served
    else if not (starts_with r.path "/api/")
    then served
    else check_token tok.value (cut_prefix r.authorization "Bearer ")

abbrev pub is_public : String → Bool
is_public path = str_eq path "/api/health"

-- publicHandler: whether a request reaches the mux.
unfoldable pub public_handler : Net → Token → Request → Access
public_handler net tok r =
    if str_eq tok.value "" then served else bearer_middleware net tok is_public r

-- The file of the token; `debris` is what a failed write leaves of it.
pub record TokenFaults : Type 0 where
  pub read : Bool
  pub rand : Bool
  pub mkdir : Bool
  pub write : Bool
  pub debris : Option String

pub data TokenError : Type 0 where
  read_failed rand_failed mkdir_failed write_failed : TokenError

pub data TokenResult : Type 0 where
  ok : Token → TokenResult
  err : TokenError → TokenResult

unfoldable pub hex_digit : ℕ → Char
hex_digit n = letter_at n "0123456789abcdef" "0"

-- hex.EncodeToString, of bytes
unfoldable pub hex_encode : List ℕ → String
hex_encode [] = ""
hex_encode (b ∷ bs) =
    String.◌∷◌ (hex_digit (b / 16)) (String.◌∷◌ (hex_digit (b % 16)) (hex_encode bs))

-- The generation of a token from the random bytes, and its being written if there is a directory.
unfoldable pub generate : Bool → TokenFaults → List ℕ → Option String → Option String × TokenResult
generate no_dir f bytes file =
    let val = hex_encode bytes in
    if f.rand
    then (file, err rand_failed)
    else if no_dir
    then (file, ok (record { value = val; stored = false; generated = true }))
    else if f.mkdir
    then (file, err mkdir_failed)
    else if f.write
    then (f.debris, err write_failed)
    else (some (str_append val "\n"), ok (record { value = val; stored = true; generated = true }))

-- The token that a file holds, or else a new one.
unfoldable pub load_file : TokenFaults → List ℕ → Option String → Option String × TokenResult
load_file f bytes none = generate false f bytes none
load_file f bytes (some raw) =
    let s = trim_space raw in
    if f.read
    then (some raw, err read_failed)
    else if not (str_eq s "")
    then (some raw, ok (record { value = s; stored = true; generated = false }))
    else generate false f bytes (some raw)

-- LoadOrCreateToken, of CLAWMAST_BEARER_TOKEN, whether stateDir is empty, and the contents of the file.
unfoldable pub load_or_create_token :
    String → Bool → TokenFaults → List ℕ → Option String → Option String × TokenResult
load_or_create_token env no_dir f bytes file =
    let v = trim_space env in
    if not (str_eq v "")
    then (file, ok (record { value = v; stored = false; generated = false }))
    else if no_dir
    then generate no_dir f bytes file
    else load_file f bytes file
