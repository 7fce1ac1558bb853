-- ===== src/Openclaw/Gateway.antt =====
-- internal/openclaw/gateway_addr.go: the cached address of the gateway, and its resolution by the CLI. The
-- JSON decoder and what the CLI does are arguments.
use text.Mathlib.Text.{◌==◌ as str_eq}
use clawmast.Prelude.{ℕ, Time, String, not, Option, none, some, List, ◌==◌, if◌then◌else◌}

abbrev pub default_gateway_host : String
default_gateway_host = "127.0.0.1"

abbrev pub default_gateway_port : ℕ
default_gateway_port = 18_789

-- A port or a PID that is not positive is kept as 0.
pub record GatewayAddress : Type 0 where
  pub host : String
  pub port : ℕ
  pub source : String
  pub pid : ℕ
  pub resolved_at : Time

-- The address that init stores.
abbrev pub seed : GatewayAddress
seed = record {
  host = default_gateway_host;
  port = default_gateway_port;
  source = "default";
  pid = 0;
  resolved_at = 0;
}

-- The host and the port in the URL of HTTPHealthURL.
unfoldable pub health_target : GatewayAddress → String × ℕ
health_target g = (
  if str_eq g.host "" then default_gateway_host else g.host,
  if g.port == 0 then default_gateway_port else g.port,
)

-- gatewayStatusEnvelope; `status` and `pid` are those of service.runtime.
pub record StatusEnvelope : Type 0 where
  pub bind_host : String
  pub port : ℕ
  pub port_source : String
  pub status : String
  pub pid : ℕ

-- A finished command, its error output as trimErr leaves it.
pub record CliResult : Type 0 where
  pub exit_code : ℕ
  pub duration_ms : ℕ
  pub stdout : List ℕ
  pub stderr_tail : String

-- What runCmd leads to: no CLI, an error with or without a result, or a result.
pub data CliRun : Type 0 where
  binary_missing : CliRun
  cli_failed : Option CliResult → String → CliRun
  cli_ran : CliResult → CliRun

-- What json.Unmarshal leads to.
pub data Decoded {ℓ} (A : Type ℓ) : Type ℓ where
  undecodable : String → Decoded A
  decoded : A → Decoded A

pub data ResolveError : Type 0 where
  not_run not_decoded no_port : ResolveError
  bad_exit : ℕ → ResolveError

unfoldable pub address_of : StatusEnvelope → Time → GatewayAddress
address_of env now = record {
  host = if str_eq env.bind_host "" then default_gateway_host else env.bind_host;
  port = env.port;
  source = if str_eq env.port_source "" then "service args" else env.port_source;
  pid = if str_eq env.status "running" then env.pid else 0;
  resolved_at = now;
}

unfoldable pub resolve_decoded :
    Time → GatewayAddress → Decoded StatusEnvelope → GatewayAddress × Option ResolveError
resolve_decoded now cached (undecodable e) = (cached, some not_decoded)
resolve_decoded now cached (decoded env) =
    if env.port == 0 then (cached, some no_port) else (address_of env now, none)

-- ResolveGatewayAddress: the new cache, and the error if there is one.
unfoldable pub resolve_gateway_address :
    (List ℕ → Decoded StatusEnvelope)
    → CliRun
    → Time
    → GatewayAddress
    → GatewayAddress × Option ResolveError
resolve_gateway_address decode binary_missing now cached = (cached, some not_run)
resolve_gateway_address decode (cli_failed r e) now cached = (cached, some not_run)
resolve_gateway_address decode (cli_ran r) now cached =
    if not (r.exit_code == 0)
    then (cached, some (bad_exit r.exit_code))
    else resolve_decoded now cached (decode r.stdout)

-- resolveOnce, of the runner's binary: the new cache.
unfoldable pub resolve_once :
    (List ℕ → Decoded StatusEnvelope) → String → CliRun → Time → GatewayAddress → GatewayAddress
resolve_once decode binary run now cached =
    if str_eq binary "" then cached else (resolve_gateway_address decode run now cached).0
