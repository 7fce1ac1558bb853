-- ===== src/Openclaw/Probe.antt =====
-- internal/openclaw/status.go, and the first part of ProbeNow in poller.go: one probe of the gateway. The
-- answer of its HTTP endpoint and the runs of the CLI are arguments; JSON decoders are parameters.
pub mod Verdict
pub mod Enrichment
pub mod Uptime
mod Examples
use clawmast.Prelude.{
  ℕ, ◌+◌, ◌*◌, Time, Duration, second, String, Bool, true, false, not, ◌&&◌, ◌||◌, Option, none,
  some, List, ltb, leb, ◌==◌, if◌then◌else◌, is_zero_time, since_ge,
}
use Prim.Native.String.{◌++◌ as str_append}
use clawmast.Openclaw.Phase.{Snapshot, ProbeError, no_error, message, http_status, exit_status}
use clawmast.Openclaw.Gateway.{
  GatewayAddress, CliResult, CliRun, binary_missing, cli_failed, cli_ran, Decoded, undecodable,
  decoded,
}
use clawmast.Openclaw.Poller.{Manager, probe_now}

abbrev pub enrichment_interval : Duration
enrichment_interval = 30 * second

-- healthPayload, with the number of its channels.
pub record HealthPayload : Type 0 where
  pub ok : Bool
  pub ts : ℕ
  pub duration_ms : ℕ
  pub default_agent_id : String
  pub heartbeat_seconds : ℕ
  pub sessions_count : ℕ
  pub channels : ℕ

-- The GET of /health: a request that cannot be built, no response after some milliseconds, or a
-- response with its status and the ok field of its body.
pub data HttpAnswer : Type 0 where
  bad_request : String → HttpAnswer
  no_response : ℕ → String → HttpAnswer
  response : ℕ → ℕ → Decoded Bool → HttpAnswer

pub record FastResult : Type 0 where
  pub ok : Bool
  pub duration_ms : ℕ
  pub error : ProbeError

unfoldable pub read_health : ℕ → Decoded Bool → FastResult
read_health ms (undecodable e) = record {
  ok = false;
  duration_ms = ms;
  error = message (str_append "parse /health: " e);
}
read_health ms (decoded false) = record {
  ok = false;
  duration_ms = ms;
  error = message "gateway /health reports ok=false";
}
read_health ms (decoded true) = record { ok = true; duration_ms = ms; error = no_error }

-- probeFast, for production: probeFastDisabled is false.
unfoldable pub probe_fast : HttpAnswer → FastResult
probe_fast (bad_request e) = record { ok = false; duration_ms = 0; error = message e }
probe_fast (no_response ms e) = record { ok = false; duration_ms = ms; error = message e }
probe_fast (response ms status body) =
    if ltb status 200 || leb 300 status
    then record { ok = false; duration_ms = ms; error = http_status status }
    else read_health ms body

-- The instant that is stored was formatted by the code, so that parsing it does not fail.
unfoldable pub needs_enrichment : Snapshot → Bool → Time → Bool
needs_enrichment prev now_alive now =
    if is_zero_time prev.last_enriched_at
    then true
    else if now_alive && not prev.alive
    then true
    else if not now_alive
    then false
    else since_ge now prev.last_enriched_at enrichment_interval

pub data CliRole : Type 0 where
  cli_enrich_only cli_authoritative : CliRole

abbrev pub is_authoritative : CliRole → Bool
is_authoritative cli_enrich_only = false
is_authoritative cli_authoritative = true

-- A failure, which only the authoritative role shows.
unfoldable pub verdict_down : CliRole → ProbeError → Snapshot → Snapshot
verdict_down role e s =
    if is_authoritative role then record s { alive = false; probe_error = e } else s

unfoldable pub verdict_up : CliRole → Time → Snapshot → Snapshot
verdict_up role now s =
    if is_authoritative role
    then record s { alive = true; probe_error = no_error; last_alive_at = now }
    else s

-- The CLI was found; its duration counts in the authoritative role.
unfoldable pub cli_there : CliRole → Option CliResult → Snapshot → Snapshot
cli_there role none s = record s { cli_missing = false }
cli_there role (some r) s = record s {
  cli_missing = false;
  last_probe_ms = if is_authoritative role then r.duration_ms else s.last_probe_ms;
}

unfoldable pub merge_payload : CliRole → Time → Decoded HealthPayload → Snapshot → Snapshot
merge_payload role now (undecodable e) s =
    verdict_down role (message (str_append "parse health json: " e)) s
merge_payload role now (decoded p) s =
    if not p.ok
    then verdict_down role (message "gateway reports ok=false") s
    else let up = verdict_up role now s in
      record up {
        health_ts = p.ts;
        health_duration_ms = p.duration_ms;
        default_agent_id = p.default_agent_id;
        heartbeat_seconds = p.heartbeat_seconds;
        sessions_count = p.sessions_count;
        channel_count = p.channels;
        last_enriched_at = now;
      }

-- probeEnrichCLI
unfoldable pub probe_enrich_cli :
    (List ℕ → Decoded HealthPayload) → CliRun → CliRole → Time → Snapshot → Snapshot
probe_enrich_cli decode binary_missing role now s =
    if is_authoritative role
    then record s {
      cli_missing = true;
      alive = false;
      probe_error = message "openclaw binary not found on PATH";
      last_probe_ms = 0;
    }
    else record s { cli_missing = true }
probe_enrich_cli decode (cli_failed r e) role now s =
    verdict_down role (message e) (cli_there role r s)
probe_enrich_cli decode (cli_ran r) role now s =
    let there = cli_there role (some r) s in
    if not (r.exit_code == 0)
    then verdict_down role (exit_status r.exit_code r.stderr_tail) there
    else merge_payload role now (decode r.stdout) there

-- The part of probe before the endpoint is asked.
unfoldable pub with_address : GatewayAddress → Time → Snapshot → Snapshot
with_address addr now prev = record prev {
  probed = true;
  last_probe_at = now;
  gateway_host = addr.host;
  gateway_port = addr.port;
  gateway_port_source = addr.source;
  gateway_addr_resolved = addr.resolved_at;
  gateway_pid = addr.pid;
}

unfoldable pub with_fast : FastResult → Time → Snapshot → Snapshot
with_fast fast now s =
    if fast.ok
    then record s {
      alive = true;
      probe_error = no_error;
      last_probe_ms = fast.duration_ms;
      last_alive_at = now;
    }
    else record s { alive = false; probe_error = fast.error; last_probe_ms = fast.duration_ms }

-- probe; the Boolean says that it ran the CLI.
unfoldable pub probe :
    (List ℕ → Decoded HealthPayload)
    → GatewayAddress
    → HttpAnswer
    → CliRun
    → Time
    → Snapshot
    → Snapshot × Bool
probe decode addr http cli now prev =
    let next = with_fast (probe_fast http) now (with_address addr now prev) in
    if needs_enrichment prev next.alive now
    then (probe_enrich_cli decode cli cli_enrich_only now next, true)
    else (next, false)

-- What the environment does during one poll: the clock when the probe starts and when its result is
-- stored, the address in the cache, the binary that was found, and the answers.
pub record PollScript : Type 0 where
  pub started : Time
  pub stored : Time
  pub address : GatewayAddress
  pub binary_path : String
  pub binary_source : String
  pub http : HttpAnswer
  pub cli : CliRun

-- All of ProbeNow: the manager, whether the CLI ran, and whether autoheal is started.
unfoldable pub poll :
    (List ℕ → Decoded HealthPayload) → PollScript → Manager → Manager × Bool × Bool
poll decode sc m =
    let (next, ran) = probe decode sc.address sc.http sc.cli sc.started m.snap in
    let found = record next { binary_path = sc.binary_path; binary_source = sc.binary_source } in
    let (m', fire) = probe_now found sc.stored m in (m', ran, fire)
