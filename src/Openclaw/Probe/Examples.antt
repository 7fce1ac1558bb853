-- ===== src/Openclaw/Probe/Examples.antt =====
-- Polls of the gateway on concrete answers (internal/openclaw).
use clawmast.Prelude.{
  ℕ, ◌+◌, ◌*◌, second, Time, true, false, List, [], ◌∷◌, ◌≡◌, ◌≢◌, ◌↔◌, refl, arith, eq_iff,
  if◌then◌else◌,
}
use clawmast.Openclaw.Poller.{Manager}
use clawmast.Openclaw.Poller.Healing.{IsSpaced}
use clawmast.Openclaw.Gateway.{
  GatewayAddress, StatusEnvelope, CliResult, CliRun, binary_missing, cli_ran, Decoded, decoded,
  seed, resolve_gateway_address,
}
use clawmast.Openclaw.Probe.{
  HealthPayload, HttpAnswer, response, probe_fast, enrichment_interval, probe, PollScript, poll,
}
use clawmast.Openclaw.Probe.Verdict.{IsUp, probe_verdict}
use clawmast.Openclaw.Probe.Enrichment.{enrichments, Enriches, enrichments-IsSpaced}
use clawmast.Openclaw.Probe.Uptime.{flap_resets_uptime}
use clawmast.Openclaw.Examples.{seen, idle}

abbrev payload : HealthPayload
payload = record {
  ok = true;
  ts = 1;
  duration_ms = 2;
  default_agent_id = "main";
  heartbeat_seconds = 30;
  sessions_count = 1;
  channels = 2;
}

abbrev decode : List ℕ → Decoded HealthPayload
decode bytes = decoded payload

abbrev done : List ℕ → CliResult
done bytes = record { exit_code = 0; duration_ms = 900; stdout = bytes; stderr_tail = "" }

abbrev up : HttpAnswer
up = response 4 200 (decoded true)

probe_verdict_example :
    let next = (probe decode seed up binary_missing 50 (seen false 40)).0 in
    ((next.alive ≡ true) ↔ IsUp up)
    × (next.probe_error ≡ (probe_fast up).error)
    × (next.last_probe_ms ≡ (probe_fast up).duration_ms)
    × (next.last_alive_at ≡ (if next.alive then 50 else 0))
probe_verdict_example = probe_verdict decode seed up binary_missing 50 (seen false 40)

abbrev poll_at : Time → GatewayAddress → HttpAnswer → CliRun → PollScript
poll_at now address http cli = record {
  started = now;
  stored = now + 1;
  address = address;
  binary_path = "/usr/local/bin/openclaw";
  binary_source = "brew";
  http = http;
  cli = cli;
}

abbrev enriched : Manager
enriched = record idle { snap = record (seen true 10) { last_enriched_at = 10 } }

abbrev good_polls : List PollScript
good_polls =
    poll_at (12 * second) seed up (cli_ran (done []))
    ∷ poll_at (31 * second) seed up (cli_ran (done []))
    ∷ []

enriches : Enriches decode (cli_ran (done []))
enriches = (refl, (payload, refl, refl))

is_up : IsUp up
is_up = (ground arith, ground arith, refl)

enrichments-IsSpaced_example :
    IsSpaced enrichment_interval (10 + enrichment_interval) (enrichments decode good_polls enriched)
enrichments-IsSpaced_example =
    enrichments-IsSpaced decode good_polls enriched ((is_up, enriches), ((is_up, enriches), tt))
      refl (ground arith)

abbrev restarting : StatusEnvelope
restarting = record {
  bind_host = "127.0.0.1";
  port = 18_789;
  port_source = "config";
  status = "restarting";
  pid = 0;
}

abbrev running : StatusEnvelope
running = record {
  bind_host = "127.0.0.1";
  port = 18_789;
  port_source = "config";
  status = "running";
  pid = 77;
}

-- An answer without bytes says that the gateway restarts, and another one that it runs.
abbrev decode_status : List ℕ → Decoded StatusEnvelope
decode_status [] = decoded restarting
decode_status (b ∷ bs) = decoded running

abbrev first_address : GatewayAddress
first_address = (resolve_gateway_address decode_status (cli_ran (done [])) 60 seed).0

abbrev second_address : GatewayAddress
second_address =
    (resolve_gateway_address decode_status (cli_ran (done (1 ∷ []))) 70 first_address).0

abbrev first_poll : PollScript
first_poll = poll_at 61 first_address up binary_missing

abbrev second_poll : PollScript
second_poll = poll_at 71 second_address up binary_missing

not_running : restarting.status ≢ "running"
not_running = ground (arith, eq_iff "restarting" "running")

flap_resets_uptime_example :
    let m1 = (poll decode first_poll idle).0 in
    let m2 = (poll decode second_poll m1).0 in
    (m1.snap.gateway_pid ≡ 0)
    × (m1.snap.gateway_pid_since ≡ 0)
    × (m2.snap.gateway_pid ≡ 77)
    × (m2.snap.gateway_pid_since ≡ 72)
flap_resets_uptime_example =
    flap_resets_uptime decode decode_status (done []) (done (1 ∷ [])) restarting running 60 70 seed
      first_poll second_poll idle (ground arith) (refl, refl, ground arith) not_running
      (refl, refl, ground arith) (refl, refl) refl refl
