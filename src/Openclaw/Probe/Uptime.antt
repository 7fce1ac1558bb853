-- ===== src/Openclaw/Probe/Uptime.antt =====
-- Since when the gateway's process runs, as internal/openclaw/poller.go and gateway_addr.go keep it.
use clawmast.Prelude.{
  ℕ, Time, List, none, some, ◌==◌, ◌≡◌, ◌≢◌, refl, ap, ◌∙◌, arith, str_eq, eq_iff, Bool-cases, inl,
  inr, if◌then◌else◌,
}
use clawmast.Openclaw.Phase.{Snapshot}
use clawmast.Openclaw.Poller.{Manager, carry_over, with_phase, fired, update_snapshot, probe_now}
use clawmast.Openclaw.Gateway.{
  GatewayAddress, StatusEnvelope, CliResult, CliRun, cli_ran, Decoded, decoded, address_of,
  resolve_decoded, resolve_gateway_address, binary_missing, cli_failed,
}
use clawmast.Openclaw.Probe.{
  HealthPayload, FastResult, probe_fast, needs_enrichment, verdict_down, verdict_up, cli_there,
  merge_payload, probe_enrich_cli, cli_enrich_only, with_address, with_fast, probe, PollScript,
  poll,
}

since : ℕ → ℕ → Time → Time → Time
since new old now kept = if new == 0 then kept else if new == old then kept else now

one_pid :
    (next : Snapshot) (now : Time) (m : Manager)
    → let s = (probe_now next now m).0.snap in
      (s.gateway_pid ≡ next.gateway_pid)
      × (s.gateway_pid_since
          ≡ since next.gateway_pid m.snap.gateway_pid now m.snap.gateway_pid_since)
unfolding since probe_now update_snapshot carry_over with_phase fired
one_pid next now m = ground arith

enrich_pid :
    (decode : List ℕ → Decoded HealthPayload) (cli : CliRun) (now : Time) (s : Snapshot)
    → (probe_enrich_cli decode cli cli_enrich_only now s).gateway_pid ≡ s.gateway_pid
unfolding probe_enrich_cli merge_payload cli_there verdict_down verdict_up
enrich_pid decode binary_missing now s = refl
enrich_pid decode (cli_failed none e) now s = refl
enrich_pid decode (cli_failed (some r) e) now s = refl
enrich_pid decode (cli_ran r) now s = ground arith

fast_pid :
    (fast : FastResult) (addr : GatewayAddress) (now : Time) (prev : Snapshot)
    → (with_fast fast now (with_address addr now prev)).gateway_pid ≡ addr.pid
unfolding with_fast with_address
fast_pid fast addr now prev = ground arith

probe_pid :
    (decode : List ℕ → Decoded HealthPayload) (sc : PollScript) (prev : Snapshot)
    → (probe decode sc.address sc.http sc.cli sc.started prev).0.gateway_pid ≡ sc.address.pid
unfolding probe
probe_pid decode sc prev =
    let s = with_fast (probe_fast sc.http) sc.started (with_address sc.address sc.started prev) in
    let e = fast_pid (probe_fast sc.http) sc.address sc.started prev in
    elim (Bool-cases (needs_enrichment prev s.alive sc.started)) [
      | inl needed ↦ rw needed (enrich_pid decode sc.cli sc.started s ∙ e)
      | inr fresh ↦ rw fresh e
    ]

-- After a poll the snapshot's process is that of the address in the cache.
poll_pid :
    (decode : List ℕ → Decoded HealthPayload) (sc : PollScript) (m : Manager)
    → let s = (poll decode sc m).0.snap in
      (s.gateway_pid ≡ sc.address.pid)
      × (s.gateway_pid_since
          ≡ since sc.address.pid m.snap.gateway_pid sc.stored m.snap.gateway_pid_since)
unfolding poll
poll_pid decode sc m =
    let found = record (probe decode sc.address sc.http sc.cli sc.started m.snap).0 {
      binary_path = sc.binary_path;
      binary_source = sc.binary_source;
    } in
    let (pid, kept) = one_pid found sc.stored m in
    let e = probe_pid decode sc m.snap in
    (pid ∙ e, kept ∙ ap (λ p. since p m.snap.gateway_pid sc.stored m.snap.gateway_pid_since) e)

-- The pid in the cache once the CLI has answered.
resolved_pid :
    (decode : List ℕ → Decoded StatusEnvelope) (r : CliResult) (env : StatusEnvelope) (now : Time)
    (cached : GatewayAddress)
    → r.exit_code ≡ 0
    → decode r.stdout ≡ decoded env
    → env.port ≢ 0
    → (resolve_gateway_address decode (cli_ran r) now cached).0.pid
      ≡ (if str_eq env.status "running" then env.pid else 0)
unfolding resolve_gateway_address resolve_decoded address_of
resolved_pid decode r env now cached zero_exit found port =
    rw found (ground (arith, zero_exit, port))

kept_then_set : (p old t1 t2 t0 : ℕ) → p ≢ 0 → (since 0 p t1 t0 ≡ t0) × (since p 0 t2 old ≡ t2)
unfolding since
kept_then_set p old t1 t2 t0 h = ground (arith, h)

-- Let the snapshot show a running process; let the CLI report another status than running, and then
-- the same process as running again, each with a port; and let a poll follow each of the two answers.
-- The first poll shows no process and keeps the instant since when it runs, and the second shows the
-- process and overwrites that instant with its own: the uptime starts again.
pub flap_resets_uptime :
    (decode : List ℕ → Decoded HealthPayload) (decode_status : List ℕ → Decoded StatusEnvelope)
    (r1 r2 : CliResult) (env1 env2 : StatusEnvelope) (now1 now2 : Time) (cached : GatewayAddress)
    (sc1 sc2 : PollScript) (m : Manager)
    → m.snap.gateway_pid ≢ 0
    → (r1.exit_code ≡ 0) × (decode_status r1.stdout ≡ decoded env1) × (env1.port ≢ 0)
    → env1.status ≢ "running"
    → (r2.exit_code ≡ 0) × (decode_status r2.stdout ≡ decoded env2) × (env2.port ≢ 0)
    → (env2.status ≡ "running") × (env2.pid ≡ m.snap.gateway_pid)
    → sc1.address ≡ (resolve_gateway_address decode_status (cli_ran r1) now1 cached).0
    → sc2.address ≡ (resolve_gateway_address decode_status (cli_ran r2) now2 sc1.address).0
    → let m1 = (poll decode sc1 m).0 in
      let m2 = (poll decode sc2 m1).0 in
      (m1.snap.gateway_pid ≡ 0)
      × (m1.snap.gateway_pid_since ≡ m.snap.gateway_pid_since)
      × (m2.snap.gateway_pid ≡ m.snap.gateway_pid)
      × (m2.snap.gateway_pid_since ≡ sc2.stored)
flap_resets_uptime decode decode_status r1 r2 env1 env2 now1 now2 cached sc1 sc2 m running
      (exit1, found1, port1) stopped (exit2, found2, port2) (again, same) at1 at2 =
    let m1 = (poll decode sc1 m).0 in
    let pid1 : sc1.address.pid ≡ 0 = ground (
      arith,
      at1,
      stopped,
      eq_iff env1.status "running",
      resolved_pid decode_status r1 env1 now1 cached exit1 found1 port1,
    ) in
    let pid2 : sc2.address.pid ≡ m.snap.gateway_pid = ground (
      arith,
      at2,
      again,
      same,
      eq_iff env2.status "running",
      resolved_pid decode_status r2 env2 now2 sc1.address exit2 found2 port2,
    ) in
    let (p1, t1) = poll_pid decode sc1 m in
    let (p2, t2) = poll_pid decode sc2 m1 in
    let (keep, set) =
      kept_then_set m.snap.gateway_pid m1.snap.gateway_pid_since sc1.stored sc2.stored
        m.snap.gateway_pid_since running in
    (
      p1 ∙ pid1,
      t1 ∙ ap (λ p. since p m.snap.gateway_pid sc1.stored m.snap.gateway_pid_since) pid1 ∙ keep,
      p2 ∙ pid2,
      t2
          ∙ ap (λ p. since p m1.snap.gateway_pid sc2.stored m1.snap.gateway_pid_since) pid2
          ∙ ap (λ q. since m.snap.gateway_pid q sc2.stored m1.snap.gateway_pid_since) (p1 ∙ pid1)
          ∙ set,
    )
