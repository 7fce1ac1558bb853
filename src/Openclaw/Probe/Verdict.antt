-- ===== src/Openclaw/Probe/Verdict.antt =====
-- Who decides that the gateway is alive (internal/openclaw/status.go).
use clawmast.Prelude.{
  ℕ, ◌≤◌, ◌<◌, Time, true, false, none, some, List, ◌≡◌, ◌↔◌, refl, sym, ap, ◌∙◌, arith, Bool-cases,
  inl, inr, if◌then◌else◌,
}
use clawmast.Openclaw.Phase.{Snapshot, no_error}
use clawmast.Openclaw.Gateway.{
  GatewayAddress, CliRun, Decoded, decoded, binary_missing, cli_failed, cli_ran, undecodable,
}
use clawmast.Openclaw.Probe.{
  HealthPayload, HttpAnswer, bad_request, no_response, response, read_health, probe_fast,
  needs_enrichment, verdict_down, verdict_up, cli_there, merge_payload, probe_enrich_cli,
  cli_enrich_only, with_address, with_fast, probe,
}

-- The endpoint answered with success, and with a body that says ok.
abbrev pub IsUp : HttpAnswer → Type 0
IsUp (bad_request e) = ⊥
IsUp (no_response ms e) = ⊥
IsUp (response ms status body) = (200 ≤ status) × (status < 300) × (body ≡ decoded true)

pub probe_fast_iff : (http : HttpAnswer) → ((probe_fast http).ok ≡ true) ↔ IsUp http
unfolding probe_fast read_health
probe_fast_iff (bad_request e) = ground arith
probe_fast_iff (no_response ms e) = ground arith
probe_fast_iff (response ms status (undecodable e)) = ground arith
probe_fast_iff (response ms status (decoded true)) = ground arith
probe_fast_iff (response ms status (decoded false)) = ground arith

-- What enrichment leaves as it was.
abbrev Keeps : Snapshot → Snapshot → Type 0
Keeps s s' =
    (s'.alive ≡ s.alive)
    × (s'.probe_error ≡ s.probe_error)
    × (s'.last_probe_ms ≡ s.last_probe_ms)
    × (s'.last_alive_at ≡ s.last_alive_at)

enrich-Keeps :
    (decode : List ℕ → Decoded HealthPayload) (cli : CliRun) (now : Time) (s : Snapshot)
    → Keeps s (probe_enrich_cli decode cli cli_enrich_only now s)
unfolding probe_enrich_cli merge_payload cli_there verdict_down verdict_up
enrich-Keeps decode binary_missing now s = (refl, refl, refl, refl)
enrich-Keeps decode (cli_failed none e) now s = (refl, refl, refl, refl)
enrich-Keeps decode (cli_failed (some r) e) now s = (refl, refl, refl, refl)
enrich-Keeps decode (cli_ran r) now s = ground arith

probe-Keeps :
    (decode : List ℕ → Decoded HealthPayload) (addr : GatewayAddress) (http : HttpAnswer)
    (cli : CliRun) (now : Time) (prev : Snapshot)
    → Keeps
        (with_fast (probe_fast http) now (with_address addr now prev))
        (probe decode addr http cli now prev).0
unfolding probe
probe-Keeps decode addr http cli now prev =
    let s = with_fast (probe_fast http) now (with_address addr now prev) in
    elim (Bool-cases (needs_enrichment prev s.alive now)) [
      | inl needed ↦ rw needed (enrich-Keeps decode cli now s)
      | inr fresh ↦ rw fresh (refl, refl, refl, refl)
    ]

ok-no_error : (http : HttpAnswer) → (probe_fast http).ok ≡ true → (probe_fast http).error ≡ no_error
unfolding probe_fast read_health
ok-no_error (bad_request e) h = absurd (ground (arith, h))
ok-no_error (no_response ms e) h = absurd (ground (arith, h))
ok-no_error (response ms status (undecodable e)) h = ground (arith, h)
ok-no_error (response ms status (decoded true)) h = ground (arith, h)
ok-no_error (response ms status (decoded false)) h = ground (arith, h)

fast_verdict :
    (http : HttpAnswer) (now : Time) (s : Snapshot)
    → let next = with_fast (probe_fast http) now s in
      (next.alive ≡ (probe_fast http).ok)
      × (next.probe_error ≡ (probe_fast http).error)
      × (next.last_probe_ms ≡ (probe_fast http).duration_ms)
      × (next.last_alive_at ≡ (if next.alive then now else s.last_alive_at))
unfolding with_fast
fast_verdict http now s = ground (arith, ok-no_error http)

-- Whatever the CLI does, the gateway is alive in a snapshot exactly if its HTTP endpoint answered with
-- a 2xx status and a body that says ok; the error and the duration that are shown are those of that
-- request, and the last instant alive is that of the probe just when it found the gateway alive.
pub probe_verdict :
    (decode : List ℕ → Decoded HealthPayload) (addr : GatewayAddress) (http : HttpAnswer)
    (cli : CliRun) (now : Time) (prev : Snapshot)
    → let next = (probe decode addr http cli now prev).0 in
      ((next.alive ≡ true) ↔ IsUp http)
      × (next.probe_error ≡ (probe_fast http).error)
      × (next.last_probe_ms ≡ (probe_fast http).duration_ms)
      × (next.last_alive_at ≡ (if next.alive then now else prev.last_alive_at))
unfolding with_address
probe_verdict decode addr http cli now prev =
    let s = with_fast (probe_fast http) now (with_address addr now prev) in
    let (alive, error, ms, last) = probe-Keeps decode addr http cli now prev in
    let (up, shown, took, seen) = fast_verdict http now (with_address addr now prev) in
    let (there, back) = probe_fast_iff http in
    (
      (λ h. there (sym up ∙ sym alive ∙ h), λ h. alive ∙ up ∙ back h),
      error ∙ shown,
      ms ∙ took,
      last ∙ seen ∙ ap (λ b. if b then now else prev.last_alive_at) (sym alive),
    )
