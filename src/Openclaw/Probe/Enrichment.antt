-- ===== src/Openclaw/Probe/Enrichment.antt =====
-- How often the CLI is run, over a run of polls (internal/openclaw/status.go, poller.go).
use clawmast.Prelude.{
  ℕ, ◌+◌, ◌≤◌, leb, Time, Bool, true, false, List, [], ◌∷◌, ◌≡◌, ◌≢◌, ◌⊎◌, inl, inr, refl, sym, ap,
  ◌∙◌, arith, Bool-cases, if◌then◌else◌, All, none, some,
}
use mathlib.Core.List.{map}
use clawmast.Openclaw.Phase.{Snapshot}
use clawmast.Openclaw.Gateway.{
  GatewayAddress, CliRun, Decoded, decoded, undecodable, binary_missing, cli_failed, cli_ran,
}
use clawmast.Openclaw.Poller.{Manager, probe_now, update_snapshot, carry_over, with_phase, fired}
use clawmast.Openclaw.Poller.Healing.{IsSpaced}
use clawmast.Openclaw.Probe.{
  HealthPayload, HttpAnswer, probe_fast, needs_enrichment, enrichment_interval, verdict_down,
  verdict_up, cli_there, merge_payload, probe_enrich_cli, cli_enrich_only, with_address, with_fast,
  probe, PollScript, poll,
}
use clawmast.Openclaw.Probe.Verdict.{IsUp, probe_fast_iff, probe_verdict}

module _ (decode : List ℕ → Decoded HealthPayload) where
  -- The starts of the polls that run the CLI.
  pub enrichments : List PollScript → Manager → List Time
  enrichments [] m = []
  enrichments (sc ∷ rest) m =
      let later = enrichments rest (poll decode sc m).0 in
      if (poll decode sc m).1 then sc.started ∷ later else later

  -- The CLI answers with a payload that says ok.
  abbrev pub Enriches : CliRun → Type 0
  Enriches (cli_ran r) =
      (r.exit_code ≡ 0) × ((p : HealthPayload) × (decode r.stdout ≡ decoded p) × (p.ok ≡ true))
  Enriches _ = ⊥

  enrich_stamps :
      (cli : CliRun) (now : Time) (s : Snapshot)
      → Enriches cli
      → (probe_enrich_cli decode cli cli_enrich_only now s).last_enriched_at ≡ now
  unfolding probe_enrich_cli merge_payload cli_there verdict_down verdict_up
  enrich_stamps binary_missing now s h = absurd h
  enrich_stamps (cli_failed r e) now s h = absurd h
  enrich_stamps (cli_ran r) now s (zero_exit, (p, found, good)) =
      rw found (rw good (ground (arith, zero_exit)))

  fast_keeps :
      (http : HttpAnswer) (addr : GatewayAddress) (now : Time) (prev : Snapshot)
      → (with_fast (probe_fast http) now (with_address addr now prev)).last_enriched_at
        ≡ prev.last_enriched_at
  unfolding with_fast with_address
  fast_keeps http addr now prev = ground arith

  abbrev asked : PollScript → Snapshot → Bool
  asked sc prev =
      needs_enrichment prev
        (with_fast (probe_fast sc.http) sc.started (with_address sc.address sc.started prev)).alive
        sc.started

  one_probe :
      (sc : PollScript) (prev : Snapshot)
      → Enriches sc.cli
      → let r = probe decode sc.address sc.http sc.cli sc.started prev in
        (r.1 ≡ asked sc prev)
        × (r.0.last_enriched_at ≡ (if asked sc prev then sc.started else prev.last_enriched_at))
  unfolding probe
  one_probe sc prev h =
      let next =
        with_fast (probe_fast sc.http) sc.started (with_address sc.address sc.started prev) in
      elim (Bool-cases (needs_enrichment prev next.alive sc.started)) [
        | inl t ↦ rw t (refl, enrich_stamps sc.cli sc.started next h)
        | inr f ↦ rw f (refl, fast_keeps sc.http sc.address sc.started prev)
      ]

  up_alive :
      (sc : PollScript) (prev : Snapshot)
      → IsUp sc.http
      → (with_fast (probe_fast sc.http) sc.started (with_address sc.address sc.started prev)).alive
        ≡ true
  unfolding with_fast
  up_alive sc prev up = let (there, back) = probe_fast_iff sc.http in rw (back up) refl

  asked_iff :
      (sc : PollScript) (prev : Snapshot)
      → IsUp sc.http
      → prev.alive ≡ true
      → prev.last_enriched_at ≢ 0
      → asked sc prev ≡ leb (prev.last_enriched_at + enrichment_interval) sc.started
  unfolding needs_enrichment
  asked_iff sc prev up alive before = rw (up_alive sc prev up, alive) (ground arith)

  stored :
      (next : Snapshot) (t : Time) (m : Manager)
      → ((probe_now next t m).0.snap.alive ≡ next.alive)
        × ((probe_now next t m).0.snap.last_enriched_at ≡ next.last_enriched_at)
  unfolding probe_now update_snapshot carry_over with_phase fired
  stored next t m = ground arith

  one_poll :
      (sc : PollScript) (m : Manager)
      → let next = (probe decode sc.address sc.http sc.cli sc.started m.snap).0 in
        ((poll decode sc m).0.snap.alive ≡ next.alive)
        × ((poll decode sc m).0.snap.last_enriched_at ≡ next.last_enriched_at)
        × ((poll decode sc m).1 ≡ (probe decode sc.address sc.http sc.cli sc.started m.snap).1)
  unfolding poll
  one_poll sc m =
      let found = record (probe decode sc.address sc.http sc.cli sc.started m.snap).0 {
        binary_path = sc.binary_path;
        binary_source = sc.binary_source;
      } in
      let (alive, enriched) = stored found sc.stored m in (alive, enriched, refl)

  due :
      (ran : Bool) (stamp : Time) (needed : Bool) (now last : Time)
      → ran ≡ needed
      → needed ≡ leb (last + enrichment_interval) now
      → stamp ≡ (if needed then now else last)
      → (ran ≡ true × (last + enrichment_interval ≤ now) × (stamp ≡ now))
        ⊎ (ran ≡ false × (stamp ≡ last))
  due ran stamp needed now last e1 e2 e3 = ground arith

  one_up :
      (sc : PollScript) (m : Manager)
      → IsUp sc.http
      → Enriches sc.cli
      → m.snap.alive ≡ true
      → m.snap.last_enriched_at ≢ 0
      → let r = poll decode sc m in
        (r.0.snap.alive ≡ true)
        × ((r.1 ≡ true
              × (m.snap.last_enriched_at + enrichment_interval ≤ sc.started)
              × (r.0.snap.last_enriched_at ≡ sc.started))
            ⊎ (r.1 ≡ false × (r.0.snap.last_enriched_at ≡ m.snap.last_enriched_at)))
  one_up sc m up enriches alive before =
      let prev = m.snap in
      let (now_alive, stamp, ran) = one_poll sc m in
      let (asks, set) = one_probe sc prev enriches in
      let (there, back) = probe_fast_iff sc.http in
      let (verdict, e1, e2, e3) = probe_verdict decode sc.address sc.http sc.cli sc.started prev in
      let (v_there, v_back) = verdict in
      let test = asked_iff sc prev up alive before in
      (
        now_alive ∙ v_back up,
        due (poll decode sc m).1 (poll decode sc m).0.snap.last_enriched_at (asked sc prev)
            sc.started prev.last_enriched_at (ran ∙ asks) test (stamp ∙ set),
      )

  -- While the gateway stays up and each run of the CLI succeeds, polls run the CLI at least the
  -- enrichment interval apart, and not before that interval after the last enrichment.
  pub enrichments-IsSpaced :
      (scs : List PollScript) (m : Manager)
      → All (λ sc. IsUp sc.http × Enriches sc.cli) scs
      → m.snap.alive ≡ true
      → m.snap.last_enriched_at ≢ 0
      → IsSpaced enrichment_interval
          (m.snap.last_enriched_at + enrichment_interval)
          (enrichments scs m)
  unfolding enrichments
  enrichments-IsSpaced [] m h alive before = tt
  enrichments-IsSpaced (sc ∷ rest) m ((up, enriches), h) alive before =
      let (up', either) = one_up sc m up enriches alive before in
      elim either [
        | inl (run, old, set) ↦ rw run (
          old,
          rw set at
              (enrichments-IsSpaced rest (poll decode sc m).0 h up' (omega (arith, set, old))),
        )
        | inr (quiet, same) ↦ rw quiet (
            rw same at
              (enrichments-IsSpaced rest (poll decode sc m).0 h up' (λ e. before (sym same ∙ e))))
      ]

  -- The CLI is missing, cannot be run, exits with a code or does not answer with a payload that says
  -- ok.
  abbrev pub Fails : CliRun → Type 0
  Fails (cli_ran r) =
      (r.exit_code ≢ 0) ⊎ ((p : HealthPayload) → decode r.stdout ≡ decoded p → p.ok ≡ false)
  Fails _ = Unit

  merge_keeps :
      (d : Decoded HealthPayload) (now : Time) (s : Snapshot)
      → ((p : HealthPayload) → d ≡ decoded p → p.ok ≡ false)
      → (merge_payload cli_enrich_only now d s).last_enriched_at ≡ s.last_enriched_at
  unfolding merge_payload verdict_down
  merge_keeps (undecodable e) now s h = refl
  merge_keeps (decoded p) now s h = rw (h p refl) refl

  fail_keeps :
      (cli : CliRun) (now : Time) (s : Snapshot)
      → Fails cli
      → (probe_enrich_cli decode cli cli_enrich_only now s).last_enriched_at ≡ s.last_enriched_at
  unfolding probe_enrich_cli cli_there verdict_down
  fail_keeps binary_missing now s h = refl
  fail_keeps (cli_failed none e) now s h = refl
  fail_keeps (cli_failed (some r) e) now s h = refl
  fail_keeps (cli_ran r) now s (inl bad) = ground (arith, bad)
  fail_keeps (cli_ran r) now s (inr bad) =
      ground (arith, merge_keeps (decode r.stdout) now (cli_there cli_enrich_only (some r) s) bad)

  always_needed :
      (prev : Snapshot) (alive : Bool) (now : Time)
      → prev.last_enriched_at ≡ 0
      → needs_enrichment prev alive now ≡ true
  unfolding needs_enrichment
  always_needed prev alive now e = ground (arith, e)

  fail_probe :
      (sc : PollScript) (prev : Snapshot)
      → Fails sc.cli
      → prev.last_enriched_at ≡ 0
      → let r = probe decode sc.address sc.http sc.cli sc.started prev in
        (r.1 ≡ true) × (r.0.last_enriched_at ≡ 0)
  unfolding probe
  fail_probe sc prev h zero_stamp =
      let next =
        with_fast (probe_fast sc.http) sc.started (with_address sc.address sc.started prev) in
      rw (always_needed prev next.alive sc.started zero_stamp) (
        refl,
        fail_keeps sc.cli sc.started next h
            ∙ fast_keeps sc.http sc.address sc.started prev
            ∙ zero_stamp,
      )

  -- Until a first run of the CLI succeeds, every poll runs the CLI, also while the gateway stays down.
  pub never_enriched :
      (scs : List PollScript) (m : Manager)
      → All (λ sc. Fails sc.cli) scs
      → m.snap.last_enriched_at ≡ 0
      → enrichments scs m ≡ map (λ sc. sc.started) scs
  unfolding enrichments
  never_enriched [] m h e = refl
  never_enriched (sc ∷ rest) m (bad, h) e =
      let (ran, stamp) = fail_probe sc m.snap bad e in
      let (alive, set, same) = one_poll sc m in
      rw (same ∙ ran)
        (ap (λ ts. sc.started ∷ ts) (never_enriched rest (poll decode sc m).0 h (set ∙ stamp)))
