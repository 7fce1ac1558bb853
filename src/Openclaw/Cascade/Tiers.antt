-- ===== src/Openclaw/Cascade/Tiers.antt =====
-- The tiers of a repair (internal/openclaw/cascade.go).
use mathlib.Core.Path.{subst}
use clawmast.Prelude.{
  ℕ, String, Bool, true, false, ◌||◌, Option, none, some, List, ◌≡◌, ◌≢◌, refl, sym, ap, ◌∙◌, arith,
  eq_iff, if◌then◌else◌,
}
use clawmast.Openclaw.Poller.{Manager, clear_current_action, stamp_start_attempt}
use clawmast.Openclaw.Cascade.{
  end_event, start_event, join_argv, Stream, emit, run_step, probed, closed, finalize, opened,
  on_manager, FixScript, close_fix, revived, third_tier, escalate, second_tier, cascade,
}
use clawmast.Openclaw.Cascade.Settling.{
  InFlight, Settled, opened-InFlight, emit-InFlight, probed-InFlight, closed-Settled,
  run_step-InFlight, stamped-InFlight, probed_alive,
}

-- How many events a repair sends: two for each tier that it reaches.
abbrev pub tier_events : FixScript → ℕ
tier_events sc = if sc.after_doctor.0.alive then 2 else if sc.after_restart.0.alive then 4 else 6

-- A repair is over: autoheal was not started, and the outcome says whether the gateway is alive.
abbrev pub IsFixed : ℕ → Stream × Bool → Type 0
IsFixed n (s, fire) =
    Settled "fix" (if s.manager.snap.alive then "ok" else "failed") n s × (fire ≡ false)

fix_named : ◌≢◌ {A = String} "fix" ""
fix_named = ground (arith, eq_iff "fix" "")

close_fix-Settled :
    (sc : FixScript) (n : ℕ) (s : Stream) → InFlight "fix" n s → IsFixed n (close_fix sc s, false)
unfolding close_fix closed finalize clear_current_action
close_fix-Settled sc n s h = (
  closed-Settled "fix" (if s.manager.snap.alive then "ok" else "failed") n sc.finish s fix_named h,
  refl,
)

revived-Settled :
    (sc : FixScript) (n : ℕ) (s : Stream) → InFlight "fix" n s → IsFixed n (revived sc s, false)
unfolding revived
revived-Settled sc n s h =
    close_fix-Settled sc n (on_manager (stamp_start_attempt sc.stamp) s)
      (stamped-InFlight "fix" n true sc.stamp s h)

third_tier-IsFixed :
    (sc : FixScript) (o : Option (List String)) (s : Stream)
    → InFlight "fix" 4 s
    → IsFixed 6 (third_tier sc o s)
unfolding third_tier
third_tier-IsFixed sc none s h =
    let one = emit (start_event "t3-os-restart" "" sc.os_note) s in
    let two = emit (end_event "t3-os-restart" "skipped" "" sc.os_note) one in
    close_fix-Settled sc 6 two (
      emit-InFlight "fix" 5 (end_event "t3-os-restart" "skipped" "" sc.os_note) one fix_named
        (omega arith)
        (emit-InFlight "fix" 4 (start_event "t3-os-restart" "" sc.os_note) s fix_named (omega arith)
          h))
third_tier-IsFixed sc (some argv) s h =
    let ran = run_step "t3-os-restart" (join_argv argv) sc.os_restart s in
    let ran_h =
      run_step-InFlight "fix" 4 "t3-os-restart" (join_argv argv) sc.os_restart s fix_named
        (omega arith) h in
    let stamped = on_manager (stamp_start_attempt sc.stamp) ran in
    let (flies, quiet) =
      probed-InFlight "fix" 6 sc.after_os stamped fix_named
        (stamped-InFlight "fix" 6 true sc.stamp ran ran_h) in
    ((close_fix-Settled sc 6 (probed sc.after_os stamped).0 flies).0, quiet)

escalate-IsFixed :
    (sc : FixScript) (tier later : Stream × Bool) (n k : ℕ) (alive : Bool)
    → tier.0.manager.snap.alive ≡ alive
    → InFlight "fix" n tier.0
    → tier.1 ≡ false
    → IsFixed k later
    → IsFixed (if alive then n else k) (escalate sc tier later)
unfolding escalate
escalate-IsFixed sc tier later n k true up h quiet rest =
    let r : escalate sc tier later ≡ (revived sc tier.0, false) =
      ap (λ b. if b then (revived sc tier.0, tier.1) else (later.0, tier.1 || later.1)) up
      ∙ ap (λ f. (revived sc tier.0, f)) quiet in
    subst (IsFixed n) (sym r) (revived-Settled sc n tier.0 h)
escalate-IsFixed sc tier later n k false up h quiet rest =
    let r : escalate sc tier later ≡ (later.0, later.1) =
      ap (λ b. if b then (revived sc tier.0, tier.1) else (later.0, tier.1 || later.1)) up
      ∙ ap (λ f. (later.0, f || later.1)) quiet in
    subst (IsFixed k) (sym r) rest

second_tier-IsFixed :
    (sc : FixScript) (s : Stream)
    → InFlight "fix" 2 s
    → IsFixed (if sc.after_restart.0.alive then 4 else 6) (second_tier sc s)
unfolding second_tier
second_tier-IsFixed sc s h =
    let ran = run_step "t2-gateway-restart" "openclaw gateway restart" sc.restart s in
    let (flies, quiet) = probed-InFlight "fix" 4 sc.after_restart ran fix_named (
      run_step-InFlight "fix" 2 "t2-gateway-restart" "openclaw gateway restart" sc.restart s
        fix_named (omega arith) h) in
    let tier = probed sc.after_restart ran in
    escalate-IsFixed sc tier (third_tier sc sc.os_argv tier.0) 4 6 sc.after_restart.0.alive
      (probed_alive sc.after_restart ran) flies quiet
      (third_tier-IsFixed sc sc.os_argv tier.0 flies)

-- A repair goes on to the next tier only while the probe after a tier finds the gateway down, so it
-- sends two events for each tier it reaches. On every path it ends settled: no action is in flight,
-- the log holds exactly the events that were sent, its outcome says whether the gateway was found
-- alive at the end, and none of its probes starts autoheal.
pub cascade-IsFixed : (sc : FixScript) (m : Manager) → IsFixed (tier_events sc) (cascade sc m)
unfolding cascade
cascade-IsFixed sc m =
    let start = opened "fix" sc.begin m in
    let ran = run_step "t1-doctor" "openclaw doctor --fix" sc.doctor start in
    let (flies, quiet) = probed-InFlight "fix" 2 sc.after_doctor ran fix_named (
      run_step-InFlight "fix" 0 "t1-doctor" "openclaw doctor --fix" sc.doctor start fix_named
        (omega arith) (opened-InFlight "fix" sc.begin m fix_named)) in
    let tier = probed sc.after_doctor ran in
    escalate-IsFixed sc tier (second_tier sc tier.0) 2 (if sc.after_restart.0.alive then 4 else 6)
      sc.after_doctor.0.alive (probed_alive sc.after_doctor ran) flies quiet
      (second_tier-IsFixed sc tier.0 flies)
