-- ===== src/Openclaw/Poller/Healing.antt =====
-- When internal/openclaw/poller.go starts autoheal, over a run of probes.
use clawmast.Prelude.{
  suc, ◌+◌, ◌≤◌, ◌<◌, Time, Duration, true, false, List, [], ◌∷◌, ◌≡◌, ◌≢◌, ◌⊎◌, refl, sym, ap, ◌∙◌,
  arith, if◌then◌else◌, length, All, inl, inr, eq_iff,
}
use clawmast.Openclaw.Phase.{Snapshot, intent_stopped, should_autoheal}
use clawmast.Openclaw.Poller.{
  Manager, carry_over, with_phase, fired, update_snapshot, action_name, current_action_of,
  probe_now,
}

-- The instants at which a run of probes starts autoheal.
pub heals : List (Snapshot × Time) → Manager → List Time
heals [] m = []
heals ((next, now) ∷ rest) m =
    let later = heals rest (probe_now next now m).0 in
    if (probe_now next now m).1 then now ∷ later else later

-- Each instant is at or after the bound that the one before it sets.
abbrev pub IsSpaced : Duration → Time → List Time → Type 0
IsSpaced c e [] = Unit
IsSpaced c e (t ∷ ts) = (e ≤ t) × IsSpaced c (t + c) ts

pub one_probe :
    (next : Snapshot) (now : Time) (m : Manager)
    → ((probe_now next now m).0.autoheal ≡ m.autoheal)
      × ((probe_now next now m).0.current_action ≡ m.current_action)
      × ((probe_now next now m).0.snap.intent ≡ m.snap.intent)
unfolding probe_now update_snapshot carry_over with_phase fired
one_probe next now m = ground arith

names :
    (a b : Manager)
    → a.current_action ≡ b.current_action
    → current_action_of a ≡ current_action_of b
unfolding current_action_of
names a b e = ap action_name e

one_eligible :
    (next : Snapshot) (now : Time) (m : Manager)
    → ((probe_now next now m).1 ≡ true
        × (m.snap.autoheal_next_eligible ≤ now)
        × ((probe_now next now m).0.snap.autoheal_next_eligible ≡ now + m.autoheal.cooldown))
      ⊎ ((probe_now next now m).1 ≡ false
          × ((probe_now next now m).0.snap.autoheal_next_eligible ≡ m.snap.autoheal_next_eligible))
unfolding probe_now update_snapshot carry_over with_phase fired should_autoheal
one_eligible next now m = ground arith

-- Autoheal is not started before the stored instant of eligibility, and two starts are at least the
-- cooldown apart, whatever the probes find.
pub heals-IsSpaced :
    (probes : List (Snapshot × Time)) (m : Manager)
    → IsSpaced m.autoheal.cooldown m.snap.autoheal_next_eligible (heals probes m)
unfolding heals
heals-IsSpaced [] m = tt
heals-IsSpaced ((next, now) ∷ rest) m =
    let m1 = (probe_now next now m).0 in
    let later = heals-IsSpaced rest m1 in
    let (same, action, intent) = one_probe next now m in
    elim (one_eligible next now m) [
      | inl (fire, due, set) ↦ rw fire (due, rw (same, set) at later)
      | inr (quiet, kept) ↦ rw quiet (rw (same, kept) at later)
    ]

pub one_quiet :
    (next : Snapshot) (now : Time) (m : Manager)
    → ((current_action_of m ≢ "") ⊎ (m.snap.intent ≡ intent_stopped))
    → (probe_now next now m).1 ≡ false
unfolding probe_now update_snapshot carry_over with_phase fired should_autoheal
one_quiet next now m h = ground (arith, eq_iff (current_action_of m) "")

-- While an action that the operator asked for is in flight, or once the operator asked for the gateway
-- to be stopped, no probe starts autoheal.
pub hands_off :
    (probes : List (Snapshot × Time)) (m : Manager)
    → ((current_action_of m ≢ "") ⊎ (m.snap.intent ≡ intent_stopped))
    → heals probes m ≡ []
unfolding heals
hands_off [] m h = refl
hands_off ((next, now) ∷ rest) m h =
    let m1 = (probe_now next now m).0 in
    let (same, action, intent) = one_probe next now m in
    let still : (current_action_of m1 ≢ "") ⊎ (m1.snap.intent ≡ intent_stopped) = elim h [
      | inl busy ↦ inl (λ e. busy (sym (names m1 m action) ∙ e))
      | inr stop ↦ inr (intent ∙ stop)
    ] in
    rw (one_quiet next now m h) (hands_off rest m1 still)

-- The instant of the last probe.
abbrev pub last_of : Time → List (Snapshot × Time) → Time
last_of t [] = t
last_of t ((next, now) ∷ rest) = last_of now rest

-- A probe that finds the gateway down, after the cooldown and with the CLI there.
abbrev pub FindsDown : Time → Snapshot × Time → Type 0
FindsDown e p = (p.0.alive ≡ false) × (p.0.cli_missing ≡ false) × (e ≤ p.1)

-- Autoheal is on, and nothing that the operator did or is doing holds it back.
abbrev pub IsWilling : Manager → Type 0
IsWilling m =
    (m.autoheal.enabled ≡ true) × (m.snap.intent ≢ intent_stopped) × (current_action_of m ≡ "")

one_down :
    (next : Snapshot) (now : Time) (m : Manager)
    → IsWilling m
    → FindsDown m.snap.autoheal_next_eligible (next, now)
    → ((m.autoheal.threshold ≤ m.snap.autoheal_consecutive_down + 1)
        × ((probe_now next now m).1 ≡ true))
      ⊎ ((m.snap.autoheal_consecutive_down + 1 < m.autoheal.threshold)
          × ((probe_now next now m).1 ≡ false)
          × ((probe_now next now m).0.snap.autoheal_consecutive_down
              ≡ m.snap.autoheal_consecutive_down + 1)
          × ((probe_now next now m).0.snap.autoheal_next_eligible ≡ m.snap.autoheal_next_eligible))
unfolding probe_now update_snapshot carry_over with_phase fired should_autoheal
one_down next now m willing down = ground (arith, eq_iff (current_action_of m) "")

-- Once autoheal is on, nothing holds it back and the cooldown is over, a run of probes that find the
-- gateway down starts it exactly once: at the probe that makes the streak as long as the threshold,
-- not before.
pub down_long_enough_heals :
    (next : Snapshot) (now : Time) (rest : List (Snapshot × Time)) (m : Manager)
    → IsWilling m
    → FindsDown m.snap.autoheal_next_eligible (next, now)
    → All (FindsDown m.snap.autoheal_next_eligible) rest
    → m.snap.autoheal_consecutive_down + suc (length rest) ≡ m.autoheal.threshold
    → heals ((next, now) ∷ rest) m ≡ last_of now rest ∷ []
unfolding heals
down_long_enough_heals next now [] m willing down all streak =
    elim (one_down next now m willing down) [
      | inl (reached, fire) ↦ rw fire refl
      | inr (short, quiet, longer, kept) ↦ absurd (omega arith)
    ]
down_long_enough_heals next now ((next2, now2) ∷ rest) m willing down all streak =
    let m1 = (probe_now next now m).0 in
    let (same, action, intent) = one_probe next now m in
    let willing1 : IsWilling m1 = (
      ap (λ c. c.enabled) same ∙ willing.0,
      λ e. willing.1 (sym intent ∙ e),
      names m1 m action ∙ willing.2,
    ) in
    elim (one_down next now m willing down) [
      | inl (reached, fire) ↦ absurd (omega arith)
      | inr (short, quiet, longer, kept) ↦
          let later =
            down_long_enough_heals next2 now2 rest m1 willing1 (rw kept all.0) (rw kept all.1)
              (rw (longer, same) (omega arith)) in
          rw quiet later
    ]
