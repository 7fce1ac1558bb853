-- ===== src/Supervisor/HealthGate/Runs.antt =====
-- The gate over whole runs of the supervisor (internal/supervisor/healthgate.go).
use mathlib.Core.List.{Memᴰ}
use clawmast.Prelude.{
  ℕ, suc, ◌+◌, ◌≤◌, Time, ◌≡◌, refl, sym, ◌⊎◌, inl, inr, Bool, true, false, List, [], ◌∷◌, arith,
  Bool-cases, leb, ltb,
}
use clawmast.Supervisor.HealthGate.{
  HealthGate, armed, stabilizing, passed, failed, GateOutcome, pending, on_ready, is_active,
  on_crash, tick,
}

-- What the supervisor reports to a gate between arming and resetting it.
pub data GateEvent : Type 0 where
  ready crash wake : Time → GateEvent

unfoldable pub step : HealthGate → GateEvent → HealthGate × GateOutcome
step g (ready now) = (on_ready g now, pending)
step g (crash now) = on_crash g now
step g (wake now) = tick g now

unfoldable pub run : HealthGate → List GateEvent → HealthGate
run g [] = g
run g (e ∷ es) = run (step g e).0 es

step_idle : (g : HealthGate) (e : GateEvent) → is_active g ≡ false → step g e ≡ (g, pending)
unfolding step on_ready on_crash tick is_active
step_idle g (ready now) h = ground arith
step_idle g (crash now) h = ground arith
step_idle g (wake now) h = ground arith

-- A gate that has passed, failed or was never armed is changed by nothing that is reported to it.
pub run_idle : (g : HealthGate) (es : List GateEvent) → is_active g ≡ false → run g es ≡ g
unfolding run
run_idle g [] h = refl
run_idle g (e ∷ es) h = ground (arith, step_idle g e h, run_idle g es h)

abbrev count_decision : GateOutcome → ℕ → ℕ
count_decision pending n = n
count_decision _ n = suc n

-- How many reports of a run are answered by a decision.
unfoldable pub decisions : HealthGate → List GateEvent → ℕ
decisions g [] = 0
decisions g (e ∷ es) = count_decision (step g e).1 (decisions (step g e).0 es)

abbrev budget : Bool → ℕ
budget true = 1
budget false = 0

budget-step :
    (g : HealthGate) (e : GateEvent) (n : ℕ)
    → count_decision (step g e).1 n + budget (is_active (step g e).0) ≡ n + budget (is_active g)
unfolding step on_ready on_crash tick is_active
budget-step g (ready now) n = ground arith
budget-step g (crash now) n = ground arith
budget-step g (wake now) n = ground arith

-- A watching gate makes at most one decision in a run, a gate that does not watch makes none, and
-- the gate stops watching exactly by deciding.
pub decisions_once :
    (g : HealthGate) (es : List GateEvent)
    → decisions g es + budget (is_active (run g es)) ≡ budget (is_active g)
unfolding decisions run
decisions_once g [] = omega arith
decisions_once g (e ∷ es) = omega (
  arith,
  budget-step g e (decisions (step g e).0 es),
  budget-step g e 0,
  decisions_once (step g e).0 es,
)

abbrev Waits : HealthGate → HealthGate → Type 0
Waits g g' = (g'.state ≡ stabilizing) × (g'.ready_at ≡ g.ready_at) × (g'.stable_for ≡ g.stable_for)

stabilizing-step :
    (g : HealthGate) (e : GateEvent)
    → g.state ≡ stabilizing
    → Waits g (step g e).0
      ⊎ (((n : Time) × (e ≡ wake n) × (g.ready_at + g.stable_for ≤ n))
          ⊎ ((step g e).0.state ≡ failed))
unfolding step on_ready on_crash tick
stabilizing-step g (ready now) h = inl (ground arith, ground arith, ground arith)
stabilizing-step g (crash now) h = inr (inr (ground arith))
stabilizing-step g (wake now) h = elim (Bool-cases (leb (g.ready_at + g.stable_for) now)) [
  | inl long ↦ inr (inl (now, refl, ground arith))
  | inr short ↦ elim (Bool-cases (ltb now g.deadline)) [
    | inl early ↦ inl (ground arith, ground arith, ground arith)
    | inr late ↦ inr (inr (ground arith))
  ]
]

failed-run : (g : HealthGate) (es : List GateEvent) → g.state ≡ failed → (run g es).state ≡ failed
failed-run g es h = rw (run_idle g es (unfold is_active in ground arith)) h

Waited : HealthGate → List GateEvent → Type 0
Waited g es = (n : Time) × Memᴰ (wake n) es × (g.ready_at + g.stable_for ≤ n)

stabilizing_passes :
    (g : HealthGate) (es : List GateEvent)
    → g.state ≡ stabilizing
    → (run g es).state ≡ passed
    → Waited g es
unfolding run Waited
stabilizing_passes g [] h p = cc
stabilizing_passes g (e ∷ es) h p = elim (stabilizing-step g e h) [
  | inl w ↦
      let (n, m, le) = stabilizing_passes (step g e).0 es w.0 p in
      (n, Memᴰ.tail m, omega (arith, w.1, w.2))
  | inr (inl (n, same, le)) ↦ (n, Memᴰ.head (sym same), le)
  | inr (inr f) ↦ absurd (cc (failed-run (step g e).0 es f))
]

armed-step :
    (g : HealthGate) (e : GateEvent)
    → g.state ≡ armed
    → (((step g e).0.state ≡ armed) × ((step g e).0.stable_for ≡ g.stable_for))
      ⊎ (((r : Time) × (e ≡ ready r)
            × ((step g e).0.state ≡ stabilizing)
            × ((step g e).0.ready_at ≡ r)
            × ((step g e).0.stable_for ≡ g.stable_for))
          ⊎ ((step g e).0.state ≡ failed))
unfolding step on_ready on_crash tick
armed-step g (ready now) h = inr (inl (now, refl, ground arith, ground arith, ground arith))
armed-step g (crash now) h = inr (inr (ground arith))
armed-step g (wake now) h = elim (Bool-cases (ltb now g.deadline)) [
  | inl early ↦ inl (ground arith, ground arith)
  | inr late ↦ inr (inr (ground arith))
]

-- If an armed gate has passed at the end of a run, then the run reports a READY and a wake-up that
-- comes at least the stable period after it.
pub passes_sound :
    (g : HealthGate) (es : List GateEvent)
    → g.state ≡ armed
    → (run g es).state ≡ passed
    → (r n : Time) × Memᴰ (ready r) es × Memᴰ (wake n) es × (r + g.stable_for ≤ n)
unfolding run Waited
passes_sound g [] h p = absurd (cc)
passes_sound g (e ∷ es) h p = elim (armed-step g e h) [
  | inl w ↦
      let (r, n, a, b, le) = passes_sound (step g e).0 es w.0 p in
      (r, n, Memᴰ.tail a, Memᴰ.tail b, omega (arith, w.1))
  | inr (inl (r, same, st, at, stable)) ↦
      let (n, m, le) = stabilizing_passes (step g e).0 es st p in
      (r, n, Memᴰ.head (sym same), Memᴰ.tail m, omega arith)
  | inr (inr f) ↦ absurd (cc (failed-run (step g e).0 es f))
]
