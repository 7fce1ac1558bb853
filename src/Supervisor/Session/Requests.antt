-- ===== src/Supervisor/Session/Requests.antt =====
-- Whose doing the end of a worker is (internal/supervisor/loop.go).
use mathlib.Core.Path.{subst}
use clawmast.Prelude.{
  ℕ, String, false, List, [], ◌∷◌, ◌++◌, ◌≡◌, ◌↔◌, ◌⊎◌, refl, sym, ap, arith, All,
}
use clawmast.Supervisor.ExitCode.{ExitInfo, classify_exit_code}
use clawmast.Supervisor.State.{Supervisor, Disk}
use clawmast.Supervisor.Session.{
  Session, crash, no_restart, rollback, stopped, install_health_timeout, SpawnOutcome, SpawnEvent,
  shutdown, reaped, start_deadline_fired, watchdog_fired, gate_timer_fired, message,
  listener_closed, Turn, continue, done, classify_outcome, demote, outcome_of, on_start_deadline,
  on_tick, turn, Finish, still_running, finished, run_session,
}
use clawmast.Supervisor.Session.Protocol.{follow}

-- The worker ended with this code, and not by a signal.
abbrev pub IsExit : ℕ → ExitInfo → Type 0
IsExit code info = (info.code ≡ code) × (info.signaled ≡ false)

-- The end of a life by one event, and what it counts as.
abbrev pub EndsAs : SpawnEvent → SpawnOutcome → Type 0
EndsAs (shutdown info) o = (o.info ≡ info) × (o.kind ≡ stopped)
EndsAs (reaped info) o =
    (o.info ≡ info)
    × ((o.kind ≡ no_restart) ↔ IsExit 64 info)
    × ((o.kind ≡ rollback) ↔ IsExit 65 info)
    × ((o.kind ≡ no_restart) ⊎ (o.kind ≡ rollback) ⊎ (o.kind ≡ crash))
EndsAs (start_deadline_fired info) o = (o.info ≡ info) × (o.kind ≡ crash)
EndsAs (watchdog_fired info) o = (o.info ≡ info) × (o.kind ≡ crash)
EndsAs (gate_timer_fired now info) o = (o.info ≡ info) × (o.kind ≡ install_health_timeout)
EndsAs (message now kinds) o = ⊥
EndsAs listener_closed o = ⊥

-- An event that a worker may survive.
abbrev pub IsSurvivable : SpawnEvent → Type 0
IsSurvivable (shutdown info) = ⊥
IsSurvivable (reaped info) = ⊥
IsSurvivable (watchdog_fired info) = ⊥
IsSurvivable (start_deadline_fired info) = Unit
IsSurvivable (gate_timer_fired now info) = Unit
IsSurvivable (message now kinds) = Unit
IsSurvivable listener_closed = Unit

module _ {B : Type 0} where
  abbrev pub IsRunning : Finish B → Type 0
  IsRunning (still_running s w) = Unit
  IsRunning (finished s o) = ⊥

  -- A life that is over was ended by one of the events, up to which the worker was running; one that is
  -- not over met none that ends every life.
  abbrev pub Explained :
      Disk B → Supervisor B → Session → String → List SpawnEvent → Finish B → Type 0
  Explained d s w version es (still_running s' w') = All IsSurvivable es
  Explained d s w version es (finished s' o) =
      (before : List SpawnEvent) × (e : SpawnEvent) × (after : List SpawnEvent) × (es
        ≡ before ++ e ∷ after)
      × IsRunning (run_session d s w version before)
      × EndsAs e o

  abbrev TurnEnds : SpawnEvent → Turn B → Type 0
  TurnEnds e (continue s w) = IsSurvivable e
  TurnEnds e (done s o) = EndsAs e o

  turn_ends :
      (d : Disk B) (s : Supervisor B) (w : Session) (version : String) (e : SpawnEvent)
      → TurnEnds e (turn d s w version e)
  unfolding turn classify_outcome demote on_start_deadline on_tick
  turn_ends d s w version (shutdown info) = (refl, refl)
  turn_ends d s w version (reaped info) = unfold classify_exit_code outcome_of in ground arith
  turn_ends d s w version (start_deadline_fired info) = ground arith
  turn_ends d s w version (watchdog_fired info) = (refl, refl)
  turn_ends d s w version (gate_timer_fired now info) = ground arith
  turn_ends d s w version (message now kinds) = tt
  turn_ends d s w version listener_closed = tt

  later :
      (d : Disk B) (s s' : Supervisor B) (w w' : Session) (version : String) (e : SpawnEvent)
      (es : List SpawnEvent) (f : Finish B)
      → turn d s w version e ≡ continue s' w'
      → IsSurvivable e
      → Explained d s' w' version es f
      → Explained d s w version (e ∷ es) f
  unfolding run_session
  later d s s' w w' version e es (still_running a b) goes lives h = (lives, h)
  later d s s' w w' version e es (finished a o) goes lives
        (before, last, after, split, runs, ends) =
      (
        e ∷ before,
        last,
        after,
        ap (λ l. e ∷ l) split,
        subst (λ t. IsRunning (follow d version before t)) (sym goes) runs,
        ends,
      )

  follow-Explained :
      (d : Disk B) (s : Supervisor B) (w : Session) (version : String) (e : SpawnEvent)
      (es : List SpawnEvent) (t : Turn B)
      → turn d s w version e ≡ t
      → ((s' : Supervisor B) (w' : Session)
          → Explained d s' w' version es (run_session d s' w' version es))
      → TurnEnds e t
      → Explained d s w version (e ∷ es) (follow d version es t)
  unfolding run_session
  follow-Explained d s w version e es (done s' o) same rest ends = ([], e, es, refl, tt, ends)
  follow-Explained d s w version e es (continue s' w') same rest ends =
      later d s s' w w' version e es (run_session d s' w' version es) same ends (rest s' w')

  -- A life that is over was ended by one of the events, up to which the worker was running, and that
  -- event says how it counts: a shutdown of the supervisor as stopped; an exit of the worker by itself as
  -- a request not to restart exactly with code 64, as one to roll back exactly with 65, and otherwise as
  -- a crash; a worker that is stopped for a missed start deadline or heartbeat as a crash, and one that
  -- is stopped for a missed deadline of the gate as an install timeout, whatever code it exits with. A worker that still
  -- runs has met no shutdown, no exit and no missed heartbeat.
  pub session-Explained :
      (d : Disk B) (s : Supervisor B) (w : Session) (version : String) (es : List SpawnEvent)
      → Explained d s w version es (run_session d s w version es)
  unfolding run_session
  session-Explained d s w version [] = tt
  session-Explained d s w version (e ∷ es) =
      follow-Explained d s w version e es (turn d s w version e) refl
        (λ s' w'. session-Explained d s' w' version es) (turn_ends d s w version e)
