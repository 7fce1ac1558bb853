-- ===== src/Supervisor/Session/Protocol.antt =====
-- What holds over the whole life of one worker (internal/supervisor/loop.go).
use clawmast.Prelude.{
  Time, String, some, List, [], ◌∷◌, ◌++◌, ◌≡◌, ◌≢◌, refl, ◌∙◌, ap, arith, ◌⊎◌, inl, inr,
}
use clawmast.Supervisor.HealthGate.{HealthGate, GateOutcome, timed_out, tick}
use clawmast.Supervisor.ExitCode.{
  ExitInfo, Classification, graceful, unexpected, classify_exit_code,
}
use clawmast.Supervisor.State.{HistoryEntry, Supervisor, Disk, record_history}
use clawmast.Supervisor.State
use clawmast.Supervisor.Session.{
  NotifyKind, ready, watchdog, stopping, WorkerState, starting, running, Session, stopped,
  SpawnEvent, shutdown, reaped, start_deadline_fired, watchdog_fired, gate_timer_fired, message,
  listener_closed, Turn, continue, done, classify_outcome, demote, on_start_deadline, on_tick,
  on_kind, on_kinds, turn, Finish, still_running, finished, run_session,
}

module _ {B : Type 0} where
  -- Either the worker lives and nothing was written to the ledger, or its life is over and the
  -- ledger has exactly one more entry, for that version and that exit code: a stop if the
  -- supervisor was asked to shut down, and a crash otherwise.
  abbrev pub Closes : Supervisor B → String → Finish B → Type 0
  Closes s version (still_running s' w) = s'.ledger ≡ s.ledger
  Closes s version (finished s' o) =
      (e : HistoryEntry) × (s'.ledger ≡ s.ledger ++ e ∷ [])
      × (e.version ≡ version)
      × (e.exit_code ≡ some o.info.code)
      × (((e.event ≡ State.stop) × (o.kind ≡ stopped))
          ⊎ ((e.event ≡ State.crash) × (o.kind ≢ stopped)))

  ledger-on_kind :
      (s : Supervisor B) (w : Session) (now : Time) (k : NotifyKind)
      → (on_kind s w now k).0.ledger ≡ s.ledger
  unfolding on_kind
  ledger-on_kind s w now ready = ground arith
  ledger-on_kind s w now watchdog = ground arith
  ledger-on_kind s w now stopping = refl

  ledger-on_kinds :
      (s : Supervisor B) (w : Session) (now : Time) (ks : List NotifyKind)
      → (on_kinds s w now ks).0.ledger ≡ s.ledger
  unfolding on_kinds
  ledger-on_kinds s w now [] = refl
  ledger-on_kinds s w now (k ∷ ks) =
      let (s', w') = on_kind s w now k in ledger-on_kinds s' w' now ks ∙ ledger-on_kind s w now k

  abbrev TurnCloses : Supervisor B → String → Turn B → Type 0
  TurnCloses s version (continue s' w) = s'.ledger ≡ s.ledger
  TurnCloses s version (done s' o) = Closes s version (finished s' o)

  classify_closes :
      (s : Supervisor B) (version : String) (info : ExitInfo) (cls : Classification)
      → TurnCloses s version (classify_outcome s version info cls)
  unfolding classify_outcome
  classify_closes s version info graceful = (_, refl, refl, refl, inr (refl, λ e. cc))
  classify_closes s version info _ = (_, refl, refl, refl, inr (refl, λ e. cc))

  start_deadline_closes :
      (s : Supervisor B) (w : Session) (version : String) (info : ExitInfo) (st : WorkerState)
      → TurnCloses s version (on_start_deadline s w version info st)
  unfolding on_start_deadline
  start_deadline_closes s w version info starting = classify_closes s version info unexpected
  start_deadline_closes s w version info running = refl

  tick_closes :
      (d : Disk B) (s : Supervisor B) (w : Session) (version : String) (now : Time)
      (info : ExitInfo) (r : HealthGate × GateOutcome)
      → TurnCloses s version (on_tick d s w version now info r)
  unfolding on_tick
  tick_closes d s w version now info (gate, timed_out) = (_, refl, refl, refl, inr (refl, λ e. cc))
  tick_closes d s w version now info (gate, _) = refl

  turn_closes :
      (d : Disk B) (s : Supervisor B) (w : Session) (version : String) (e : SpawnEvent)
      → TurnCloses s version (turn d s w version e)
  unfolding turn
  turn_closes d s w version (shutdown info) = (_, refl, refl, refl, inl (refl, refl))
  turn_closes d s w version (reaped info) =
      classify_closes s version info (demote (classify_exit_code info))
  turn_closes d s w version (start_deadline_fired info) =
      start_deadline_closes s w version info w.cur_state
  turn_closes d s w version (watchdog_fired info) = classify_closes s version info unexpected
  turn_closes d s w version (gate_timer_fired now info) =
      tick_closes d s w version now info (tick s.gate now)
  turn_closes d s w version (message now kinds) = ledger-on_kinds s w now kinds
  turn_closes d s w version listener_closed = refl

  Closes-of_ledger :
      (s s' : Supervisor B) (version : String) (f : Finish B)
      → s'.ledger ≡ s.ledger
      → Closes s' version f
      → Closes s version f
  Closes-of_ledger s s' version (still_running t w) same h = h ∙ same
  Closes-of_ledger s s' version (finished t o) same (e, grows, v, code, event) =
      (e, grows ∙ ap (λ l. l ++ e ∷ []) same, v, code, event)

  -- What run_session does after a round.
  abbrev pub follow : Disk B → String → List SpawnEvent → Turn B → Finish B
  follow d version es t = elim t [
    | done s' o ↦ finished s' o
    | continue s' w' ↦ run_session d s' w' version es
  ]

  follow-Closes :
      (d : Disk B) (s : Supervisor B) (version : String) (es : List SpawnEvent) (t : Turn B)
      → ((s' : Supervisor B) (w' : Session) → Closes s' version (run_session d s' w' version es))
      → TurnCloses s version t
      → Closes s version (follow d version es t)
  follow-Closes d s version es (done s' o) rest h = h
  follow-Closes d s version es (continue s' w') rest h =
      Closes-of_ledger s s' version (run_session d s' w' version es) h (rest s' w')

  -- A life has one closing entry at its end and none before, whatever the select receives.
  pub session-Closes :
      (d : Disk B) (s : Supervisor B) (w : Session) (version : String) (es : List SpawnEvent)
      → Closes s version (run_session d s w version es)
  unfolding run_session
  session-Closes d s w version [] = refl
  session-Closes d s w version (e ∷ es) =
      follow-Closes d s version es (turn d s w version e)
        (λ s' w'. session-Closes d s' w' version es) (turn_closes d s w version e)
