-- ===== src/Openclaw/ActionLog/Replay.antt =====
-- What a client that comes late can replay (internal/openclaw/actionlog.go).
use clawmast.Prelude.{
  take, ℕ, zero, suc, ◌≤◌, Time, String, false, List, [], ◌∷◌, ◌++◌, ◌≡◌, ◌≢◌, refl, sym, ◌∙◌, ap,
  arith, eq_iff, length, length-append, leb, Bool-cases, inl, inr,
}
use mathlib.Core.List.{append_assoc, append-nil}
use clawmast.Openclaw.ActionLog.{
  StepEvent, ActionLogEntry, action_log_max_events, reset_action_log, record_action_event,
  finalize_action_log,
}

pub record_all : List StepEvent → ActionLogEntry → ActionLogEntry
record_all [] log = log
record_all (ev ∷ evs) log = record_all evs (record_action_event ev log)

take_more {ℓ} :
    {A : Type ℓ} (n : ℕ) (xs ys : List A) → n ≤ length xs → take n (xs ++ ys) ≡ take n xs
take_more zero xs ys h = refl
take_more (suc n) [] ys h = absurd (omega arith)
take_more (suc n) (x ∷ xs) ys h = ap (λ l. x ∷ l) (take_more n xs ys (omega arith))

take_all {ℓ} : {A : Type ℓ} (n : ℕ) (xs : List A) → length xs ≤ n → take n xs ≡ xs
take_all zero [] h = refl
take_all zero (x ∷ xs) h = absurd (omega arith)
take_all (suc n) [] h = refl
take_all (suc n) (x ∷ xs) h = ap (λ l. x ∷ l) (take_all n xs (omega arith))

record_one :
    (ev : StepEvent) (log : ActionLogEntry)
    → log.name ≢ ""
    → length log.events ≤ action_log_max_events
    → ((record_action_event ev log).events ≡ take action_log_max_events (log.events ++ ev ∷ []))
      × ((record_action_event ev log).name ≡ log.name)
      × (length (record_action_event ev log).events ≤ action_log_max_events)
unfolding record_action_event
record_one ev log named room = elim (Bool-cases (leb action_log_max_events (length log.events))) [
  | inl full ↦
      let kept : take action_log_max_events (log.events ++ ev ∷ []) ≡ log.events =
        take_more action_log_max_events log.events (ev ∷ []) (ground arith)
        ∙ take_all action_log_max_events log.events room in
      (ground (arith, eq_iff log.name "", kept), ground arith, ground arith)
  | inr space ↦
      let grown : length (log.events ++ ev ∷ []) ≤ action_log_max_events =
        ground (arith, length-append {0} log.events (ev ∷ [])) in
      let kept : take action_log_max_events (log.events ++ ev ∷ []) ≡ log.events ++ ev ∷ [] =
        take_all action_log_max_events (log.events ++ ev ∷ []) grown in
      (ground (arith, eq_iff log.name "", kept), ground arith, ground (arith, grown))
]

take-take {ℓ} : {A : Type ℓ} (n : ℕ) (xs ys : List A) → take n (take n xs ++ ys) ≡ take n (xs ++ ys)
take-take zero xs ys = refl
take-take (suc n) [] ys = refl
take-take (suc n) (x ∷ xs) ys = ap (λ l. x ∷ l) (take-take n xs ys)

record_many :
    (evs : List StepEvent) (log : ActionLogEntry)
    → log.name ≢ ""
    → length log.events ≤ action_log_max_events
    → ((record_all evs log).events ≡ take action_log_max_events (log.events ++ evs))
      × ((record_all evs log).name ≡ log.name)
unfolding record_all
record_many [] log named room = (
  sym (
      take_all action_log_max_events (log.events ++ []) (rw append-nil room)
      ∙ append-nil log.events),
  refl,
)
record_many (ev ∷ evs) log named room =
    let (one, same, fits) = record_one ev log named room in
    let (rest, name) =
      record_many evs (record_action_event ev log) (λ e. named (sym same ∙ e)) fits in
    (
      rest
          ∙ ap (λ l. take action_log_max_events (l ++ evs)) one
          ∙ take-take action_log_max_events (log.events ++ ev ∷ []) evs
          ∙ ap (take action_log_max_events) (append_assoc log.events (ev ∷ []) evs),
      name ∙ same,
    )

-- A client that asks for the log after an action of some name has been finalised replays the first
-- 256 events recorded since the action began, and none of an earlier action.
pub replay_exact :
    (name : String) (started finished : Time) (outcome : String) (evs : List StepEvent)
    (before : ActionLogEntry)
    → name ≢ ""
    → let log =
        finalize_action_log outcome finished
          (record_all evs (reset_action_log name started before)) in
      (log.events ≡ take action_log_max_events evs)
      × (log.name ≡ name)
      × (log.running ≡ false)
      × (log.outcome ≡ outcome)
unfolding reset_action_log finalize_action_log
replay_exact name started finished outcome evs before named =
    let start = reset_action_log name started before in
    let (events, same) = record_many evs start named (omega arith) in
    let set : (record_all evs start).name ≢ "" = λ e. named (sym same ∙ e) in
    ground (arith, events, same, set, eq_iff (record_all evs start).name "")
