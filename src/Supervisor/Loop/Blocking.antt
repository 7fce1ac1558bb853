-- ===== src/Supervisor/Loop/Blocking.antt =====
-- The blacklist and the main loop (internal/supervisor/loop.go, supervisor.go).
use clawmast.Prelude.{
  ◌+◌, String, true, false, Option, none, some, List, [], ◌∷◌, ◌++◌, ◌≡◌, ◌≢◌, refl, sym, ◌∙◌,
  arith, ◌⊎◌, inl, inr, ap, length, length-append, All, Bool-cases, if◌then◌else◌,
}
use clawmast.Json.{Codec}
use clawmast.Blacklist.{Entry, ok, contains, load}
use clawmast.SelfUpdate.Marker.{GateMarker}
use clawmast.Supervisor.Backoff
use clawmast.Supervisor.Symlinks.Swapping.{no_faults}
use clawmast.Supervisor.State.{HistoryEntry, Supervisor, Disk, LoopError}
use clawmast.Supervisor.State
use clawmast.Supervisor.Rollback.{rollback, blocked}
use clawmast.Supervisor.Rollback.Effects.{
  check_listed, rollback_succeeds, spawns, spawns-rollback, spawns-append,
}
use clawmast.Supervisor.Loop.{
  Script, Next, again, returned, spawn_if, turn_with, loop_turn, loop_turns,
}

abbrev blacklisted_rollback :
    {B : Type 0} → Disk B → Supervisor B → String → Supervisor B × Option LoopError
blacklisted_rollback d s version =
    rollback d s version "blacklisted" "blacklisted version with no rollback target"

module _ {B : Type 0} (base : String → String) (entries_json : Codec (List Entry) B)
    (marker_json : Codec GateMarker B) where
  blocked_turn :
      (sc : Script B) (s : Supervisor B) (t : String) (es : List Entry)
      → sc.cancelled ≡ false
      → s.links.current ≡ some t
      → load entries_json sc.disk.save.read s.blacklist ≡ ok es
      → contains es (base t) ≡ true
      → loop_turn base entries_json marker_json sc s ≡ (
          let (s', e) = blacklisted_rollback sc.disk s (base t) in
          spawn_if base entries_json marker_json sc (base t) (s', blocked e))
  unfolding loop_turn
  blocked_turn sc s t es live cur loaded listed =
      ap
        (λ c.
          if c
          then (s, returned none)
          else turn_with base entries_json marker_json sc s s.links.current)
        live
      ∙ ap (turn_with base entries_json marker_json sc s) cur
      ∙ ap (spawn_if base entries_json marker_json sc (base t))
          (check_listed entries_json sc.disk s (base t) es loaded listed)

  spawn_if_blocked :
      (sc : Script B) (version : String) (s : Supervisor B) (e : Option LoopError)
      → ((spawn_if base entries_json marker_json sc version (s, blocked e)).0 ≡ s)
        × (((spawn_if base entries_json marker_json sc version (s, blocked e)).1 ≡ again)
            ⊎ ((spawn_if base entries_json marker_json sc version (s, blocked e)).1 ≡ returned e))
  unfolding spawn_if
  spawn_if_blocked sc version s none = (refl, inl refl)
  spawn_if_blocked sc version s (some e) = (refl, inr refl)

  cancelled_turn :
      (sc : Script B) (s : Supervisor B)
      → sc.cancelled ≡ true
      → loop_turn base entries_json marker_json sc s ≡ (s, returned none)
  unfolding loop_turn
  cancelled_turn sc s c =
      ap
        (λ b.
          if b
          then (s, returned none)
          else turn_with base entries_json marker_json sc s s.links.current)
        c

  -- While the blacklist can be read, a turn whose `current` is a blacklisted version spawns no
  -- worker, whatever else fails: it goes to the next turn at once, or the loop returns.
  pub blacklisted_not_spawned :
      (sc : Script B) (s : Supervisor B) (t : String) (es : List Entry)
      → s.links.current ≡ some t
      → load entries_json sc.disk.save.read s.blacklist ≡ ok es
      → contains es (base t) ≡ true
      → let (s', next) = loop_turn base entries_json marker_json sc s in
        (spawns s'.ledger ≡ spawns s.ledger)
        × ((next ≡ again) ⊎ ((e : Option LoopError) × (next ≡ returned e)))
  blacklisted_not_spawned sc s t es cur loaded listed =
      let r = blacklisted_rollback sc.disk s (base t) in
      let (same, next) = spawn_if_blocked sc (base t) r.0 r.1 in
      elim (Bool-cases sc.cancelled) [
        | inl over ↦ rw (cancelled_turn sc s over) (refl, inr (none, refl))
        | inr live ↦ rw (blocked_turn sc s t es live cur loaded listed) (
          ap (λ (x : Supervisor B). spawns x.ledger) same
              ∙ spawns-rollback sc.disk s (base t) "blacklisted"
                  "blacklisted version with no rollback target",
          elim next [ inl go ↦ inl go | inr stop ↦ inr (r.1, stop) ],
        )
      ]

  abbrev pub IsCalm : Script B → Type 0
  IsCalm sc = (sc.disk.swap ≡ no_faults) × (sc.disk.save.read ≡ false) × (sc.cancelled ≡ false)

  -- The state after a rollback for a blacklisted version.
  abbrev bounced : Supervisor B → String → String → Supervisor B
  bounced s a b = record s {
    links = record { current = some b; previous = some a; swap_tmp = none };
    tracker = Backoff.reset s.tracker;
    ledger =
        s.ledger
        ++ record {
          event = State.rollback;
          version = base a;
          exit_code = none;
          reason = "blacklisted";
        }
          ∷ [];
  }

  bounce :
      (sc : Script B) (s : Supervisor B) (a b : String) (es : List Entry)
      → IsCalm sc
      → s.links.current ≡ some a
      → s.links.previous ≡ some b
      → a ≢ b
      → load entries_json false s.blacklist ≡ ok es
      → contains es (base a) ≡ true
      → loop_turn base entries_json marker_json sc s ≡ (bounced s a b, again)
  unfolding spawn_if
  bounce sc s a b es calm cur prev ne loaded listed =
      blocked_turn sc s a es calm.2 cur (rw calm.1 loaded) listed
      ∙ ap
          (λ (r : Supervisor B × Option LoopError).
            spawn_if base entries_json marker_json sc (base a) (r.0, blocked r.1))
          (rollback_succeeds sc.disk s (base a) "blacklisted"
            "blacklisted version with no rollback target" a b calm.0 cur prev ne)

  loop_turns_again :
      (sc : Script B) (scs : List (Script B)) (s s' : Supervisor B)
      → loop_turn base entries_json marker_json sc s ≡ (s', again)
      → loop_turns base entries_json marker_json (sc ∷ scs) s
        ≡ loop_turns base entries_json marker_json scs s'
  unfolding loop_turns
  loop_turns_again sc scs s s' e =
      rw (e, loop_turns)
        (ap (λ (r : Supervisor B × Next). loop_turns base entries_json marker_json scs r.0) e)

  -- Where `current` and `previous` are two blacklisted versions, the swap and the reading of the list
  -- do not fail and the list stays as it is, then until the supervisor is told to stop the loop never
  -- spawns a worker, never waits and never returns: however many turns it makes, each adds one more
  -- rollback to the ledger and goes on to the next at once.
  pub both_blacklisted_spins :
      (scs : List (Script B)) (s : Supervisor B) (a b : String) (es : List Entry)
      → All IsCalm scs
      → s.links.current ≡ some a
      → s.links.previous ≡ some b
      → a ≢ b
      → load entries_json false s.blacklist ≡ ok es
      → contains es (base a) ≡ true
      → contains es (base b) ≡ true
      → let (s', next) = loop_turns base entries_json marker_json scs s in
        (next ≡ again)
        × (spawns s'.ledger ≡ spawns s.ledger)
        × (length s'.ledger ≡ length s.ledger + length scs)
  both_blacklisted_spins [] s a b es calm cur prev ne loaded one two =
      unfold loop_turns in (refl, refl, omega arith)
  both_blacklisted_spins (sc ∷ scs) s a b es calm cur prev ne loaded one two =
      let (next, spawned, grows) =
        both_blacklisted_spins scs (bounced s a b) b a es calm.1 refl refl (λ e. ne (sym e)) loaded
          two one in
      rw
        (loop_turns_again sc scs s (bounced s a b)
          (bounce sc s a b es calm.0 cur prev ne loaded one))
        (
          next,
          spawned ∙ spawns-append s.ledger _,
          omega (
            arith,
            grows,
            length-append {0} s.ledger (
                record {
                  event = State.rollback;
                  version = base a;
                  exit_code = none;
                  reason = "blacklisted";
                }
                ∷ []),
          ),
        )
