-- ===== src/Supervisor/Rollback/Effects.antt =====
-- What a rollback leaves behind (internal/supervisor/supervisor.go).
use clawmast.Prelude.{
  ℕ, suc, Time, String, true, false, none, some, List, [], ◌∷◌, ◌++◌, ◌≡◌, ◌≢◌, refl, ap, ◌∙◌,
  arith, eq_iff,
}
use clawmast.Json.{Codec, RoundTrips}
use clawmast.Blacklist.{Entry, Result, ok, contains, load, add}
use clawmast.Blacklist.Persistence.{add_then_load}
use clawmast.SelfUpdate.Marker.{delete_gate_marker}
use clawmast.Supervisor.Symlinks.{
  Links, SwapResult, swapped, no_rollback_target, swap_current_previous,
}
use clawmast.Supervisor.Symlinks.Swapping.{no_faults, swap_exchanges}
use clawmast.Supervisor.Backoff
use clawmast.Supervisor.HealthGate
use clawmast.Supervisor.HealthGate.{GateFailReason, is_active}
use clawmast.Supervisor.State.{HistoryEntry, Supervisor, Disk, LoopError}
use clawmast.Supervisor.State
use clawmast.Supervisor.Rollback.{
  rollback, after_swap, check_blacklist, blocked, rollback_for_install_health, reason_text,
}

module _ {B : Type 0} where
  -- With distinct targets and no failing call a rollback exchanges the links, starts the crash
  -- budget afresh, records itself, and lets the loop go on.
  pub rollback_succeeds :
      (d : Disk B) (s : Supervisor B) (version reason stop_msg a b : String)
      → d.swap ≡ no_faults
      → s.links.current ≡ some a
      → s.links.previous ≡ some b
      → a ≢ b
      → rollback d s version reason stop_msg ≡ (
        record s {
          links = record { current = some b; previous = some a; swap_tmp = none };
          tracker = Backoff.reset s.tracker;
          ledger =
              s.ledger
              ++ record {
                event = State.rollback;
                version = version;
                exit_code = none;
                reason = reason;
              }
                ∷ [];
        },
        none,
      )
  unfolding rollback
  rollback_succeeds d s version reason stop_msg a b calm cur prev ne =
      ground (arith, swap_exchanges s.links a b cur prev ne, calm)

module _ {B : Type 0} (json : Codec (List Entry) B) where
  -- A version that the readable blacklist holds is rolled back before the spawn.
  pub check_listed :
      (d : Disk B) (s : Supervisor B) (version : String) (es : List Entry)
      → load json d.save.read s.blacklist ≡ ok es
      → contains es version ≡ true
      → check_blacklist json d s version ≡ (
          let (s', e) =
            rollback d s version "blacklisted" "blacklisted version with no rollback target" in
          (s', blocked e))
  unfolding check_blacklist contains
  check_listed d s version es loaded listed = ground (arith, eq_iff version "")

-- How many workers a ledger says were spawned.
abbrev count_spawn : State.HistoryEvent → ℕ → ℕ
count_spawn State.spawn n = suc n
count_spawn _ n = n

abbrev pub spawns : List HistoryEntry → ℕ
spawns [] = 0
spawns (e ∷ es) = count_spawn e.event (spawns es)

pub spawns-append :
    (es : List HistoryEntry) (e : HistoryEntry)
    → spawns (es ++ e ∷ []) ≡ count_spawn e.event (spawns es)
spawns-append [] e = ground arith
spawns-append (x ∷ es) e = ground (arith, spawns-append es e)

module _ {B : Type 0} where
  spawns-after_swap :
      (s : Supervisor B) (version reason stop_msg : String) (r : Links × SwapResult)
      → spawns (after_swap s version reason stop_msg r).0.ledger ≡ spawns s.ledger
  unfolding after_swap State.record_history
  spawns-after_swap s version reason stop_msg (l, swapped) = spawns-append s.ledger _
  spawns-after_swap s version reason stop_msg (l, no_rollback_target) = spawns-append s.ledger _
  spawns-after_swap s version reason stop_msg (l, _) = refl

  -- A rollback spawns nothing, whatever fails.
  pub spawns-rollback :
      (d : Disk B) (s : Supervisor B) (version reason stop_msg : String)
      → spawns (rollback d s version reason stop_msg).0.ledger ≡ spawns s.ledger
  unfolding rollback
  spawns-rollback d s version reason stop_msg =
      spawns-after_swap s version reason stop_msg (swap_current_previous false d.swap s.links)

module _ {B : Type 0} (json : Codec (List Entry) B) where
  -- The rollback of a failed install, where the links can be swapped, the marker removed and the
  -- blacklist written: the old version is current, the install is no longer observed, and whoever
  -- loads the blacklist next finds the failed version in it.
  pub install_health_rollback :
      (laws : RoundTrips (List Entry) B json) (d : Disk B) (s : Supervisor B) (version a b : String)
      (now : Time) (why : GateFailReason) (old es : List Entry)
      → d.swap ≡ no_faults
      → d.marker_delete ≡ false
      → s.links.current ≡ some a
      → s.links.previous ≡ some b
      → a ≢ b
      → load json d.save.read s.blacklist ≡ ok old
      → (add json d.save s.blacklist now
          (record { version = version; timestamp = now; reason = reason_text why })).1
        ≡ ok es
      → let (s', e) = rollback_for_install_health json d s version now why in
        (e ≡ none)
        × (s'.links ≡ record { current = some b; previous = some a; swap_tmp = none })
        × (s'.marker.path ≡ none)
        × (is_active s'.gate ≡ false)
        × (load json false s'.blacklist ≡ ok es)
        × (contains es version ≡ true)
  unfolding rollback_for_install_health
  install_health_rollback laws d s version a b now why old es calm removed cur prev ne loaded
        added =
      let entry : Entry = record { version = version; timestamp = now; reason = reason_text why } in
      let s1 : Supervisor B = record s {
        blacklist = (add json d.save s.blacklist now entry).0;
        marker = (delete_gate_marker {0} d.marker_delete s.marker).0;
        gate = HealthGate.reset s.gate;
      } in
      let (seen, listed) =
        add_then_load B json laws d.save s.blacklist s1.blacklist now entry old es loaded
          (ap (λ (r : Result (List Entry)). (s1.blacklist, r)) added) version in
      rw (rollback_succeeds d s1 version _ _ a b calm cur prev ne) (
        refl,
        refl,
        unfold delete_gate_marker in rw removed refl,
        unfold is_active HealthGate.reset in refl,
        seen,
        listed ∙ ground (arith, eq_iff version version),
      )
