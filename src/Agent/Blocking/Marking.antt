-- ===== src/Agent/Blocking/Marking.antt =====
-- A version that the operator marks as bad (internal/agent/blacklist.go, cmd/clawmast/run.go,
-- internal/supervisor/supervisor.go).
use clawmast.Prelude.{
  ℕ, Time, String, true, false, ◌&&◌, List, ◌≡◌, ◌≢◌, inl, inr, refl, sym, ap, ◌∙◌, arith,
  Bool-cases, str_eq, eq_iff, if◌then◌else◌,
}
use clawmast.Json.{Codec, RoundTrips}
use clawmast.Blacklist.{Entry, BlacklistFile, Faults, Result, ok, err, contains, load, add}
use clawmast.Blacklist.Persistence.{add_then_load, add-loads}
use clawmast.Supervisor.State.{Supervisor, Disk}
use clawmast.Supervisor.Rollback.{blocked, rollback, check_blacklist}
use clawmast.Supervisor.Rollback.Effects.{check_listed}
use clawmast.Supervisor.ExitCode.{classify_exit_code, from_process_state, exited}
use clawmast.Supervisor.ExitCode
use clawmast.Agent.Server.{Config, replied}
use clawmast.Agent.Blocking.{
  AddRequest, AddBody, no_body, bad_body, body, AddResponse, added, add_request, add_body,
  handle_blacklist_add, rollback_asked, exit_code,
}

module _ {B : Type 0} (json : Codec (List Entry) B) where
  added_ok :
      (cfg : Config) (label target reason : String) (w : BlacklistFile B × Result (List Entry))
      (status : ℕ) (r : AddResponse)
      → (added json cfg label target reason w).1 ≡ replied status r
      → (w ≡ ((added json cfg label target reason w).0, ok r.entries))
        × (r.marked_version ≡ target)
        × (r.rollback_requested ≡ (str_eq target label && cfg.request_rollback))
        × ((added json cfg label target reason w).2 ≡ r.rollback_requested)
  unfolding added
  added_ok cfg label target reason (file, err e) status r h = absurd (ground (arith, h))
  added_ok cfg label target reason (file, ok entries) status r h = ground (arith, h)

  -- What a reply of success tells of the entry that was added.
  handled_ok :
      (cfg : Config) (f : Faults B) (now : Time) (label : String) (file : BlacklistFile B)
      (req : AddRequest) (status : ℕ) (r : AddResponse)
      → let reply = add_request json cfg f now label file req in
        reply.1 ≡ replied status r
        → (e : Entry) × (add json f file now e ≡ (reply.0, ok r.entries))
          × (e.version ≡ r.marked_version)
          × (r.marked_version ≡ (if str_eq req.version "" then label else req.version))
          × (r.marked_version ≢ "")
          × (reply.2 ≡ (str_eq r.marked_version label && cfg.request_rollback))
  unfolding add_request
  handled_ok cfg f now label file req status r h =
      let target = if str_eq req.version "" then label else req.version in
      let reason = if str_eq req.reason "" then "user-marked-bad" else req.reason in
      let e : Entry = record { version = target; timestamp = 0; reason = reason } in
      elim (Bool-cases (str_eq target "")) [
        | inl empty ↦ absurd (ground (arith, h, empty))
        | inr filled ↦
            let (wrote, named, asked, fired) =
              added_ok cfg label target reason (add json f file now e) status r (rw filled at h) in
            rw filled (
              e,
              wrote,
              sym named,
              named,
              ground (arith, named, filled, eq_iff target ""),
              fired ∙ asked ∙ ap (λ t. str_eq t label && cfg.request_rollback) (sym named),
            )
      ]

  -- The version that a reply of success names is blocked for every later reader.
  marked_blocked :
      (laws : RoundTrips (List Entry) B json) (cfg : Config) (f : Faults B) (now : Time)
      (label : String) (file : BlacklistFile B) (req : AddRequest) (status : ℕ) (r : AddResponse)
      → let reply = add_request json cfg f now label file req in
        reply.1 ≡ replied status r
        → (load json false reply.0 ≡ ok r.entries) × (contains r.entries r.marked_version ≡ true)
  marked_blocked laws cfg f now label file req status r h =
      let reply = add_request json cfg f now label file req in
      let (e, wrote, same, given, filled, fired) = handled_ok cfg f now label file req status r h in
      let (old, read) = add-loads B json f now file reply.0 e r.entries wrote in
      let (kept, all) =
        add_then_load B json laws f file reply.0 now e old r.entries read wrote r.marked_version in
      (kept, ground (arith, all, same, eq_iff e.version r.marked_version))

  -- The request that a body stands for.
  request_of :
      (cfg : Config) (f : Faults B) (now : Time) (label : String) (file : BlacklistFile B)
      (b : AddBody) (status : ℕ) (r : AddResponse)
      → (handle_blacklist_add json cfg f now label file b).1 ≡ replied status r
      → (req : AddRequest) × (handle_blacklist_add json cfg f now label file b
          ≡ add_request json cfg f now label file req)
  unfolding handle_blacklist_add add_body
  request_of cfg f now label file no_body status r h =
      (record { version = ""; reason = "" }, ground (arith, h))
  request_of cfg f now label file bad_body status r h = absurd (ground (arith, h))
  request_of cfg f now label file (body req) status r h = (req, ground (arith, h))

  -- Let a request to block a version be answered with success, whether or not the worker's rollback hook
  -- is wired. Then whoever loads the blacklist finds the entries of the reply, which block the version
  -- that it names, and a supervisor that can read the file rolls back instead of spawning that version. The worker is asked to roll back exactly if
  -- the version is its own and the hook is wired, and the supervisor takes the code with which it
  -- then exits for a rollback.
  pub marked_bad :
      (laws : RoundTrips (List Entry) B json) (cfg : Config) (f : Faults B) (now : Time)
      (label : String) (file : BlacklistFile B) (b : AddBody) (status : ℕ) (r : AddResponse)
      (d : Disk B) (s : Supervisor B)
      → let reply = handle_blacklist_add json cfg f now label file b in
        reply.1 ≡ replied status r
        → s.blacklist ≡ reply.0
        → d.save.read ≡ false
        → (load json false reply.0 ≡ ok r.entries)
          × (contains r.entries r.marked_version ≡ true)
          × (check_blacklist json d s r.marked_version ≡ (
              let (s', e) =
                rollback d s r.marked_version "blacklisted"
                  "blacklisted version with no rollback target" in
              (s', blocked e)))
          × (reply.2 ≡ (str_eq r.marked_version label && cfg.request_rollback))
          × (classify_exit_code (from_process_state (exited (exit_code rollback_asked)))
              ≡ ExitCode.rollback)
  unfolding classify_exit_code from_process_state exit_code
  marked_bad laws cfg f now label file b status r d s h same readable =
      let (req, e) = request_of cfg f now label file b status r h in
      let reply = add_request json cfg f now label file req in
      let h' : reply.1 ≡ replied status r = rw e at h in
      let (kept, there) = marked_blocked laws cfg f now label file req status r h' in
      let (entry, wrote, named, given, filled, fired) =
        handled_ok cfg f now label file req status r h' in
      let read : load json d.save.read s.blacklist ≡ ok r.entries = rw (same, e, readable) kept in
      rw e (kept, there, check_listed json d s r.marked_version r.entries read there, fired, refl)
