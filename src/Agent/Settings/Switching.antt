-- ===== src/Agent/Settings/Switching.antt =====
-- What a change of the channel over HTTP leads to (internal/agent/handlers_channel.go).
use clawmast.Prelude.{
  ℕ, String, Bool, false, not, ◌&&◌, ◌≡◌, ◌≢◌, ◌⊎◌, inl, inr, Bool-cases, refl, ap, arith, str_eq,
  eq_iff,
}
use clawmast.Agent.Channel.{
  ChannelFile, ChannelFaults, ChannelError, ChannelResult, ok, err, read_channel_preference,
  write_channel_preference, resolve_channel, ChannelSource,
}
use clawmast.Agent.Channel.Preference.{IsChannel, write_then_resolve, write_fails}
use clawmast.Agent.Server.{Config, refused, replied, new_server}
use clawmast.Agent.Settings.{
  ChannelSetResponse, SetBody, unreadable, invalid, request, active_channel, shown_preference,
  handle_channel_get, error_status, set_written, set_body, handle_channel_set,
}

-- What a reply of success tells of the write behind it.
set_written_ok :
    (cfg : Config) (restart : Bool) (w : ChannelFile × ChannelResult) (status : ℕ)
    (r : ChannelSetResponse)
    → let reply = set_written cfg restart w in
      reply.1 ≡ replied status r
      → (w ≡ (reply.0, ok r.preference))
        × (r.restart_required ≡ not (str_eq r.preference (active_channel cfg)))
        × (reply.2 ≡ (restart && r.restart_required && cfg.request_restart))
unfolding set_written
set_written_ok cfg restart (file, err e) status r h = absurd (ground (arith, h))
set_written_ok cfg restart (file, ok pref) status r h = ground (arith, h)

set_ok :
    (cfg : Config) (f : ChannelFaults) (file : ChannelFile) (name : String) (restart : Bool)
    (status : ℕ) (r : ChannelSetResponse)
    → let reply = handle_channel_set cfg f file (request name restart) in
      reply.1 ≡ replied status r
      → (str_eq cfg.state_dir "" ≡ false)
        × (write_channel_preference (str_eq cfg.state_dir "") f file name
            ≡ (reply.0, ok r.preference))
        × (r.restart_required ≡ not (str_eq r.preference (active_channel cfg)))
        × (reply.2 ≡ (restart && r.restart_required && cfg.request_restart))
unfolding handle_channel_set set_body
set_ok cfg f file name restart status r h = elim (Bool-cases (str_eq cfg.state_dir "")) [
  | inl no_dir ↦ absurd (ground (arith, h, no_dir))
  | inr dir ↦
      let (wrote, required, fired) =
        set_written_ok cfg restart (write_channel_preference false f file name) status r
          (rw dir at h) in
      rw dir (refl, wrote, required, fired)
]

shown_twice :
    (cfg : Config) (n : String) (file : ChannelFile)
    → str_eq cfg.state_dir "" ≡ false
    → IsChannel n
    → cfg.update_channel ≡ n
    → read_channel_preference (str_eq cfg.state_dir "") false file ≡ ok n
    → handle_channel_get (new_server cfg) false file
      ≡ replied 200 (record { active = n; preference = n; restart_required = false })
unfolding handle_channel_get new_server active_channel shown_preference
shown_twice cfg n file dir (inl e) set read = rw (set, read, dir) (rw e refl)
shown_twice cfg n file dir (inr e) set read = rw (set, read, dir) (rw e refl)

-- Once a choice of a channel was answered with success, a worker that starts with the files that it
-- left, whatever its environment says, has the chosen channel as its active one: it reports it as active
-- and as the preference, and asks for no restart.
pub switch_takes_effect :
    (cfg : Config) (f : ChannelFaults) (file : ChannelFile) (name : String) (restart : Bool)
    (status : ℕ) (r : ChannelSetResponse) (env fallback : String)
    → let reply = handle_channel_set cfg f file (request name restart) in
      reply.1 ≡ replied status r
      → let started = record cfg {
        update_channel = (resolve_channel (str_eq cfg.state_dir "") false reply.0 env fallback).0;
      } in
        handle_channel_get (new_server started) false reply.0
        ≡ replied 200
            (record { active = r.preference; preference = r.preference; restart_required = false })
switch_takes_effect cfg f file name restart status r env fallback h =
    let reply = handle_channel_set cfg f file (request name restart) in
    let (dir, wrote, required, fired) = set_ok cfg f file name restart status r h in
    let (channel, normal, read, chosen) =
      write_then_resolve (str_eq cfg.state_dir "") f file reply.0 name r.preference env fallback
        wrote in
    shown_twice
      (record cfg {
        update_channel = (resolve_channel (str_eq cfg.state_dir "") false reply.0 env fallback).0;
      })
      r.preference reply.0 dir channel (ap (λ (p : String × ChannelSource). p.0) chosen) read

set_written_error :
    (cfg : Config) (restart : Bool) (w : ChannelFile × ChannelResult) (status : ℕ)
    → (set_written cfg restart w).1 ≡ refused status
    → (e : ChannelError) × (w ≡ ((set_written cfg restart w).0, err e))
      × (status ≡ error_status e)
      × ((set_written cfg restart w).2 ≡ false)
unfolding set_written
set_written_error cfg restart (file, err e) status h = (e, refl, ground (arith, h), refl)
set_written_error cfg restart (file, ok pref) status h = absurd (ground (arith, h))

either_status :
    (e : ChannelError) (status : ℕ) → status ≡ error_status e → (status ≡ 400) ⊎ (status ≡ 500)
either_status ChannelError.unknown_channel status h = inl h
either_status ChannelError.state_dir_unknown status h = inr h
either_status ChannelError.read_failed status h = inr h
either_status ChannelError.mkdir_failed status h = inr h
either_status ChannelError.write_failed status h = inr h
either_status ChannelError.rename_failed status h = inr h

set_body_error :
    (cfg : Config) (f : ChannelFaults) (file : ChannelFile) (body : SetBody) (status : ℕ)
    → (set_body cfg f file body).1 ≡ refused status
    → ((set_body cfg f file body).0.path ≡ file.path)
      × ((set_body cfg f file body).2 ≡ false)
      × ((status ≡ 400) ⊎ (status ≡ 500))
unfolding set_body
set_body_error cfg f file unreadable status h = ground (arith, h)
set_body_error cfg f file invalid status h = ground (arith, h)
set_body_error cfg f file (request name restart) status h =
    let w = write_channel_preference (str_eq cfg.state_dir "") f file name in
    let (e, failed, code, quiet) = set_written_error cfg restart w status h in
    (
      write_fails (str_eq cfg.state_dir "") f file (set_written cfg restart w).0 name e failed,
      quiet,
      either_status e status code,
    )

-- A choice that is refused leaves the preference as it was and restarts nothing. It is answered with
-- 503 just when no state directory is known, and otherwise with 400 or 500.
pub refusal_keeps :
    (cfg : Config) (f : ChannelFaults) (file : ChannelFile) (body : SetBody) (status : ℕ)
    → let reply = handle_channel_set cfg f file body in
      reply.1 ≡ refused status
      → (reply.0.path ≡ file.path)
        × (reply.2 ≡ false)
        × (((cfg.state_dir ≡ "") × (status ≡ 503))
            ⊎ ((cfg.state_dir ≢ "") × ((status ≡ 400) ⊎ (status ≡ 500))))
unfolding handle_channel_set
refusal_keeps cfg f file body status h = elim (Bool-cases (str_eq cfg.state_dir "")) [
  | inl no_dir ↦ rw no_dir (
    refl,
    refl,
    inl (ground (arith, no_dir, eq_iff cfg.state_dir ""), ground (arith, rw no_dir at h)),
  )
  | inr dir ↦
      let (kept, quiet, code) = set_body_error cfg f file body status (rw dir at h) in
      rw dir (kept, quiet, inr (ground (arith, dir, eq_iff cfg.state_dir ""), code))
]
