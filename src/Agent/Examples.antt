-- ===== src/Agent/Examples.antt =====
-- Requests to the worker on concrete files (internal/agent).
use clawmast.Prelude.{
  ℕ, ◌*◌, true, false, ◌&&◌, none, some, List, [], ◌∷◌, ◌≡◌, ◌≢◌, ◌↔◌, ◌⊎◌, refl, str_eq,
  starts_with, second,
}
use Prim.Native.String.{◌++◌ as str_append}
use clawmast.Strings.{trim_space, trim_left, trim_right, is_space, to_lower, letter_at}
use clawmast.Blacklist.{Entry, BlacklistFile, ok as listed_ok, contains, load, add, upsert}
use clawmast.Blacklist.Examples
use clawmast.Supervisor.Backoff.{new_backoff, new_tracker}
use clawmast.Supervisor.HealthGate.{new_health_gate}
use clawmast.Supervisor.Symlinks.Swapping.{no_faults}
use clawmast.Supervisor.State.{Supervisor, Disk}
use clawmast.Supervisor.Rollback.{rollback, blocked, check_blacklist}
use clawmast.Supervisor.ExitCode.{classify_exit_code, from_process_state, exited}
use clawmast.Supervisor.ExitCode
use clawmast.Agent.Server.{Config, replied, refused, new_server}
use clawmast.Agent.Channel.{
  ChannelFile, ChannelFaults, validate_channel, write_valid, write_channel_preference,
  resolve_channel,
}
use clawmast.Agent.Settings.{
  ChannelSetResponse, request, handle_channel_get, handle_channel_set, set_body, set_written,
  active_channel, unreadable,
}
use clawmast.Agent.Settings.Switching.{switch_takes_effect, refusal_keeps}
use clawmast.Agent.Access.{
  Token, Request, served, Net, is_loopback, public_handler, TokenFaults, ok, generate, load_file,
  load_or_create_token, hex_encode, hex_digit,
}
use clawmast.Agent.Access.Admission.{served_iff}
use clawmast.Agent.Access.Persistence.{token_persists}
use clawmast.Agent.Blocking.{
  AddResponse, no_body, handle_blacklist_add, add_body, add_request, added, rollback_asked,
  exit_code,
}
use clawmast.Agent.Blocking.Marking.{marked_bad}

abbrev config : Config
config = record {
  install_root = "/home/u/.clawmast";
  request_rollback = true;
  request_restart = true;
  update_base_url = "https://example.org";
  update_channel = "stable";
  token = "cafe";
  state_dir = "/home/u/.clawmast/state";
}

abbrev no_channel : ChannelFile
no_channel = record { path = none; tmp = none }

abbrev channel_fine : ChannelFaults
channel_fine = record {
  mkdir = false;
  write = false;
  debris = none;
  rename = false;
  cleanup = false;
}

abbrev switched : ChannelSetResponse
switched = record {
  active = "stable";
  preference = "beta";
  restart_required = true;
  restart_requested = true;
}

switch_done :
    (handle_channel_set config channel_fine no_channel (request " Beta" true)).1
    ≡ replied 200 switched
unfolding handle_channel_set set_body set_written active_channel write_channel_preference
    write_valid validate_channel trim_space trim_left trim_right is_space to_lower letter_at
switch_done = refl

switch_takes_effect_example :
    let left = (handle_channel_set config channel_fine no_channel (request " Beta" true)).0 in
    handle_channel_get
      (new_server
        (record config { update_channel = (resolve_channel false false left "stable" "stable").0 }))
      false
      left
    ≡ replied 200 (record { active = "beta"; preference = "beta"; restart_required = false })
switch_takes_effect_example =
    switch_takes_effect config channel_fine no_channel " Beta" true 200 switched "stable" "stable"
      switch_done

refused_body : (handle_channel_set config channel_fine no_channel unreadable).1 ≡ refused 400
unfolding handle_channel_set set_body
refused_body = refl

refusal_keeps_example :
    let reply = handle_channel_set config channel_fine no_channel unreadable in
    (reply.0.path ≡ none)
    × (reply.2 ≡ false)
    × (((config.state_dir ≡ "") × (◌≡◌ {A = ℕ} 400 503))
        ⊎ ((config.state_dir ≢ "") × ((◌≡◌ {A = ℕ} 400 400) ⊎ (◌≡◌ {A = ℕ} 400 500))))
refusal_keeps_example = refusal_keeps config channel_fine no_channel unreadable 400 refused_body

abbrev token : Token
token = record { value = "cafe"; stored = true; generated = false }

abbrev net : Net
net = record { split_host_port = λ addr. none; parse_ip = λ host. some (str_eq host "127.0.0.1") }

abbrev remote : Request
remote = record {
  path = "/api/updates/install";
  remote_addr = "192.0.2.7";
  authorization = "Bearer cafe";
}

served_iff_example : (public_handler net token remote ≡ served) ↔ (
    (token.value ≡ "")
    ⊎ (remote.path ≡ "/api/health")
    ⊎ (is_loopback net remote ≡ true)
    ⊎ (starts_with remote.path "/api/" ≡ false)
    ⊎ (remote.authorization ≡ str_append "Bearer " token.value))
served_iff_example = served_iff net token remote

abbrev token_fine : TokenFaults
token_fine = record { read = false; rand = false; mkdir = false; write = false; debris = none }

abbrev made : Token
made = record { value = "ca0f"; stored = true; generated = true }

generated : load_or_create_token "" false token_fine (202 ∷ 15 ∷ []) none ≡ (some "ca0f\n", ok made)
unfolding load_or_create_token load_file generate hex_encode hex_digit letter_at trim_space
    trim_left trim_right
generated = refl

some_bytes : ◌≢◌ {A = List ℕ} (202 ∷ 15 ∷ []) []
some_bytes = λ e. cc

no_text : trim_space "" ≡ ""
unfolding trim_space trim_left trim_right
no_text = refl

token_persists_example :
    load_or_create_token "" false token_fine (1 ∷ []) (some "ca0f\n")
    ≡ (some "ca0f\n", ok (record made { generated = false }))
token_persists_example =
    token_persists "" "" token_fine token_fine (202 ∷ 15 ∷ []) (1 ∷ []) none (some "ca0f\n") made
      some_bytes no_text no_text refl generated

abbrev marked : AddResponse
marked = record {
  entries =
      Examples.old_bad ∷ record { version = "v2"; timestamp = 9; reason = "user-marked-bad" } ∷ [];
  marked_version = "v2";
  reason = "user-marked-bad";
  rollback_requested = true;
}

abbrev reply_file : BlacklistFile (List Entry)
reply_file =
    (handle_blacklist_add Examples.plain config Examples.fine 9 "v2" Examples.stored no_body).0

added_now :
    (handle_blacklist_add Examples.plain config Examples.fine 9 "v2" Examples.stored no_body).1
    ≡ replied 202 marked
unfolding handle_blacklist_add add_body add_request added add upsert
added_now = refl

abbrev disk : Disk (List Entry)
disk = record { swap = no_faults; save = Examples.fine; marker_read = false; marker_delete = false }

abbrev supervisor : Supervisor (List Entry)
supervisor = record {
  start_timeout = 30 * second;
  watchdog_interval = 30 * second;
  tracker = new_tracker new_backoff;
  gate = new_health_gate 0 0;
  links = record { current = some "versions/v2"; previous = some "versions/v1"; swap_tmp = none };
  blacklist = reply_file;
  marker = record { path = none; tmp = none };
  ledger = [];
}

marked_bad_example :
    (load Examples.plain false reply_file ≡ listed_ok marked.entries)
    × (contains marked.entries "v2" ≡ true)
    × (check_blacklist Examples.plain disk supervisor "v2" ≡ (
        let (s', e) =
          rollback disk supervisor "v2" "blacklisted"
            "blacklisted version with no rollback target" in
        (s', blocked e)))
    × ((handle_blacklist_add Examples.plain config Examples.fine 9 "v2" Examples.stored no_body).2
        ≡ (str_eq "v2" "v2" && true))
    × (classify_exit_code (from_process_state (exited (exit_code rollback_asked)))
        ≡ ExitCode.rollback)
marked_bad_example =
    marked_bad Examples.plain Examples.plain-RoundTrips config Examples.fine 9 "v2" Examples.stored
      no_body 202 marked disk supervisor added_now refl refl
