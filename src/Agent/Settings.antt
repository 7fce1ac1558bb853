-- ===== src/Agent/Settings.antt =====
-- internal/agent/handlers_channel.go: reading and choosing the update channel over HTTP.
pub mod Switching
use clawmast.Prelude.{ℕ, String, Bool, true, false, not, ◌&&◌, if◌then◌else◌, str_eq}
use clawmast.Agent.Channel.{
  ChannelFile, ChannelFaults, ChannelError, unknown_channel, ChannelResult, ok, err, channel_stable,
  read_channel_preference, write_channel_preference,
}
use clawmast.Agent.Server.{Config, Reply, refused, replied}

-- The list of the channels on offer is left out, since it is always the same.
pub record ChannelResponse : Type 0 where
  pub active : String
  pub preference : String
  pub restart_required : Bool

pub record ChannelSetResponse : Type 0 where
  pub active : String
  pub preference : String
  pub restart_required : Bool
  pub restart_requested : Bool

-- The body of a POST: one that cannot be read or decoded, or a ChannelSetRequest.
pub data SetBody : Type 0 where
  unreadable invalid : SetBody
  request : String → Bool → SetBody

unfoldable pub active_channel : Config → String
active_channel cfg = if str_eq cfg.update_channel "" then channel_stable else cfg.update_channel

unfoldable pub shown_preference : ChannelResult → String
shown_preference (ok p) = p
shown_preference (err e) = ""

-- handleChannelGet; the flag says that reading the file fails.
unfoldable pub handle_channel_get : Config → Bool → ChannelFile → Reply ChannelResponse
unfolding active_channel shown_preference
handle_channel_get cfg fault file =
    let active = active_channel cfg in
    let no_dir = str_eq cfg.state_dir "" in
    let pref =
      if no_dir then "" else shown_preference (read_channel_preference no_dir fault file) in
    replied 200 (record {
      active = active;
      preference = pref;
      restart_required = not (str_eq pref "") && not (str_eq pref active);
    })

abbrev pub error_status : ChannelError → ℕ
error_status unknown_channel = 400
error_status _ = 500

-- The end of handleChannelSet; the last component says that RequestRestart is called.
unfoldable pub set_written :
    Config → Bool → ChannelFile × ChannelResult → ChannelFile × Reply ChannelSetResponse × Bool
unfolding active_channel
set_written cfg restart (file, err e) = (file, refused (error_status e), false)
set_written cfg restart (file, ok pref) =
    let active = active_channel cfg in
    let required = not (str_eq pref active) in
    let requested = restart && required && cfg.request_restart in
    (
      file,
      replied 200 (record {
        active = active;
        preference = pref;
        restart_required = required;
        restart_requested = requested;
      }),
      requested,
    )

unfoldable pub set_body :
    Config → ChannelFaults → ChannelFile → SetBody → ChannelFile × Reply ChannelSetResponse × Bool
unfolding set_written
set_body cfg f file unreadable = (file, refused 400, false)
set_body cfg f file invalid = (file, refused 400, false)
set_body cfg f file (request channel restart) =
    set_written cfg restart (write_channel_preference (str_eq cfg.state_dir "") f file channel)

-- handleChannelSet
unfoldable pub handle_channel_set :
    Config → ChannelFaults → ChannelFile → SetBody → ChannelFile × Reply ChannelSetResponse × Bool
unfolding set_body
handle_channel_set cfg f file body =
    if str_eq cfg.state_dir "" then (file, refused 503, false) else set_body cfg f file body
