-- ===== src/Agent/Channel.antt =====
-- internal/agent/channel.go: the operator's choice of an update channel, kept in a file.
pub mod Preference
use Prim.Native.String.{◌++◌ as str_append}
use clawmast.Prelude.{
  String, Bool, true, false, not, ◌||◌, Option, none, some, if◌then◌else◌, str_eq,
}
use clawmast.Strings.{trim_space, to_lower}

abbrev pub channel_stable : String
channel_stable = "stable"

abbrev pub channel_beta : String
channel_beta = "beta"

-- The file of the preference, and its staging file.
pub record ChannelFile : Type 0 where
  pub path : Option String
  pub tmp : Option String

pub data ChannelError : Type 0 where
  unknown_channel state_dir_unknown read_failed mkdir_failed write_failed rename_failed :
      ChannelError

pub data ChannelResult : Type 0 where
  ok : String → ChannelResult
  err : ChannelError → ChannelResult

-- The calls that fail. `debris` is what a write of the staging file leaves when it fails, and `cleanup`
-- says that the staging file cannot be removed.
pub record ChannelFaults : Type 0 where
  pub mkdir : Bool
  pub write : Bool
  pub debris : Option String
  pub rename : Bool
  pub cleanup : Bool

-- ValidateChannel
unfoldable pub validate_channel : String → ChannelResult
validate_channel name =
    let n = to_lower (trim_space name) in
    if str_eq n channel_stable || str_eq n channel_beta then ok n else err unknown_channel

-- No preference is kept for contents that are not a channel.
unfoldable pub preferred : ChannelResult → ChannelResult
preferred (ok n) = ok n
preferred (err e) = ok ""

unfoldable pub read_contents : Option String → ChannelResult
unfolding preferred
read_contents none = ok ""
read_contents (some raw) = preferred (validate_channel raw)

-- ReadChannelPreference; the first flag says that stateDir is empty, and the second that the read of
-- a file that is there fails.
unfoldable pub read_channel_preference : Bool → Bool → ChannelFile → ChannelResult
unfolding read_contents
read_channel_preference no_dir fault file = if no_dir then ok "" else elim file.path [
  | none ↦ ok ""
  | some raw ↦ if fault then err read_failed else read_contents (some raw)
]

unfoldable pub write_valid :
    ChannelFaults → ChannelFile → ChannelResult → ChannelFile × ChannelResult
write_valid f file (err e) = (file, err e)
write_valid f file (ok n) =
    if f.mkdir
    then (file, err mkdir_failed)
    else if f.write
    then (record file { tmp = f.debris }, err write_failed)
    else let line = str_append n "\n" in
      if f.rename
      then (record file { tmp = if f.cleanup then some line else none }, err rename_failed)
      else (record file { path = some line; tmp = none }, ok n)

-- WriteChannelPreference
unfoldable pub write_channel_preference :
    Bool → ChannelFaults → ChannelFile → String → ChannelFile × ChannelResult
unfolding write_valid
write_channel_preference no_dir f file name =
    if no_dir then (file, err state_dir_unknown) else write_valid f file (validate_channel name)

-- Where a resolved channel comes from.
pub data ChannelSource : Type 0 where
  from_preference_file from_env from_default : ChannelSource

unfoldable pub or_default : String → String × ChannelSource
or_default fallback = (if str_eq fallback "" then channel_stable else fallback, from_default)

unfoldable pub from_env_or : ChannelResult → String → String × ChannelSource
unfolding or_default
from_env_or (ok v) fallback = (v, from_env)
from_env_or (err e) fallback = or_default fallback

unfoldable pub env_or : String → String → String × ChannelSource
unfolding from_env_or or_default
env_or env fallback =
    if str_eq env "" then or_default fallback else from_env_or (validate_channel env) fallback

unfoldable pub resolved : ChannelResult → String → String → String × ChannelSource
unfolding env_or
resolved (ok v) env fallback =
    if not (str_eq v "") then (v, from_preference_file) else env_or env fallback
resolved (err e) env fallback = env_or env fallback

-- ResolveChannel
unfoldable pub resolve_channel :
    Bool → Bool → ChannelFile → String → String → String × ChannelSource
unfolding resolved
resolve_channel no_dir fault file env fallback =
    if no_dir
    then env_or env fallback
    else resolved (read_channel_preference no_dir fault file) env fallback
