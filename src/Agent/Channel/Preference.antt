-- ===== src/Agent/Channel/Preference.antt =====
-- What becomes of a choice of a channel (internal/agent/channel.go).
use Prim.Native.String.{◌++◌ as str_append}
use clawmast.Prelude.{String, Bool, false, some, ◌≡◌, ◌⊎◌, inl, inr, refl, ◌∙◌, arith, eq_iff}
use clawmast.Strings.{trim_space, to_lower, is_space, trim_left, trim_right}
use clawmast.Agent.Channel.{
  ChannelFile, ChannelFaults, ChannelResult, ok, err, ChannelError, channel_stable, channel_beta,
  validate_channel, read_channel_preference, read_contents, preferred, write_channel_preference,
  write_valid, resolve_channel, resolved, from_preference_file,
}

abbrev pub IsChannel : String → Type 0
IsChannel n = (n ≡ channel_stable) ⊎ (n ≡ channel_beta)

validate-IsChannel :
    (name n : String)
    → validate_channel name ≡ ok n
    → (n ≡ to_lower (trim_space name)) × IsChannel n
unfolding validate_channel
validate-IsChannel name n h =
    let m = to_lower (trim_space name) in
    ground (arith, h, eq_iff m channel_stable, eq_iff m channel_beta)

read_line : (n : String) → IsChannel n → read_contents (some (str_append n "\n")) ≡ ok n
unfolding read_contents preferred validate_channel trim_space trim_left trim_right is_space to_lower
read_line n (inl e) = rw e refl
read_line n (inr e) = rw e refl

written_iff :
    (no_dir : Bool) (f : ChannelFaults) (file file' : ChannelFile) (name n : String)
    → write_channel_preference no_dir f file name ≡ (file', ok n)
    → (no_dir ≡ false) × (write_valid f file (validate_channel name) ≡ (file', ok n))
unfolding write_channel_preference
written_iff no_dir f file file' name n h = ground (arith, h)

written :
    (f : ChannelFaults) (file file' : ChannelFile) (r : ChannelResult) (n : String)
    → write_valid f file r ≡ (file', ok n)
    → (r ≡ ok n) × (file'.path ≡ some (str_append n "\n"))
unfolding write_valid
written f file file' (err e) n h = ground (arith, h)
written f file file' (ok m) n h = ground (arith, h)

read_at :
    (no_dir : Bool) (file : ChannelFile) (line : String)
    → no_dir ≡ false
    → file.path ≡ some line
    → read_channel_preference no_dir false file ≡ read_contents (some line)
unfolding read_channel_preference
read_at no_dir file line dir e = rw (dir, e) refl

resolve_read :
    (no_dir : Bool) (file : ChannelFile) (n env fallback : String)
    → no_dir ≡ false
    → IsChannel n
    → read_channel_preference no_dir false file ≡ ok n
    → resolve_channel no_dir false file env fallback ≡ (n, from_preference_file)
unfolding resolve_channel resolved
resolve_read no_dir file n env fallback dir (inl e) read = rw (read, dir) (rw e refl)
resolve_read no_dir file n env fallback dir (inr e) read = rw (read, dir) (rw e refl)

-- A choice that is written is one of the two channels, namely the given name trimmed and in lower case.
-- Whoever reads the preference finds it, and a worker that starts takes it as its channel, whatever its
-- environment says.
pub write_then_resolve :
    (no_dir : Bool) (f : ChannelFaults) (file file' : ChannelFile) (name n env fallback : String)
    → write_channel_preference no_dir f file name ≡ (file', ok n)
    → IsChannel n
      × (n ≡ to_lower (trim_space name))
      × (read_channel_preference no_dir false file' ≡ ok n)
      × (resolve_channel no_dir false file' env fallback ≡ (n, from_preference_file))
write_then_resolve no_dir f file file' name n env fallback h =
    let (dir, done) = written_iff no_dir f file file' name n h in
    let (valid, line) = written f file file' (validate_channel name) n done in
    let (normal, channel) = validate-IsChannel name n valid in
    let read = read_at no_dir file' (str_append n "\n") dir line ∙ read_line n channel in
    (channel, normal, read, resolve_read no_dir file' n env fallback dir channel read)

-- A choice that is not written leaves the preference as it was.
pub write_fails :
    (no_dir : Bool) (f : ChannelFaults) (file file' : ChannelFile) (name : String)
    (e : ChannelError)
    → write_channel_preference no_dir f file name ≡ (file', err e)
    → file'.path ≡ file.path
unfolding write_channel_preference write_valid
write_fails no_dir f file file' name e h = ground (arith, h)
