-- ===== src/Agent/Server.antt =====
-- The parts of internal/agent/server.go that the handlers share, and currentVersionLabel of
-- internal/agent/blacklist.go.
use clawmast.Prelude.{ℕ, String, Bool, if◌then◌else◌, str_eq}

-- Config, as far as the handlers read it. A hook is wired or nil.
pub record Config : Type 0 where
  pub install_root : String
  pub request_rollback : Bool
  pub request_restart : Bool
  pub update_base_url : String
  pub update_channel : String
  pub token : String
  pub state_dir : String

-- What a handler writes: the status of a failure, whose body is a text, or a status and a payload.
pub data Reply {ℓ} (A : Type ℓ) : Type ℓ where
  refused : ℕ → Reply A
  replied : ℕ → A → Reply A

abbrev pub default_channel : String
default_channel = "stable"

-- The configuration that NewServer keeps.
unfoldable pub new_server : Config → Config
new_server cfg = record cfg {
  update_channel = if str_eq cfg.update_channel "" then default_channel else cfg.update_channel;
}

-- currentVersionLabel, of CLAWMAST_VERSION_LABEL and of the version that was built in.
unfoldable pub current_version_label : String → String → String
current_version_label env built_in = if str_eq env "" then built_in else env
