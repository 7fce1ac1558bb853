-- ===== src/Openclaw/Discover.antt =====
-- internal/openclaw/discover.go, on a Unix system: where the openclaw executable is found. The file
-- system, exec.LookPath and filepath.Join are parameters.
pub mod Chain
use Prim.Native.Nat.{bit_and}
use clawmast.Prelude.{
  ℕ, String, Bool, true, false, not, ◌||◌, Option, none, some, List, [], ◌∷◌, ◌++◌, ◌==◌,
  starts_with, if◌then◌else◌, str_eq,
}
use clawmast.Strings.{trim_space, split_lines, has_part}

pub data DiscoverySource : Type 0 where
  source_none source_env source_override source_path source_brew source_user_bin source_node_mgr :
      DiscoverySource

pub record Discovery : Type 0 where
  pub path : String
  pub source : DiscoverySource

-- What os.Stat tells of a file.
pub record FileInfo : Type 0 where
  pub is_dir : Bool
  pub mode : ℕ

-- What the code sees of the machine. `home` is none if it is not known or empty, and `read_dir` names
-- the entries of a directory, each with whether it is a directory.
pub record Machine : Type 0 where
  pub stat : String → Option FileInfo
  pub look_path : Option String
  pub home : Option String
  pub read_dir : String → Option (List (String × Bool))
  pub join : List String → String

abbrev pub info_runs : Option FileInfo → Bool
info_runs none = false
info_runs (some info) = if info.is_dir then false else not (bit_and info.mode 73 == 0)

unfoldable pub is_executable : Machine → String → Bool
is_executable mc path = if str_eq path "" then false else info_runs (mc.stat path)

unfoldable pub classify_path : String → DiscoverySource
classify_path p =
    if starts_with p "/opt/homebrew/" || starts_with p "/usr/local/"
    then source_brew
    else if has_part p "/.local/bin/"
    then source_user_bin
    else if has_part p "/.fnm/"
        || has_part p "/.nvm/"
        || has_part p "/.volta/"
        || has_part p "/.asdf/"
        || has_part p "/.bun/"
        || has_part p "/.npm-global/"
    then source_node_mgr
    else source_path

-- The loop of readOverride.
unfoldable pub first_line : List String → String
first_line [] = ""
first_line (l ∷ ls) =
    let line = trim_space l in
    if str_eq line "" || starts_with line "#" then first_line ls else line

-- readOverride, of the contents of the file, if it can be read.
unfoldable pub read_override : Option String → String
unfolding first_line
read_override none = ""
read_override (some raw) = first_line (split_lines raw)

unfoldable pub versioned :
    (List String → String) → String → String → List (String × Bool) → List String
versioned join root suffix [] = []
versioned join root suffix ((name, is_dir) ∷ rest) =
    let later = versioned join root suffix rest in
    if is_dir then join (root ∷ name ∷ suffix ∷ []) ∷ later else later

unfoldable pub under_root : Machine → String → String → List String
unfolding versioned
under_root mc root suffix = elim (mc.read_dir root) [
  | none ↦ []
  | some entries ↦ versioned mc.join root suffix entries
]

unfoldable pub home_candidates : Machine → Option String → List String
unfolding under_root
home_candidates mc none = []
home_candidates mc (some home) =
    mc.join (home ∷ ".local" ∷ "bin" ∷ "openclaw" ∷ [])
    ∷ mc.join (home ∷ ".bun" ∷ "bin" ∷ "openclaw" ∷ [])
    ∷ mc.join (home ∷ ".volta" ∷ "bin" ∷ "openclaw" ∷ [])
    ∷ mc.join (home ∷ ".npm-global" ∷ "bin" ∷ "openclaw" ∷ [])
    ∷ (under_root mc (mc.join (home ∷ ".fnm" ∷ "node-versions" ∷ [])) "installation/bin/openclaw"
        ++ (under_root mc (mc.join (home ∷ ".nvm" ∷ "versions" ∷ "node" ∷ [])) "bin/openclaw"
            ++ under_root mc (mc.join (home ∷ ".asdf" ∷ "installs" ∷ "nodejs" ∷ []))
                "bin/openclaw"))

unfoldable pub bare_candidates : Machine → List String
unfolding home_candidates
bare_candidates mc =
    "/opt/homebrew/bin/openclaw" ∷ "/usr/local/bin/openclaw" ∷ home_candidates mc mc.home

abbrev pub not_found : Discovery
not_found = record { path = ""; source = source_none }

-- The last loop of Discover.
unfoldable pub first_executable : Machine → List String → Discovery
first_executable mc [] = not_found
first_executable mc (c ∷ cs) =
    let later = first_executable mc cs in
    if is_executable mc c then record { path = c; source = classify_path c } else later

unfoldable pub search_path : Machine → Option String → Discovery
search_path mc (some p) = record { path = p; source = classify_path p }
search_path mc none = first_executable mc (bare_candidates mc)

-- Discover, of CLAWMAST_OPENCLAW_BIN, and of the override file where the state directory is known and the
-- file can be read.
unfoldable pub discover : Machine → String → Option String → Discovery
discover mc env override_file =
    let chosen = trim_space env in
    let line = read_override override_file in
    if is_executable mc chosen
    then record { path = chosen; source = source_env }
    else if is_executable mc line
    then record { path = line; source = source_override }
    else search_path mc mc.look_path

-- resolveRunner, of the runner's own binary and of what Discover finds: the binary, and the discovery.
unfoldable pub resolve_runner : String → Discovery → String × Discovery
resolve_runner binary found =
    if not (str_eq binary "") then (binary, not_found) else (found.path, found)
