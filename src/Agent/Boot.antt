-- ===== src/Agent/Boot.antt =====
-- cmd/clawmast/run.go: what the worker takes from its environment when it starts. strconv.Atoi and
-- time.ParseDuration are applied before: an argument is none for a value that they refuse or that is not
-- positive.
use clawmast.Prelude.{
  ℕ, ◌<◌, Duration, String, Bool, true, false, not, ◌||◌, Option, none, some, if◌then◌else◌, str_eq,
  ◌≡◌, ◌⊎◌, arith,
}
use clawmast.Strings.{trim_space, to_lower}
use clawmast.Openclaw.Poller.{
  Manager, with_autoheal, default_autoheal_threshold, default_autoheal_cooldown,
}

unfoldable pub env_or : String → String → String
env_or v fallback = if str_eq v "" then fallback else v

unfoldable pub env_truthy : String → Bool
env_truthy v =
    let s = to_lower (trim_space v) in
    str_eq s "1" || str_eq s "true" || str_eq s "yes" || str_eq s "on"

abbrev pub or_zero : Option ℕ → ℕ
or_zero none = 0
or_zero (some n) = n

-- applyAutoheal. The trigger that it installs runs the repair of Openclaw.Cascade.
unfoldable pub apply_autoheal : String → Option ℕ → Option Duration → Manager → Manager
apply_autoheal v threshold cooldown m =
    if not (env_truthy v)
    then m
    else with_autoheal
        (record { enabled = true; threshold = or_zero threshold; cooldown = or_zero cooldown }) m

-- What resolveInstallRoot asks of the system: the executable's path with its links resolved, if it is
-- known, filepath.Clean of the directory two above a file's, filepath.Join, and whether a path is a
-- directory.
pub record Host : Type 0 where
  pub executable : Option String
  pub two_up : String → String
  pub join : String → String → String
  pub is_dir : String → Bool
  pub home : Option String

unfoldable pub root_of : Host → Option String → String
root_of host none = ""
root_of host (some exe) =
    let root = host.two_up exe in
    if not (host.is_dir (host.join root "state"))
    then ""
    else if not (host.is_dir (host.join root "versions"))
    then ""
    else root

-- resolveInstallRoot, of CLAWMAST_INSTALL_ROOT.
unfoldable pub resolve_install_root : Host → String → String
resolve_install_root host v = if str_eq v "" then root_of host host.executable else v

unfoldable pub home_state : Host → Option String → String
home_state host none = ""
home_state host (some home) =
    if str_eq home "" then "" else host.join (host.join home ".clawmast") "state"

-- resolveStateDir
unfoldable pub resolve_state_dir : Host → String → String
resolve_state_dir host install_root =
    if str_eq install_root "" then home_state host host.home else host.join install_root "state"

abbrev pub IsPositive : Option ℕ → Type 0
IsPositive none = Unit
IsPositive (some n) = 0 < n

-- A worker either leaves autoheal as it was, because it was not asked for, or enables it with a positive
-- threshold and a positive cooldown: the given ones, or else the defaults.
pub autoheal_policy :
    (v : String) (threshold cooldown : Option ℕ) (m : Manager)
    → IsPositive threshold
    → IsPositive cooldown
    → let m' = apply_autoheal v threshold cooldown m in
      ((env_truthy v ≡ false) × (m' ≡ m))
      ⊎ ((env_truthy v ≡ true)
          × (m'.autoheal.enabled ≡ true)
          × (0 < m'.autoheal.threshold)
          × (0 < m'.autoheal.cooldown)
          × (m'.autoheal.threshold
              ≡ (elim threshold [ none ↦ default_autoheal_threshold | some n ↦ n ]))
          × (m'.autoheal.cooldown
              ≡ (elim cooldown [ none ↦ default_autoheal_cooldown | some d ↦ d ])))
unfolding apply_autoheal with_autoheal
autoheal_policy v none none m ht hc = ground arith
autoheal_policy v (some n) none m ht hc = ground (arith, ht)
autoheal_policy v none (some d) m ht hc = ground (arith, hc)
autoheal_policy v (some n) (some d) m ht hc = ground (arith, ht, hc)
