-- ===== src/Openclaw/Poller.antt =====
-- internal/openclaw/poller.go: the probe loop's bookkeeping, the operator's intent, the action in
-- flight, and the triggering of autoheal. The result of the probe itself (status.go) is an argument,
-- and RFC 3339 texts are kept as their instants.
pub mod History
pub mod Healing
use text.Mathlib.Text.{◌==◌ as str_eq}
use clawmast.Prelude.{
  ℕ, suc, ◌+◌, ◌-◌, ◌*◌, Time, Duration, second, String, Bool, true, false, not, ◌&&◌, ◌||◌, Option,
  none, some, List, [], ◌∷◌, ◌++◌, ltb, ◌==◌, if◌then◌else◌, length, drop,
}
use clawmast.Openclaw.Phase.{
  Snapshot, Intent, ProbeSample, AutohealConfig, compute_phase, should_autoheal,
}
use clawmast.Openclaw.ActionLog.{ActionLogEntry, reset_action_log}

abbrev pub active_poll_interval : Duration
active_poll_interval = 1 * second

abbrev pub idle_poll_interval : Duration
idle_poll_interval = 2 * second

abbrev pub probe_history_len : ℕ
probe_history_len = 20

abbrev pub default_autoheal_threshold : ℕ
default_autoheal_threshold = 3

abbrev pub default_autoheal_cooldown : Duration
default_autoheal_cooldown = 5 * 60 * second

-- `current_action` is `none` when idle; `last_start_attempt` is 0 when none was recorded.
pub record Manager : Type 0 where
  pub snap : Snapshot
  pub interval : Duration
  pub autoheal : AutohealConfig
  pub current_action : Option String
  pub last_start_attempt : Time
  pub action_log : ActionLogEntry

-- A threshold or a cooldown that is not positive is given as 0.
unfoldable pub with_autoheal : AutohealConfig → Manager → Manager
with_autoheal cfg m = record m {
  autoheal = record cfg {
    threshold = if cfg.threshold == 0 then default_autoheal_threshold else cfg.threshold;
    cooldown = if cfg.cooldown == 0 then default_autoheal_cooldown else cfg.cooldown;
  };
}

abbrev pub action_name : Option String → String
action_name none = ""
action_name (some name) = name

unfoldable pub current_action_of : Manager → String
current_action_of m = action_name m.current_action

unfoldable pub get : Manager → Snapshot
unfolding current_action_of
get m = record m.snap { current_action = current_action_of m }

unfoldable pub append_probe_sample : List ProbeSample → ProbeSample → List ProbeSample
append_probe_sample history sample =
    let out = history ++ sample ∷ [] in
    if ltb probe_history_len (length out) then drop (length out - probe_history_len) out else out

-- The cumulative state that the probe cannot see, carried over from the stored snapshot `s`.
unfoldable pub carry_over : Snapshot → Snapshot → AutohealConfig → String → Time → Snapshot
carry_over s next cfg cur_action now =
    let sample : ProbeSample = record {
      at = next.last_probe_at;
      alive = next.alive;
      probe_ms = next.last_probe_ms;
    } in
    record next {
      intent = s.intent;
      crash_count =
          if s.probed && s.alive && not next.alive then s.crash_count + 1 else s.crash_count;
      gateway_pid_since =
          if not (next.gateway_pid == 0) && not (next.gateway_pid == s.gateway_pid)
          then now
          else s.gateway_pid_since;
      probe_history = append_probe_sample s.probe_history sample;
      autoheal_count = s.autoheal_count;
      autoheal_last_at = s.autoheal_last_at;
      autoheal_next_eligible = s.autoheal_next_eligible;
      autoheal_enabled = cfg.enabled;
      current_action = cur_action;
      autoheal_consecutive_down =
          if not (str_eq cur_action "") || next.alive then 0 else s.autoheal_consecutive_down + 1;
    }

unfoldable pub with_phase : String → Time → Time → Snapshot → Snapshot
with_phase cur_action last_start now s = record s {
  phase = compute_phase s cur_action last_start now;
}

unfoldable pub fired : AutohealConfig → Time → Snapshot → Snapshot
fired cfg now s = record s {
  autoheal_count = s.autoheal_count + 1;
  autoheal_last_at = now;
  autoheal_next_eligible = now + cfg.cooldown;
  autoheal_consecutive_down = 0;
}

-- The closure of ProbeNow under the store's lock. The Boolean is fireAutoheal.
unfoldable pub update_snapshot :
    AutohealConfig → String → Time → Time → Snapshot → Snapshot → Snapshot × Bool
unfolding carry_over with_phase fired
update_snapshot cfg cur_action last_start now next s =
    let s1 = with_phase cur_action last_start now (carry_over s next cfg cur_action now) in
    if str_eq cur_action "" && should_autoheal s1 cfg now
    then (fired cfg now s1, true)
    else (s1, false)

-- ProbeNow, with `next` what the probe returns; the Boolean says that Trigger is started.
unfoldable pub probe_now : Snapshot → Time → Manager → Manager × Bool
unfolding update_snapshot current_action_of
probe_now next now m =
    let (snap, fire) =
      update_snapshot m.autoheal (current_action_of m) m.last_start_attempt now next m.snap in
    (record m { snap = snap }, fire)

unfoldable pub set_intent : Intent → Manager → Manager
set_intent intent m = record m { snap = record m.snap { intent = intent } }

unfoldable pub set_current_action : String → Time → Manager → Manager
set_current_action name now m =
    if str_eq name "" then record m { current_action = none } else record m {
      current_action = some name;
      action_log = reset_action_log name now m.action_log;
    }

unfoldable pub clear_current_action : Manager → Manager
clear_current_action m = record m { current_action = none }

unfoldable pub stamp_start_attempt : Time → Manager → Manager
stamp_start_attempt now m = record m { last_start_attempt = now }

-- How long Start waits before the next probe.
unfoldable pub poll_delay : Manager → Duration
poll_delay m = if not m.snap.alive then idle_poll_interval else m.interval
