-- ===== src/Supervisor/Backoff.antt =====
-- internal/supervisor/backoff.go: restart delays and the sliding window of crashes.
-- An int64 is its bit pattern where the code shifts or multiplies; the random draw is an argument.
use clawmast.Prelude.{
  ℕ, ◌+◌, ◌-◌, ◌*◌, ◌/◌, ◌%◌, ◌^◌, Time, Duration, second, Bool, not, ◌&&◌, ◌||◌, List, [], ◌∷◌,
  ◌++◌, ltb, leb, ◌==◌, if◌then◌else◌, is_zero_time, before, since_ge, length, keep_if,
}
pub mod Delays
pub mod Window
mod Examples

pub record BackoffPolicy : Type 0 where
  pub base : Duration
  pub max : Duration
  pub steady_reset : Duration
  pub crash_window : Duration
  pub crash_cap : ℕ

abbrev pub default_jitter_low_numer : ℕ
default_jitter_low_numer = 8

abbrev pub default_jitter_high_numer : ℕ
default_jitter_high_numer = 12

abbrev pub default_jitter_denom : ℕ
default_jitter_denom = 10

abbrev pub new_backoff : BackoffPolicy
new_backoff = record {
  base = second;
  max = 60 * second;
  steady_reset = 5 * 60 * second;
  crash_window = 60 * second;
  crash_cap = 3;
}

-- A duration that may be negative.
pub data Signed : Type 0 where
  plus : ℕ → Signed
  minus : ℕ → Signed

-- The int64 whose bits are the low 64 bits of `x`, divided by `k` towards zero.
div_int64 : ℕ → ℕ → Signed
div_int64 x k =
    let w = x % 2 ^ 64 in if ltb w (2 ^ 63) then plus (w / k) else minus ((2 ^ 64 - w) / k)

-- `draw` is what intn(r, high - low) returns.
jitter : Duration → ℕ → Signed
unfolding div_int64
jitter d draw = div_int64 (d * (default_jitter_low_numer + draw)) default_jitter_denom

-- The exponent for the given number of crashes, clamped.
shift_for : ℕ → ℕ
shift_for consecutive =
    let n = if ltb consecutive 1 then 1 else consecutive in if ltb 62 (n - 1) then 62 else n - 1

shifted : BackoffPolicy → ℕ → Duration
shifted p shift =
    let d = p.base * 2 ^ shift % 2 ^ 64 in
    if d == 0 || leb (2 ^ 63) d || ltb p.max d then p.max else d

-- The delay before jitter.
capped : BackoffPolicy → ℕ → Duration
unfolding shift_for shifted
capped p consecutive = shifted p (shift_for consecutive)

pub delay : BackoffPolicy → ℕ → ℕ → Signed
unfolding capped jitter
delay p consecutive draw = jitter (capped p consecutive) draw

pub record Tracker : Type 0 where
  pub policy : BackoffPolicy
  pub running : Time
  pub crashes : List Time

pub new_tracker : BackoffPolicy → Tracker
new_tracker p = record { policy = p; running = 0; crashes = [] }

pub mark_running : Tracker → Time → Tracker
mark_running t now = record t { running = now }

-- The cutoff now.Add(-window) is 0 where Go's lies before the zero time: nothing is older.
pub in_window : Duration → Time → Time → Bool
in_window window now ts = not (before ts (now - window))

pub record_crash : Tracker → Time → Tracker
unfolding in_window
record_crash t now =
    let steady = not (is_zero_time t.running) && since_ge now t.running t.policy.steady_reset in
    let crashes = (if steady then [] else t.crashes) ++ now ∷ [] in
    record t { running = 0; crashes = keep_if (in_window t.policy.crash_window now) crashes }

pub consecutive : Tracker → ℕ
consecutive t = length t.crashes

pub should_rollback : Tracker → Bool
should_rollback t = leb t.policy.crash_cap (length t.crashes)

pub reset : Tracker → Tracker
reset t = record t { running = 0; crashes = [] }
