-- ===== src/Notify/Frames.antt =====
-- What the supervisor understands of what the worker sends (internal/sdnotify, internal/supervisor/notify.go).
use Prim.Native.String.{◌++◌ as str_append}
use text.Mathlib.TextLemmas.{nil-append, cons-append}
use clawmast.Prelude.{
  ℕ, ◌*◌, ◌^◌, ◌≤◌, ◌<◌, Duration, second, String, true, false, some, List, [], ◌∷◌, ◌++◌, ◌≡◌,
  refl, ap, ◌∙◌, arith,
}
use mathlib.Core.List.{map}
use clawmast.Supervisor.Session.{NotifyKind, ready, watchdog, stopping}
use clawmast.Strings.{before_first, split_lines}
use clawmast.Notify.{
  trim_returns, cut_at_equals, kind_of, parse_line, parse_lines, parse_notify_frame, breaks_line,
  any_breaks, join_lines, sent, send, text_of, watchdog_interval,
}

one_line : (p : String) → breaks_line p ≡ false → split_lines p ≡ p ∷ []
unfolding split_lines before_first breaks_line
one_line String.[] h = refl
one_line (String.◌∷◌ c s) h = rw (one_line s (ground (arith, h))) (ground (arith, h))

line_then :
    (p rest : String)
    → breaks_line p ≡ false
    → split_lines (str_append p (str_append "\n" rest)) ≡ p ∷ split_lines rest
unfolding split_lines before_first breaks_line
line_then String.[] rest h = rw nil-append (rw cons-append (rw nil-append refl))
line_then (String.◌∷◌ c s) rest h =
    rw (cons-append c s (str_append "\n" rest))
      (rw (line_then s rest (ground (arith, h))) (ground (arith, h)))

-- A datagram of several pairs is understood as the pairs one by one.
pairs_arrive :
    (pairs : List String)
    → any_breaks pairs ≡ false
    → parse_notify_frame (join_lines pairs) ≡ parse_lines pairs
unfolding parse_notify_frame join_lines parse_lines any_breaks split_lines parse_line trim_returns
pairs_arrive [] h = refl
pairs_arrive (p ∷ []) h = rw (one_line p (ground (arith, h))) refl
pairs_arrive (p ∷ q ∷ ps) h =
    rw (line_then p (join_lines (q ∷ ps)) (ground (arith, h)))
      (ap (λ ks. parse_line p ++ ks) (pairs_arrive (q ∷ ps) (ground (arith, h))))

kind_alone : (k : NotifyKind) → parse_line (text_of k) ≡ k ∷ []
unfolding parse_line kind_of cut_at_equals trim_returns
kind_alone ready = refl
kind_alone watchdog = refl
kind_alone stopping = refl

kind_flat : (k : NotifyKind) → breaks_line (text_of k) ≡ false
unfolding breaks_line
kind_flat ready = refl
kind_flat watchdog = refl
kind_flat stopping = refl

kinds_parsed : (ks : List NotifyKind) → parse_lines (map text_of ks) ≡ ks
unfolding parse_lines
kinds_parsed [] = refl
kinds_parsed (k ∷ ks) = rw (kind_alone k) (ap (λ t. k ∷ t) (kinds_parsed ks))

kinds_flat : (ks : List NotifyKind) → any_breaks (map text_of ks) ≡ false
unfolding any_breaks
kinds_flat [] = refl
kinds_flat (k ∷ ks) = rw (kind_flat k) (kinds_flat ks)

-- Whatever kinds of message the worker puts into one datagram, Send accepts them while the socket works,
-- and the supervisor understands exactly these kinds, in their order.
pub kinds_arrive :
    (ks : List NotifyKind)
    → (frame : String) × (send true false (map text_of ks) ≡ sent frame)
      × (parse_notify_frame frame ≡ ks)
unfolding send
kinds_arrive ks = (
  join_lines (map text_of ks),
  rw (kinds_flat ks) refl,
  pairs_arrive (map text_of ks) (kinds_flat ks) ∙ kinds_parsed ks,
)

-- If the timeout of the supervisor is at least three seconds, and less than 2^63 nanoseconds, heartbeats
-- are at least a second apart, and three of them fit into the timeout.
pub heartbeat_bounds :
    (usec : ℕ) (interval : Duration)
    → 3 * second ≤ usec * 1000
    → usec * 1000 < 2 ^ 63
    → watchdog_interval (some usec) ≡ some interval
    → (second ≤ interval) × (3 * interval ≤ usec * 1000)
unfolding watchdog_interval
heartbeat_bounds usec interval long small h = ground (arith, h, long, small)
