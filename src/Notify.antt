-- ===== src/Notify.antt =====
-- The worker's side of the notify protocol, internal/sdnotify, and the supervisor's reading of a datagram,
-- parseNotifyFrame of internal/supervisor/notify.go.
pub mod Frames
mod Examples
use Prim.Native.String
use Prim.Native.String.{◌++◌ as str_append}
use Prim.Native.Char.{Char, code}
use clawmast.Prelude.{
  ℕ, ◌+◌, ◌*◌, ◌/◌, ◌%◌, ◌^◌, Duration, second, String, Bool, true, false, not, ◌&&◌, ◌||◌, Option,
  none, some, List, [], ◌∷◌, ◌++◌, ltb, leb, ◌==◌, if◌then◌else◌, str_eq,
}
use clawmast.Strings.{split_lines}
use clawmast.Supervisor.Session.{NotifyKind, ready, watchdog, stopping}

-- strings.TrimRight(line, "\r")
unfoldable pub trim_returns : String → String
trim_returns String.[] = ""
trim_returns (String.◌∷◌ c s) =
    let rest = trim_returns s in if code c == 13 && str_eq rest "" then "" else String.◌∷◌ c rest

abbrev pub on_key : Char → Option (String × String) → Option (String × String)
on_key c none = none
on_key c (some (k, v)) = some (String.◌∷◌ c k, v)

-- strings.Cut(line, "=")
unfoldable pub cut_at_equals : String → Option (String × String)
cut_at_equals String.[] = none
cut_at_equals (String.◌∷◌ c s) =
    let rest = cut_at_equals s in if code c == 61 then some ("", s) else on_key c rest

unfoldable pub kind_of : Option (String × String) → List NotifyKind
kind_of none = []
kind_of (some (k, v)) =
    if not (str_eq v "1")
    then []
    else if str_eq k "READY"
    then ready ∷ []
    else if str_eq k "WATCHDOG"
    then watchdog ∷ []
    else if str_eq k "STOPPING"
    then stopping ∷ []
    else []

unfoldable pub parse_line : String → List NotifyKind
parse_line line =
    let trimmed = trim_returns line in
    if str_eq trimmed "" then [] else kind_of (cut_at_equals trimmed)

unfoldable pub parse_lines : List String → List NotifyKind
parse_lines [] = []
parse_lines (l ∷ ls) = parse_line l ++ parse_lines ls

-- The kinds of parseNotifyFrame.
unfoldable pub parse_notify_frame : String → List NotifyKind
parse_notify_frame frame = parse_lines (split_lines frame)

-- strings.ContainsAny(p, "\n\r")
unfoldable pub breaks_line : String → Bool
breaks_line String.[] = false
breaks_line (String.◌∷◌ c s) = code c == 10 || code c == 13 || breaks_line s

unfoldable pub any_breaks : List String → Bool
any_breaks [] = false
any_breaks (p ∷ ps) = breaks_line p || any_breaks ps

-- strings.Join(pairs, "\n")
unfoldable pub join_lines : List String → String
join_lines [] = ""
join_lines (p ∷ []) = p
join_lines (p ∷ q ∷ ps) = str_append p (str_append "\n" (join_lines (q ∷ ps)))

pub data SendResult : Type 0 where
  not_supervised has_newline write_failed : SendResult
  sent : String → SendResult

-- Send, of a client that may be nil or closed; the last flag says that the write fails.
unfoldable pub send : Bool → Bool → List String → SendResult
send is_open fault pairs =
    if not is_open
    then not_supervised
    else if any_breaks pairs
    then has_newline
    else if fault
    then write_failed
    else sent (join_lines pairs)

-- The texts of Ready, Watchdog and Stopping.
abbrev pub text_of : NotifyKind → String
text_of ready = "READY=1"
text_of watchdog = "WATCHDOG=1"
text_of stopping = "STOPPING=1"

-- WatchdogInterval, of the number that WATCHDOG_USEC holds, if it holds a positive one. The duration is
-- counted in nanoseconds by 64 bits, of which the highest is the sign.
unfoldable pub watchdog_interval : Option ℕ → Option Duration
watchdog_interval none = none
watchdog_interval (some usec) =
    let full = (usec * 1000) % 2 ^ 64 in
    let interval = full / 3 in
    some (if leb (2 ^ 63) full || ltb interval second then second else interval)
