-- ===== src/Ledger.antt =====
-- The ledger of the supervisor's history: its writer, internal/supervisor/history.go, its reader,
-- internal/history/history.go, and handleHistory of internal/agent/handlers.go. A file is the list of
-- its bytes; encoding/json is a parameter.
pub mod RoundTrip
pub mod Reading
pub mod Torn
mod Examples
use clawmast.Prelude.{
  ℕ, Time, ◌-◌, ◌*◌, String, Bool, true, false, not, ◌&&◌, ◌||◌, Option, none, some, List, [], ◌∷◌,
  ◌++◌, length, drop, ltb, leb, ◌==◌, if◌then◌else◌, str_eq, is_zero_time,
}
use clawmast.Supervisor.State.{HistoryEvent}
use clawmast.Agent.Server.{Config, Reply, refused, replied}

pub record LedgerEntry : Type 0 where
  pub timestamp : Time
  pub event : HistoryEvent
  pub version : String
  pub exit_code : Option ℕ
  pub reason : String

-- The JSON text of an entry, and the entry that a line decodes to.
pub record LineCodec : Type 0 where
  pub marshal : LedgerEntry → Option (List ℕ)
  pub unmarshal : List ℕ → Option LedgerEntry

pub data LedgerError : Type 0 where
  marshal_failed open_failed write_failed sync_failed decode_failed line_too_long : LedgerError

pub data LedgerResult {ℓ} (A : Type ℓ) : Type ℓ where
  ok : A → LedgerResult A
  err : LedgerError → LedgerResult A

-- Which calls of Append fail; `torn` is what a failed write leaves at the end of the file.
pub record AppendFaults : Type 0 where
  pub open_file : Bool
  pub write : Bool
  pub torn : List ℕ
  pub sync : Bool

abbrev pub newline : ℕ
newline = 10

abbrev pub carriage_return : ℕ
carriage_return = 13

-- The lines of bufio.ScanLines, with their carriage returns. A last line may lack its newline.
unfoldable pub extend_first : ℕ → List (List ℕ) → List (List ℕ)
extend_first b [] = (b ∷ []) ∷ []
extend_first b (l ∷ ls) = (b ∷ l) ∷ ls

unfoldable pub raw_lines : List ℕ → List (List ℕ)
raw_lines [] = []
raw_lines (b ∷ bs) =
    let rest = raw_lines bs in if b == newline then [] ∷ rest else extend_first b rest

-- One carriage return at the end of a line is dropped.
unfoldable pub drop_cr : List ℕ → List ℕ
drop_cr [] = []
drop_cr (b ∷ []) = if b == carriage_return then [] else b ∷ []
drop_cr (b ∷ c ∷ bs) = b ∷ drop_cr (c ∷ bs)

abbrev pub max_line : ℕ
max_line = 256 * 1024

abbrev pub is_blank : List ℕ → Bool
is_blank [] = true
is_blank (b ∷ bs) = false

unfoldable pub append_line :
    AppendFaults → List ℕ → Option (List ℕ) → List ℕ × LedgerResult (Unit {0})
append_line f file none = (file, err marshal_failed)
append_line f file (some line) =
    if f.open_file
    then (file, err open_failed)
    else if f.write
    then (file ++ f.torn, err write_failed)
    else let written = file ++ (line ++ newline ∷ []) in
      if f.sync then (written, err sync_failed) else (written, ok tt)

-- Append; a file that is not there is empty.
unfoldable pub append :
    LineCodec → AppendFaults → Time → LedgerEntry → List ℕ → List ℕ × LedgerResult (Unit {0})
unfolding append_line
append json f now e file =
    append_line f file
      (json.marshal (if is_zero_time e.timestamp then record e { timestamp = now } else e))

-- A decoded line is put before the later entries; one that does not decode ends a strict read.
unfoldable pub decoded_line :
    Bool → Option LedgerEntry → LedgerResult (List LedgerEntry) → LedgerResult (List LedgerEntry)
decoded_line strict none later = if strict then err decode_failed else later
decoded_line strict (some e) (err x) = err x
decoded_line strict (some e) (ok es) = ok (e ∷ es)

-- One round of decodeAll, before what the later lines lead to. A line that does not fit the scanner's
-- buffer ends the scan, and an empty line is skipped.
unfoldable pub one_line :
    LineCodec → Bool → List ℕ → LedgerResult (List LedgerEntry) → LedgerResult (List LedgerEntry)
one_line json strict l later =
    let line = drop_cr l in
    if leb max_line (length l)
    then err line_too_long
    else if is_blank line
    then later
    else decoded_line strict (json.unmarshal line) later

-- The loop of decodeAll.
unfoldable pub decode_lines : LineCodec → Bool → List (List ℕ) → LedgerResult (List LedgerEntry)
decode_lines json strict [] = ok []
decode_lines json strict (l ∷ ls) = one_line json strict l (decode_lines json strict ls)

unfoldable pub tail_of : ℕ → LedgerResult (List LedgerEntry) → LedgerResult (List LedgerEntry)
tail_of limit (err e) = err e
tail_of limit (ok es) =
    if not (limit == 0) && ltb limit (length es) then ok (drop (length es - limit) es) else ok es

-- ReadTail of a file that is there or not; a limit that is not positive is given as 0.
unfoldable pub read_tail :
    LineCodec → ℕ → Bool → Bool → Option (List ℕ) → LedgerResult (List LedgerEntry)
unfolding tail_of
read_tail json limit strict fault none = ok []
read_tail json limit strict fault (some file) =
    if fault then err open_failed else tail_of limit (decode_lines json strict (raw_lines file))

-- The query's limit; none stands for a missing, malformed or non-positive one.
unfoldable pub limit_of : Option ℕ → ℕ
limit_of none = 50
limit_of (some n) = if ltb 500 n then 500 else n

unfoldable pub history_reply : LedgerResult (List LedgerEntry) → Reply (List LedgerEntry)
history_reply (err e) = refused 500
history_reply (ok es) = replied 200 es

-- handleHistory
unfoldable pub handle_history :
    LineCodec → Config → Option ℕ → Bool → Option (List ℕ) → Reply (List LedgerEntry)
unfolding history_reply limit_of
handle_history json cfg query fault file =
    if str_eq cfg.install_root ""
    then refused 503
    else history_reply (read_tail json (limit_of query) false fault file)
