-- ===== src/Ledger/Examples.antt =====
-- A ledger of concrete entries (internal/supervisor/history.go, internal/history/history.go). The codec
-- knows one entry, whose text is the byte 65.
use clawmast.Prelude.{
  ℕ, Time, ◌≤◌, Bool, true, false, ◌&&◌, Option, none, some, List, [], ◌∷◌, ◌≡◌, ◌≢◌, refl, arith,
  ◌==◌, if◌then◌else◌, str_eq, eq_iff,
}
use clawmast.Supervisor.State.{HistoryEvent, spawn}
use clawmast.Supervisor.State
use clawmast.Agent.Server.{Config, replied}
use clawmast.Ledger.{
  LedgerEntry, LineCodec, ok, newline, raw_lines, decode_lines, append, append_line, limit_of,
  handle_history,
}
use clawmast.Ledger.RoundTrip.{LineLaws}
use clawmast.Ledger.Reading.{no_faults, append_all, shown_of, history_shown}
use clawmast.Ledger.Torn.{torn_swallows}

abbrev known : LedgerEntry
known = record { timestamp = 7; event = spawn; version = "v1"; exit_code = none; reason = "" }

abbrev is_spawn : HistoryEvent → Bool
is_spawn spawn = true
is_spawn State.crash = false
is_spawn State.rollback = false
is_spawn State.stop = false

abbrev is_none : Option ℕ → Bool
is_none none = true
is_none (some n) = false

abbrev is_known : LedgerEntry → Bool
is_known e =
    e.timestamp == 7
    && is_spawn e.event
    && str_eq e.version "v1"
    && is_none e.exit_code
    && str_eq e.reason ""

abbrev read_line : List ℕ → Option LedgerEntry
read_line [] = none
read_line (b ∷ []) = if b == 65 then some known else none
read_line (b ∷ c ∷ bs) = none

abbrev toy : LineCodec
toy = record { marshal = λ e. if is_known e then some (65 ∷ []) else none; unmarshal = read_line }

spawn_only : (ev : HistoryEvent) → is_spawn ev ≡ true → ev ≡ spawn
spawn_only spawn h = refl
spawn_only State.crash h = absurd cc
spawn_only State.rollback h = absurd cc
spawn_only State.stop h = absurd cc

none_only : (o : Option ℕ) → is_none o ≡ true → o ≡ none
none_only none h = refl
none_only (some n) h = absurd cc

known_only : (e : LedgerEntry) → is_known e ≡ true → e ≡ known
known_only e h =
    ground (
      arith,
      h,
      spawn_only e.event,
      none_only e.exit_code,
      eq_iff e.version "v1",
      eq_iff e.reason "",
    )

text_is : (e : LedgerEntry) (l : List ℕ) → toy.marshal e ≡ some l → (l ≡ 65 ∷ []) × (e ≡ known)
text_is e l h = (ground (arith, h), known_only e (ground (arith, h)))

toy_laws : LineLaws toy
toy_laws = record {
  flat = λ e l h. rw (text_is e l h).0 ((ground arith, ground arith), tt);
  filled = λ e l h. rw (text_is e l h).0 (λ x. cc);
  decoded = λ e l h. rw ((text_is e l h).0, (text_is e l h).1) refl;
}

abbrev config : Config
config = record {
  install_root = "/home/u/.clawmast";
  request_rollback = false;
  request_restart = false;
  update_base_url = "";
  update_channel = "stable";
  token = "";
  state_dir = "";
}

abbrev two : List (Time × LedgerEntry)
two = (9, known) ∷ (7, record known { timestamp = 0 }) ∷ []

root_set : config.install_root ≢ ""
root_set = ground (arith, eq_iff "/home/u/.clawmast" "")

has_text : (toy.marshal known ≢ none)
has_text = λ e. cc

limit_one : limit_of (some 1) ≡ 1
unfolding limit_of
limit_one = refl

history_shown_example :
    (handle_history toy config (some 1) false (some (append_all toy two []))
      ≡ shown_of toy (limit_of (some 1)) two)
    × (limit_of (some 1) ≤ 500)
history_shown_example =
    history_shown toy toy_laws config (some 1) two root_set (ground arith)
      (has_text, (has_text, tt))

shown_test : shown_of toy (limit_of (some 1)) two ≡ replied 200 (known ∷ [])
unfolding limit_of
shown_test = refl

torn_file : append toy no_faults 9 known (7 ∷ []) ≡ (7 ∷ 65 ∷ newline ∷ [], ok tt)
unfolding append append_line
torn_file = refl

some_torn : ◌≢◌ {A = List ℕ} (7 ∷ []) []
some_torn = λ e. cc

torn_swallows_example :
    decode_lines toy false (raw_lines (7 ∷ 65 ∷ newline ∷ []))
    ≡ decode_lines toy false (raw_lines [])
torn_swallows_example =
    torn_swallows toy toy_laws no_faults 9 known [] (7 ∷ []) (65 ∷ []) (7 ∷ 65 ∷ newline ∷ []) tt
      some_torn ((ground arith, ground arith), tt) refl refl (omega arith) torn_file
