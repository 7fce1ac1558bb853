-- ===== src/Ledger/Reading.antt =====
-- What a client is shown of a ledger of several entries (internal/supervisor/history.go,
-- internal/history/history.go).
use clawmast.Prelude.{
  str_eq, eq_iff, ℕ, Time, ◌-◌, ◌<◌, ◌≤◌, Bool, true, false, ◌&&◌, if◌then◌else◌, Option, none,
  some, List, [], ◌∷◌, ◌++◌, ◌≡◌, ◌≢◌, refl, sym, ap, ◌∙◌, arith, All, Bool-cases, inl, inr, length,
  drop, ltb,
}
use mathlib.Core.List.{append_assoc, append-nil}
use clawmast.Ledger.RoundTrip.{LineLaws, EndsLine, with_last, stamped, fits, append_then_read}
use clawmast.Agent.Server.{Config, Reply, replied, refused}
use clawmast.Ledger.{
  limit_of, history_reply, handle_history, LedgerEntry, LineCodec, ok, AppendFaults, raw_lines,
  append_line, append, decode_lines, tail_of, read_tail, LedgerResult, err, line_too_long,
}

abbrev pub no_faults : AppendFaults
no_faults = record { open_file = false; write = false; torn = []; sync = false }

-- Entries that are appended one after the other, each at its time, while no call fails.
pub append_all : LineCodec → List (Time × LedgerEntry) → List ℕ → List ℕ
append_all json [] file = file
append_all json ((now, e) ∷ rest) file = append_all json rest (append json no_faults now e file).0

abbrev pub all_stamped : List (Time × LedgerEntry) → List LedgerEntry
all_stamped [] = []
all_stamped ((now, e) ∷ rest) = stamped now e ∷ all_stamped rest

append_works :
    (json : LineCodec) (now : Time) (e : LedgerEntry) (file : List ℕ)
    → json.marshal (stamped now e) ≢ none
    → append json no_faults now e file ≡ ((append json no_faults now e file).0, ok tt)
unfolding append
append_works json now e file some_text = line_works (json.marshal (stamped now e)) file some_text
  where
    line_works :
        (o : Option (List ℕ)) (file : List ℕ)
        → o ≢ none
        → append_line no_faults file o ≡ ((append_line no_faults file o).0, ok tt)
    line_works none file h = absurd (h refl)
    line_works (some l) file h = refl

-- The text of each of these entries fits the scanner's buffer.
abbrev pub all_fit : LineCodec → List (Time × LedgerEntry) → Bool
all_fit json [] = true
all_fit json ((now, e) ∷ rest) = fits json (stamped now e) && all_fit json rest

-- These entries after what was read before.
abbrev read_after :
    List LedgerEntry → LedgerResult (List LedgerEntry) → LedgerResult (List LedgerEntry)
read_after es (err x) = err x
read_after es (ok old) = ok (old ++ es)

read_after-with_last :
    (e : LedgerEntry) (es : List LedgerEntry) (r : LedgerResult (List LedgerEntry))
    → read_after es (with_last e r) ≡ read_after (e ∷ es) r
read_after-with_last e es (err x) = refl
read_after-with_last e es (ok old) = ap ok (append_assoc old (e ∷ []) es)

read_after-nil : (r : LedgerResult (List LedgerEntry)) → read_after [] r ≡ r
read_after-nil (err x) = refl
read_after-nil (ok old) = ap ok (append-nil old)

-- What is read of one entry more, by whether it fits.
abbrev chosen :
    LedgerEntry → Bool → LedgerResult (List LedgerEntry) → LedgerResult (List LedgerEntry)
chosen s b r = if b then with_last s r else err line_too_long

either : (b : Bool) (r : LedgerResult (List LedgerEntry)) → (if b then r else r) ≡ r
either true r = refl
either false r = refl

read-All :
    (json : LineCodec) (laws : LineLaws json) (xs : List (Time × LedgerEntry)) (file : List ℕ)
    (old : LedgerResult (List LedgerEntry))
    → All (λ x. json.marshal (stamped x.0 x.1) ≢ none) xs
    → EndsLine file
    → decode_lines json false (raw_lines file) ≡ old
    → decode_lines json false (raw_lines (append_all json xs file))
      ≡ (if all_fit json xs then read_after (all_stamped xs) old else err line_too_long)
unfolding append_all
read-All json laws [] file old h ends start = start ∙ sym (read_after-nil old)
read-All json laws ((now, e) ∷ rest) file old (text, h) ends start =
    let next = (append json no_faults now e file).0 in
    let (ends', read) =
      append_then_read json laws no_faults now e file next ends
        (append_works json now e file text) in
    let s = stamped now e in
    elim (Bool-cases (fits json s)) [
      | inl fit ↦
          let found : decode_lines json false (raw_lines next)
              ≡ with_last s (decode_lines json false (raw_lines file)) =
            read ∙ ap (λ b. chosen s b (decode_lines json false (raw_lines file))) fit in
          read-All json laws rest next (with_last s old) h ends' (found ∙ ap (with_last s) start)
          ∙ ap (λ r. if all_fit json rest then r else err line_too_long)
              (read_after-with_last s (all_stamped rest) old)
          ∙ ap
              (λ b.
                if b && all_fit json rest
                then read_after (s ∷ all_stamped rest) old
                else err line_too_long)
              (sym fit)
      | inr long ↦
          let found : decode_lines json false (raw_lines next) ≡ err line_too_long =
            read ∙ ap (λ b. chosen s b (decode_lines json false (raw_lines file))) long in
          read-All json laws rest next (err line_too_long) h ends' found
          ∙ either (all_fit json rest) (err line_too_long)
          ∙ ap
              (λ b.
                if b && all_fit json rest
                then read_after (s ∷ all_stamped rest) old
                else err line_too_long)
              (sym long)
    ]

abbrev pub IsLimit : Option ℕ → Type 0
IsLimit none = Unit
IsLimit (some n) = 0 < n

limit-pos : (query : Option ℕ) → IsLimit query → limit_of query ≢ 0
unfolding limit_of
limit-pos none h = ground arith
limit-pos (some n) h = ground (arith, h)

cut_tail :
    (limit : ℕ) (es : List LedgerEntry)
    → limit ≢ 0
    → tail_of limit (ok es) ≡ ok (drop (length es - limit) es)
unfolding tail_of
cut_tail limit es h = elim (Bool-cases (ltb limit (length es))) [
  | inl longer ↦ ground (arith, longer, h)
  | inr short ↦
      let none_dropped : length es - limit ≡ 0 = ground (arith, short) in
      rw none_dropped (ground (arith, short))
]

nothing_yet : (json : LineCodec) → decode_lines json false (raw_lines []) ≡ ok []
unfolding decode_lines raw_lines
nothing_yet json = refl

limit_small : (query : Option ℕ) → limit_of query ≤ 500
unfolding limit_of
limit_small none = ground arith
limit_small (some n) = ground arith

-- What the API answers to a read of these entries.
abbrev pub shown_of : LineCodec → ℕ → List (Time × LedgerEntry) → Reply (List LedgerEntry)
shown_of json limit xs =
    let es = all_stamped xs in
    if all_fit json xs then replied 200 (drop (length es - limit) es) else refused 500

reply_of :
    (limit : ℕ) (b : Bool) (es : List LedgerEntry)
    → limit ≢ 0
    → history_reply (tail_of limit (if b then ok es else err line_too_long))
      ≡ (if b then replied 200 (drop (length es - limit) es) else refused 500)
unfolding history_reply tail_of
reply_of limit true es h = ap history_reply (cut_tail limit es h)
reply_of limit false es h = refl

-- Entries that can be encoded and are appended, while no call fails, to a ledger that is not there yet
-- are shown by the API in their order, if the JSON of each is shorter than 256 KiB: the last of them, as
-- many as the query's limit says, fifty without a limit, and never more than five hundred. If the JSON of
-- one is not, the API answers 500 and shows none of them.
pub history_shown :
    (json : LineCodec) (laws : LineLaws json) (cfg : Config) (query : Option ℕ)
    (xs : List (Time × LedgerEntry))
    → cfg.install_root ≢ ""
    → IsLimit query
    → All (λ x. json.marshal (stamped x.0 x.1) ≢ none) xs
    → (handle_history json cfg query false (some (append_all json xs []))
        ≡ shown_of json (limit_of query) xs)
      × (limit_of query ≤ 500)
unfolding handle_history read_tail
history_shown json laws cfg query xs root pos h =
    let limit = limit_of query in
    let read = read-All json laws xs [] (ok []) h tt (nothing_yet json) in
    let shown =
      ap (λ r. history_reply (tail_of limit r)) read
      ∙ reply_of limit (all_fit json xs) (all_stamped xs) (limit-pos query pos) in
    let known : str_eq cfg.install_root "" ≡ false =
      ground (arith, root, eq_iff cfg.install_root "") in
    (rw known shown, limit_small query)
