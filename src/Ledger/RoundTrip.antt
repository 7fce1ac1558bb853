-- ===== src/Ledger/RoundTrip.antt =====
-- What is read of the ledger once it was appended to (internal/supervisor/history.go,
-- internal/history/history.go).
use mathlib.Core.Path.{subst}
use clawmast.Prelude.{
  ℕ, Time, ◌<◌, ◌≤◌, Bool, true, false, Option, none, some, List, [], ◌∷◌, ◌++◌, ◌≡◌, ◌≢◌, refl,
  sym, ap, ◌∙◌, arith, All, Bool-cases, inl, inr, length, leb, ltb, ◌==◌, if◌then◌else◌,
  is_zero_time,
}
use clawmast.Ledger.{
  LedgerEntry, LineCodec, LedgerResult, ok, err, AppendFaults, newline, carriage_return,
  extend_first, raw_lines, drop_cr, one_line, max_line, is_blank, append_line, append, decoded_line,
  decode_lines, line_too_long,
}

-- What is documented of the JSON of an entry: it has no line break and is not empty, and it is decoded to
-- the entry.
pub record LineLaws (json : LineCodec) : Type 0 where
  pub flat :
      (e : LedgerEntry) (l : List ℕ)
      → json.marshal e ≡ some l
      → All (λ b. (b ≢ newline) × (b ≢ carriage_return)) l
  pub filled : (e : LedgerEntry) (l : List ℕ) → json.marshal e ≡ some l → l ≢ []
  pub decoded : (e : LedgerEntry) (l : List ℕ) → json.marshal e ≡ some l → json.unmarshal l ≡ some e

-- The file is empty or ends with a newline.
abbrev pub EndsLine : List ℕ → Type 0
EndsLine [] = Unit
EndsLine (b ∷ []) = b ≡ newline
EndsLine (b ∷ c ∷ bs) = EndsLine (c ∷ bs)

ends_append : (file line : List ℕ) → EndsLine (file ++ (line ++ newline ∷ []))
ends_append [] [] = refl
ends_append [] (b ∷ []) = refl
ends_append [] (b ∷ c ∷ line) = ends_append [] (c ∷ line)
ends_append (b ∷ []) [] = refl
ends_append (b ∷ []) (c ∷ line) = ends_append [] (c ∷ line)
ends_append (b ∷ c ∷ file) line = ends_append (c ∷ file) line

abbrev pub Flat : List ℕ → Type 0
Flat l = All (λ b. (b ≢ newline) × (b ≢ carriage_return)) l

pub Flat-line : (l : List ℕ) → l ≢ [] → Flat l → raw_lines (l ++ newline ∷ []) ≡ l ∷ []
unfolding raw_lines extend_first
Flat-line [] h flat = absurd (h refl)
Flat-line (b ∷ []) h ((n, r), flat) = ground (arith, n)
Flat-line (b ∷ c ∷ l) h ((n, r), flat) = rw (Flat-line (c ∷ l) (λ e. cc) flat) (ground (arith, n))

pub no_cr : (l : List ℕ) → Flat l → drop_cr l ≡ l
unfolding drop_cr
no_cr [] flat = refl
no_cr (b ∷ []) ((n, r), flat) = ground (arith, r)
no_cr (b ∷ c ∷ l) (h, flat) = ap (λ t. b ∷ t) (no_cr (c ∷ l) flat)

pub not_blank : (l : List ℕ) → l ≢ [] → is_blank l ≡ false
not_blank [] h = absurd (h refl)
not_blank (b ∷ l) h = refl

extend-append :
    (b : ℕ) (ls ms : List (List ℕ)) → ls ≢ [] → extend_first b (ls ++ ms) ≡ extend_first b ls ++ ms
unfolding extend_first
extend-append b [] ms h = absurd (h refl)
extend-append b (l ∷ ls) ms h = refl

extended : (b : ℕ) (ls : List (List ℕ)) → extend_first b ls ≢ []
unfolding extend_first
extended b [] = λ e. cc
extended b (l ∷ ls) = λ e. cc

some_line : (b : ℕ) (bs : List ℕ) → raw_lines (b ∷ bs) ≢ []
unfolding raw_lines
some_line b bs = ground (arith, extended b (raw_lines bs))

one_byte :
    (b : ℕ) (rest bs : List ℕ)
    → raw_lines rest ≢ []
    → raw_lines (rest ++ bs) ≡ raw_lines rest ++ raw_lines bs
    → raw_lines (b ∷ (rest ++ bs)) ≡ raw_lines (b ∷ rest) ++ raw_lines bs
unfolding raw_lines
one_byte b rest bs filled ih = elim (Bool-cases (b == newline)) [
  | inl ends ↦ rw ends (ap (λ ls. [] ∷ ls) ih)
  | inr inside ↦
      rw inside (ap (extend_first b) ih ∙ extend-append b (raw_lines rest) (raw_lines bs) filled)
]

-- Bytes after a file that ends a line are lines of their own.
pub lines-append :
    (file bs : List ℕ) → EndsLine file → raw_lines (file ++ bs) ≡ raw_lines file ++ raw_lines bs
unfolding raw_lines
lines-append [] bs h = refl
lines-append (b ∷ []) bs h = rw h refl
lines-append (b ∷ c ∷ file) bs h =
    one_byte b (c ∷ file) bs (some_line c file) (lines-append (c ∷ file) bs h)

-- One entry more at the end of what was read.
abbrev pub with_last :
    LedgerEntry → LedgerResult (List LedgerEntry) → LedgerResult (List LedgerEntry)
with_last e (err x) = err x
with_last e (ok es) = ok (es ++ e ∷ [])

decoded-with_last :
    (o : Option LedgerEntry) (e : LedgerEntry) (r : LedgerResult (List LedgerEntry))
    → decoded_line false o (with_last e r) ≡ with_last e (decoded_line false o r)
unfolding decoded_line
decoded-with_last none e r = refl
decoded-with_last (some x) e (err y) = refl
decoded-with_last (some x) e (ok es) = refl

line-with_last :
    (json : LineCodec) (l : List ℕ) (e : LedgerEntry) (r : LedgerResult (List LedgerEntry))
    → one_line json false l (with_last e r) ≡ with_last e (one_line json false l r)
unfolding one_line
line-with_last json l e r = elim (Bool-cases (leb max_line (length l))) [
  | inl long ↦ rw long refl
  | inr fits ↦ elim (Bool-cases (is_blank (drop_cr l))) [
    | inl blank ↦ rw (fits, blank) refl
    | inr full ↦ rw (fits, full) (decoded-with_last (json.unmarshal (drop_cr l)) e r)
  ]
]

-- A reader that skips what it cannot decode finds an entry more if one line more decodes to it.
pub decode-with_last :
    (json : LineCodec) (ls : List (List ℕ)) (l : List ℕ) (e : LedgerEntry)
    → decode_lines json false (l ∷ []) ≡ ok (e ∷ [])
    → decode_lines json false (ls ++ l ∷ []) ≡ with_last e (decode_lines json false ls)
unfolding decode_lines
decode-with_last json [] l e h = h
decode-with_last json (m ∷ ls) l e h =
    rw (decode-with_last json ls l e h) (line-with_last json m e (decode_lines json false ls))

decode_encoded :
    (json : LineCodec) (laws : LineLaws json) (e : LedgerEntry) (l : List ℕ)
    → json.marshal e ≡ some l
    → length l < max_line
    → decode_lines json false (l ∷ []) ≡ ok (e ∷ [])
unfolding decode_lines one_line decoded_line
decode_encoded json laws e l h short =
    rw (no_cr l (laws.flat e l h))
      (ground (arith, short, laws.decoded e l h, not_blank l (laws.filled e l h)))

-- The entry as Append writes it.
abbrev pub stamped : Time → LedgerEntry → LedgerEntry
stamped now e = if is_zero_time e.timestamp then record e { timestamp = now } else e

pub appended_line :
    (f : AppendFaults) (o : Option (List ℕ)) (file file' : List ℕ)
    → append_line f file o ≡ (file', ok tt)
    → (l : List ℕ) × (o ≡ some l) × (file' ≡ file ++ (l ++ newline ∷ []))
unfolding append_line
appended_line f none file file' h = absurd (ground (arith, h))
appended_line f (some l) file file' h = (l, refl, ground (arith, h))

decoded_stopped :
    (o : Option LedgerEntry) → decoded_line false o (err line_too_long) ≡ err line_too_long
unfolding decoded_line
decoded_stopped none = refl
decoded_stopped (some e) = refl

line_stopped :
    (json : LineCodec) (l : List ℕ) → one_line json false l (err line_too_long) ≡ err line_too_long
unfolding one_line
line_stopped json l = ground (arith, decoded_stopped (json.unmarshal (drop_cr l)))

-- A line that does not fit the scanner's buffer ends the scan.
long_last :
    (json : LineCodec) (ls : List (List ℕ)) (l : List ℕ)
    → max_line ≤ length l
    → decode_lines json false (ls ++ l ∷ []) ≡ err line_too_long
unfolding decode_lines one_line
long_last json [] l h = ground arith
long_last json (m ∷ ls) l h =
    ap (one_line json false m) (long_last json ls l h) ∙ line_stopped json m

-- What an Append that succeeds does to a file of whole lines: it adds one line, the entry's text.
pub append-line :
    (json : LineCodec) (laws : LineLaws json) (f : AppendFaults) (now : Time) (e : LedgerEntry)
    (file file' : List ℕ)
    → EndsLine file
    → append json f now e file ≡ (file', ok tt)
    → (l : List ℕ) × (json.marshal (stamped now e) ≡ some l)
      × EndsLine file'
      × (raw_lines file' ≡ raw_lines file ++ l ∷ [])
unfolding append
append-line json laws f now e file file' ends h =
    let (l, there, same) = appended_line f (json.marshal (stamped now e)) file file' h in
    let flat = laws.flat (stamped now e) l there in
    let filled = laws.filled (stamped now e) l there in
    (
      l,
      there,
      subst EndsLine (sym same) (ends_append file l),
      ap raw_lines same
          ∙ lines-append file (l ++ newline ∷ []) ends
          ∙ ap (λ ls. raw_lines file ++ ls) (Flat-line l filled flat),
    )

abbrev text_fits : Option (List ℕ) → Bool
text_fits none = true
text_fits (some l) = ltb (length l) max_line

-- The text of an entry fits the scanner's buffer, if it has one.
abbrev pub fits : LineCodec → LedgerEntry → Bool
fits json e = text_fits (json.marshal e)

-- Let a file be empty or end with a newline, and let an Append succeed. Then a reader that skips what it
-- cannot decode finds one entry more, the one appended, with the time if it had none, where its JSON is
-- shorter than the scanner's buffer; a longer one makes every later read fail. The file ends with a
-- newline again.
pub append_then_read :
    (json : LineCodec) (laws : LineLaws json) (f : AppendFaults) (now : Time) (e : LedgerEntry)
    (file file' : List ℕ)
    → EndsLine file
    → append json f now e file ≡ (file', ok tt)
    → EndsLine file'
      × (decode_lines json false (raw_lines file') ≡ (
          if fits json (stamped now e)
          then with_last (stamped now e) (decode_lines json false (raw_lines file))
          else err line_too_long))
append_then_read json laws f now e file file' ends h =
    let (l, there, ends', lines) = append-line json laws f now e file file' ends h in
    let size : fits json (stamped now e) ≡ ltb (length l) max_line = ap text_fits there in
    (
      ends',
      elim (Bool-cases (ltb (length l) max_line)) [
        | inl short ↦
            rw (lines, size, short)
              (decode-with_last json (raw_lines file) l (stamped now e)
                (decode_encoded json laws (stamped now e) l there (ground (arith, short))))
        | inr long ↦
            rw (lines, size, long) (long_last json (raw_lines file) l (ground (arith, long)))
      ],
    )
