-- ===== src/Ledger/Torn.antt =====
-- A ledger whose last line was cut off (internal/supervisor/history.go).
use clawmast.Prelude.{
  ℕ, Time, ◌<◌, false, none, some, List, [], ◌∷◌, ◌++◌, ◌≡◌, ◌≢◌, refl, sym, ap, ◌∙◌, arith, length,
}
use mathlib.Core.List.{append_assoc}
use clawmast.Ledger.{
  LedgerEntry, LineCodec, ok, AppendFaults, newline, raw_lines, one_line, max_line, append,
  decoded_line, decode_lines,
}
use clawmast.Ledger.RoundTrip.{
  LineLaws, EndsLine, Flat, stamped, Flat-line, no_cr, lines-append, appended_line, not_blank,
}

Flat-append : (t l : List ℕ) → Flat t → Flat l → Flat (t ++ l)
Flat-append [] l ft fl = fl
Flat-append (b ∷ t) l (hb, ft) fl = (hb, Flat-append t l ft fl)

filled-append : (t l : List ℕ) → t ≢ [] → t ++ l ≢ []
filled-append [] l h = absurd (h refl)
filled-append (b ∷ t) l h = λ e. cc

-- Lines that a tolerant reader skips do not change what it finds.
skipped :
    (json : LineCodec) (ls : List (List ℕ)) (l : List ℕ)
    → decode_lines json false (l ∷ []) ≡ ok []
    → decode_lines json false (ls ++ l ∷ []) ≡ decode_lines json false ls
unfolding decode_lines
skipped json [] l h = h
skipped json (m ∷ ls) l h = ap (one_line json false m) (skipped json ls l h)

skips :
    (json : LineCodec) (line : List ℕ)
    → Flat line
    → line ≢ []
    → length line < max_line
    → json.unmarshal line ≡ none
    → decode_lines json false (line ∷ []) ≡ ok []
unfolding decode_lines one_line decoded_line
skips json line flat filled short bad =
    rw (no_cr line flat) (ground (arith, short, bad, not_blank line filled))

-- Let a ledger of whole lines be followed by the beginning of a line, as an interrupted write leaves
-- it, and let an Append succeed. If that beginning and the text of the entry together are no entry, and
-- fit the scanner's buffer, then a reader finds nothing that it did not find before: the entry that was
-- appended is lost along with the partial line.
pub torn_swallows :
    (json : LineCodec) (laws : LineLaws json) (f : AppendFaults) (now : Time) (e : LedgerEntry)
    (file torn line file' : List ℕ)
    → EndsLine file
    → torn ≢ []
    → Flat torn
    → json.marshal (stamped now e) ≡ some line
    → json.unmarshal (torn ++ line) ≡ none
    → length (torn ++ line) < max_line
    → append json f now e (file ++ torn) ≡ (file', ok tt)
    → decode_lines json false (raw_lines file') ≡ decode_lines json false (raw_lines file)
unfolding append
torn_swallows json laws f now e file torn line file' ends filled flat text bad short h =
    let (l, there, same) = appended_line f (json.marshal (stamped now e)) (file ++ torn) file' h in
    let l_is : l ≡ line = ground (arith, there, text) in
    let whole = Flat-append torn line flat (laws.flat (stamped now e) line text) in
    let full = filled-append torn line filled in
    let glued : file' ≡ file ++ ((torn ++ line) ++ newline ∷ []) =
      same
      ∙ ap (λ x. (file ++ torn) ++ (x ++ newline ∷ [])) l_is
      ∙ append_assoc file torn (line ++ newline ∷ [])
      ∙ ap (λ x. file ++ x) (sym (append_assoc torn line (newline ∷ []))) in
    rw
      (
        glued,
        lines-append file ((torn ++ line) ++ newline ∷ []) ends,
        Flat-line (torn ++ line) full whole,
      )
      (skipped json (raw_lines file) (torn ++ line)
        (skips json (torn ++ line) whole full short bad))
