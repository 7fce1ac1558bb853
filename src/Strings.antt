-- ===== src/Strings.antt =====
-- The functions of Go's package strings that the worker uses, on texts of valid UTF-8.
use Prim.Native.String.{◌++◌ as str_append}
use Prim.Native.Char.{Char, code}
use text.Mathlib.TextEquality.{Char-path}
use text.Mathlib.TextLemmas.{nil-append, cons-append}
use clawmast.Prelude.{
  ℕ, zero, suc, ◌-◌, String, Bool, false, ◌&&◌, ◌||◌, Option, none, some, List, [], ◌∷◌,
  starts_with, leb, ◌==◌, if◌then◌else◌, str_eq, ◌≡◌, ◌↔◌, refl, ap, ◌∙◌, arith,
}

-- unicode.IsSpace
unfoldable pub is_space : ℕ → Bool
is_space c =
    (leb 9 c && leb c 13)
    || c == 32
    || c == 133
    || c == 160
    || c == 5760
    || (leb 8192 c && leb c 8202)
    || c == 8232
    || c == 8233
    || c == 8239
    || c == 8287
    || c == 12288

unfoldable pub trim_left : String → String
trim_left String.[] = ""
trim_left (String.◌∷◌ c s) =
    let rest = trim_left s in if is_space (code c) then rest else String.◌∷◌ c s

unfoldable pub trim_right : String → String
trim_right String.[] = ""
trim_right (String.◌∷◌ c s) =
    let rest = trim_right s in if is_space (code c) && str_eq rest "" then "" else String.◌∷◌ c rest

-- strings.TrimSpace
unfoldable pub trim_space : String → String
trim_space s = trim_left (trim_right s)

-- The letter at a place of a text, or else the last argument.
unfoldable pub letter_at : ℕ → String → Char → Char
letter_at n String.[] c = c
letter_at zero (String.◌∷◌ d s) c = d
letter_at (suc n) (String.◌∷◌ d s) c = letter_at n s c

-- strings.ToLower on the letters of ASCII; the other characters are left as they are.
unfoldable pub to_lower : String → String
unfolding letter_at
to_lower String.[] = ""
to_lower (String.◌∷◌ c s) =
    let d =
      if leb 65 (code c) && leb (code c) 90
      then letter_at (code c - 65) "abcdefghijklmnopqrstuvwxyz" c
      else c in
    String.◌∷◌ d (to_lower s)

-- strings.CutPrefix, with none for a text that does not begin with the prefix.
unfoldable pub cut_prefix : String → String → Option String
cut_prefix s String.[] = some s
cut_prefix String.[] (String.◌∷◌ c p) = none
cut_prefix (String.◌∷◌ d s) (String.◌∷◌ c p) =
    let rest = cut_prefix s p in if code d == code c then rest else none

-- strings.Split(s, "\n")
unfoldable pub before_first : Char → List String → List String
before_first c [] = String.◌∷◌ c "" ∷ []
before_first c (l ∷ ls) = String.◌∷◌ c l ∷ ls

unfoldable pub split_lines : String → List String
split_lines String.[] = "" ∷ []
split_lines (String.◌∷◌ c s) =
    let rest = split_lines s in if code c == 10 then "" ∷ rest else before_first c rest

-- strings.Contains
unfoldable pub has_part : String → String → Bool
has_part String.[] t = starts_with "" t
has_part (String.◌∷◌ c s) t = starts_with (String.◌∷◌ c s) t || has_part s t

-- No character of the text is a space.
abbrev pub IsSolid : String → Type 0
IsSolid String.[] = Unit
IsSolid (String.◌∷◌ c s) = (is_space (code c) ≡ false) × IsSolid s

trim_right-newline : (s : String) → IsSolid s → trim_right (str_append s "\n") ≡ s
unfolding trim_right is_space
trim_right-newline String.[] h = refl
trim_right-newline (String.◌∷◌ c s) (solid, h) =
    rw (cons-append c s "\n", trim_right-newline s h) (rw solid refl)

trim_left-IsSolid : (s : String) → IsSolid s → trim_left s ≡ s
unfolding trim_left
trim_left-IsSolid String.[] h = refl
trim_left-IsSolid (String.◌∷◌ c s) (solid, h) = rw solid refl

-- A line of a text without spaces is trimmed to the text.
pub trim_line : (s : String) → IsSolid s → trim_space (str_append s "\n") ≡ s
unfolding trim_space
trim_line s h = rw (trim_right-newline s h) (trim_left-IsSolid s h)

cut-append : (p v : String) → cut_prefix (str_append p v) p ≡ some v
unfolding cut_prefix
cut-append String.[] v = ap some (nil-append v)
cut-append (String.◌∷◌ c p) v = rw (cons-append c p v) (ground (arith, cut-append p v))

cut_cons :
    (d : Char) (s : String) (c : Char) (p v : String)
    → cut_prefix (String.◌∷◌ d s) (String.◌∷◌ c p) ≡ some v
    → (cut_prefix s p ≡ some v) × (code d ≡ code c)
unfolding cut_prefix
cut_cons d s c p v h = ground (arith, h)

cut_sound : (s p v : String) → cut_prefix s p ≡ some v → s ≡ str_append p v
unfolding cut_prefix
cut_sound s String.[] v h = cc (h, nil-append v)
cut_sound String.[] (String.◌∷◌ c p) v h = absurd (ground (arith, h))
cut_sound (String.◌∷◌ d s) (String.◌∷◌ c p) v h =
    let (tail, head) = cut_cons d s c p v h in
    rw (cons-append c p v) (
      ap (λ (x : Char). String.◌∷◌ x s) (Char-path d c head)
      ∙ ap (String.◌∷◌ c) (cut_sound s p v tail))

-- strings.CutPrefix finds exactly what follows the prefix.
pub cut_prefix_iff : (s p v : String) → (cut_prefix s p ≡ some v) ↔ (s ≡ str_append p v)
cut_prefix_iff s p v = (cut_sound s p v, λ e. rw e (cut-append p v))

lower_test : to_lower "StABLE-7 Zz" ≡ "stable-7 zz"
unfolding to_lower letter_at
lower_test = refl
