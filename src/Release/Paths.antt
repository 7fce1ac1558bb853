-- ===== src/Release/Paths.antt =====
-- The names in an archive of the release, as a reader of the archive cuts and cleans them
-- (cmd/clawmast-release/build.go).
use Prim.Native.String.{◌++◌ as str_append}
use Prim.Native.Char.{code}
use text.Mathlib.TextLemmas.{nil-append, cons-append}
use clawmast.Prelude.{
  ℕ, String, Bool, true, false, not, ◌&&◌, [], ◌∷◌, ◌==◌, str_eq, ◌≡◌, ◌≢◌, inl, inr, refl, ap,
  arith, eq_iff, Bool-cases,
}
use clawmast.Strings.{before_first}
use clawmast.SelfUpdate.Download.{clean, clean_onto, clean_part}
use clawmast.Release.Build.{Target, split_parts, begins_with_slash, release_prefix}

-- No character of the text is a slash.
unfoldable pub no_slash : String → Bool
no_slash String.[] = true
no_slash (String.◌∷◌ c s) = not (code c == 47) && no_slash s

no_slash-append :
    (p q : String) → no_slash p ≡ true → no_slash q ≡ true → no_slash (str_append p q) ≡ true
unfolding no_slash
no_slash-append String.[] q hp hq = rw (nil-append q) hq
no_slash-append (String.◌∷◌ c p) q hp hq =
    rw (cons-append c p q) (ground (arith, hp, no_slash-append p q (ground (arith, hp)) hq))

pub split_plain : (p : String) → no_slash p ≡ true → split_parts p ≡ p ∷ []
unfolding no_slash split_parts before_first
split_plain String.[] h = refl
split_plain (String.◌∷◌ c p) h = rw (split_plain p (ground (arith, h))) (ground (arith, h))

pub split_join :
    (p q : String)
    → no_slash p ≡ true
    → split_parts (str_append p (str_append "/" q)) ≡ p ∷ split_parts q
unfolding no_slash split_parts before_first
split_join String.[] q h =
    rw (nil-append (str_append "/" q), cons-append "/" "" q, nil-append q) refl
split_join (String.◌∷◌ c p) q h =
    rw (cons-append c p (str_append "/" q), split_join p q (ground (arith, h))) (ground (arith, h))

pub release_prefix-no_slash :
    (t : Target)
    → no_slash t.os_name ≡ true
    → no_slash t.arch_name ≡ true
    → no_slash (release_prefix t) ≡ true
unfolding release_prefix no_slash
release_prefix-no_slash t os arch =
    let tail : no_slash (str_append "-" t.arch_name) ≡ true =
      no_slash-append "-" t.arch_name refl arch in
    no_slash-append "clawmast-" (str_append t.os_name (str_append "-" t.arch_name)) refl
      (no_slash-append t.os_name (str_append "-" t.arch_name) os tail)

unfoldable first_code : String → ℕ
first_code String.[] = 0
first_code (String.◌∷◌ c s) = code c

differ : (a b : String) → first_code a ≢ first_code b → str_eq a b ≡ false
differ a b h = elim (Bool-cases (str_eq a b)) [
  | inl same ↦ absurd (h (ap first_code ((eq_iff a b).0 same)))
  | inr other ↦ other
]

-- A part that filepath.Clean keeps.
abbrev pub IsKept : String → Type 0
IsKept p = (str_eq p "" ≡ false) × (str_eq p "." ≡ false) × (str_eq p ".." ≡ false)

prefix_head :
    (t : Target)
    → release_prefix t
      ≡ String.◌∷◌ "c" (str_append "lawmast-" (str_append t.os_name (str_append "-" t.arch_name)))
unfolding release_prefix
prefix_head t = cons-append "c" "lawmast-" (str_append t.os_name (str_append "-" t.arch_name))

prefix_first : (t : Target) → first_code (release_prefix t) ≡ 99
unfolding first_code
prefix_first t = rw (prefix_head t) refl

pub release_prefix-IsKept : (t : Target) → IsKept (release_prefix t)
unfolding first_code
release_prefix-IsKept t =
    let first = prefix_first t in
    (
      differ (release_prefix t) "" (λ e. omega (arith, first, e)),
      differ (release_prefix t) "." (λ e. omega (arith, first, e)),
      differ (release_prefix t) ".." (λ e. omega (arith, first, e)),
    )

pub not_rooted :
    (t : Target) (q : String) → begins_with_slash (str_append (release_prefix t) q) ≡ false
unfolding begins_with_slash
not_rooted t q =
    let rest = str_append "lawmast-" (str_append t.os_name (str_append "-" t.arch_name)) in
    rw (prefix_head t, cons-append "c" rest q) refl

-- Two or three parts that are kept are clean.
pub clean_two :
    (p q : String)
    → IsKept p
    → IsKept q
    → clean (record { rooted = false; parts = p ∷ q ∷ [] }) ≡ p ∷ q ∷ []
unfolding clean clean_onto clean_part
clean_two p q (p1, p2, p3) (q1, q2, q3) = rw (p1, p2, p3, q1, q2, q3) refl

pub clean_three :
    (p q r : String)
    → IsKept p
    → IsKept q
    → IsKept r
    → clean (record { rooted = false; parts = p ∷ q ∷ r ∷ [] }) ≡ p ∷ q ∷ r ∷ []
unfolding clean clean_onto clean_part
clean_three p q r (p1, p2, p3) (q1, q2, q3) (r1, r2, r3) =
    rw (p1, p2, p3, q1, q2, q3, r1, r2, r3) refl
