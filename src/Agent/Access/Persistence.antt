-- ===== src/Agent/Access/Persistence.antt =====
-- The bearer token over several starts of the worker (internal/agent/auth.go).
use Prim.Native.String.{◌++◌ as str_append}
use Prim.Native.Char.{Char, code}
use text.Mathlib.TextLemmas.{cons≢nil}
use clawmast.Prelude.{
  ℕ, zero, suc, ◌/◌, ◌%◌, String, true, false, Option, none, some, List, [], ◌∷◌, ◌≡◌, ◌≢◌, refl,
  arith, Bool-cases, inl, inr, str_eq, eq_iff,
}
use clawmast.Strings.{IsSolid, is_space, letter_at, trim_space, trim_line}
use clawmast.Agent.Access.{
  Token, TokenFaults, ok, hex_digit, hex_encode, generate, load_file, load_or_create_token,
}

letter-solid :
    (n : ℕ) (s : String) (c : Char)
    → IsSolid s
    → is_space (code c) ≡ false
    → is_space (code (letter_at n s c)) ≡ false
unfolding letter_at
letter-solid n String.[] c h hc = hc
letter-solid zero (String.◌∷◌ d s) c (solid, h) hc = solid
letter-solid (suc n) (String.◌∷◌ d s) c (solid, h) hc = letter-solid n s c h hc

digit-solid : (n : ℕ) → is_space (code (hex_digit n)) ≡ false
unfolding hex_digit is_space
digit-solid n =
    letter-solid n "0123456789abcdef" "0"
      (
        refl,
        (
          refl,
          (
            refl,
            (
              refl,
              (
                refl,
                (
                  refl,
                  (
                    refl,
                    (refl, (refl, (refl, (refl, (refl, (refl, (refl, (refl, (refl, tt))))))))),
                  ),
                ),
              ),
            ),
          ),
        ),
      )
      refl

hex-IsSolid : (bs : List ℕ) → IsSolid (hex_encode bs)
unfolding hex_encode
hex-IsSolid [] = tt
hex-IsSolid (b ∷ bs) = (digit-solid (b / 16), (digit-solid (b % 16), hex-IsSolid bs))

hex-filled : (bs : List ℕ) → bs ≢ [] → hex_encode bs ≢ ""
unfolding hex_encode
hex-filled [] h = absurd (h refl)
hex-filled (b ∷ bs) h = λ e. cons≢nil e

-- The file holds the token, which is not empty.
abbrev Holds : Option String → Token → Type 0
Holds file tok =
    (raw : String) × (file ≡ some raw)
    × (trim_space raw ≡ tok.value)
    × (tok.value ≢ "")
    × (tok.stored ≡ true)

generate-Holds :
    (f : TokenFaults) (bytes : List ℕ) (file file' : Option String) (tok : Token)
    → bytes ≢ []
    → generate false f bytes file ≡ (file', ok tok)
    → Holds file' tok
unfolding generate
generate-Holds f bytes file file' tok filled h =
    let val = hex_encode bytes in
    let line = trim_line val (hex-IsSolid bytes) in
    let full = hex-filled bytes filled in
    (
      str_append val "\n",
      ground (arith, h),
      ground (arith, h, line),
      ground (arith, h, full),
      ground (arith, h),
    )

load-Holds :
    (f : TokenFaults) (bytes : List ℕ) (file file' : Option String) (tok : Token)
    → bytes ≢ []
    → load_file f bytes file ≡ (file', ok tok)
    → Holds file' tok
unfolding load_file
load-Holds f bytes none file' tok filled h = generate-Holds f bytes none file' tok filled h
load-Holds f bytes (some raw) file' tok filled h = elim (Bool-cases f.read) [
  | inl bad ↦ absurd (ground (arith, h, bad))
  | inr good ↦ elim (Bool-cases (str_eq (trim_space raw) "")) [
    | inl blank ↦
        generate-Holds f bytes (some raw) file' tok filled (ground (arith, h, good, blank))
    | inr kept ↦ (
      raw,
      ground (arith, h, good, kept),
      ground (arith, h, good, kept),
      ground (arith, h, good, kept, eq_iff (trim_space raw) ""),
      ground (arith, h, good, kept),
    )
  ]
]

loads_again :
    (f : TokenFaults) (bytes : List ℕ) (raw : String) (tok : Token)
    → f.read ≡ false
    → trim_space raw ≡ tok.value
    → tok.value ≢ ""
    → tok.stored ≡ true
    → load_file f bytes (some raw) ≡ (some raw, ok (record tok { generated = false }))
unfolding load_file
loads_again f bytes raw tok readable e full stored =
    ground (arith, readable, e, full, stored, eq_iff (trim_space raw) "")

-- A worker that starts with a state directory and without a token in its environment finds, at every
-- later start of that kind at which the file can be read, the same token, and generates none again.
pub token_persists :
    (env env' : String) (f f' : TokenFaults) (bytes bytes' : List ℕ) (file file' : Option String)
    (tok : Token)
    → bytes ≢ []
    → trim_space env ≡ ""
    → trim_space env' ≡ ""
    → f'.read ≡ false
    → load_or_create_token env false f bytes file ≡ (file', ok tok)
    → load_or_create_token env' false f' bytes' file'
      ≡ (file', ok (record tok { generated = false }))
unfolding load_or_create_token
token_persists env env' f f' bytes bytes' file file' tok filled no_env no_env' readable h =
    let (raw, there, e, full, stored) = load-Holds f bytes file file' tok filled (rw no_env at h) in
    rw (no_env', there) (loads_again f' bytes' raw tok readable e full stored)
