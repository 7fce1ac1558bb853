-- ===== src/Blacklist/Membership.antt =====
-- Which versions a list of entries blocks (internal/blacklist/blacklist.go).
use clawmast.Prelude.{
  ◌+◌, ◌≤◌, String, false, List, [], ◌∷◌, ◌≡◌, refl, arith, eq_iff, str_eq, if◌then◌else◌, length,
  ◌||◌, Bool-cases, inl, inr,
}
use clawmast.Blacklist.{Entry, listed, contains, upsert}

listed-upsert :
    (e : Entry) (v : String) (es : List Entry)
    → listed v (upsert e es) ≡ (str_eq e.version v || listed v es)
unfolding listed upsert
listed-upsert e v [] = ground arith
listed-upsert e v (x ∷ xs) = ground (
  arith,
  listed-upsert e v xs,
  eq_iff x.version e.version,
  eq_iff x.version v,
  eq_iff e.version v,
)

-- After an entry is upserted, a version is blocked if it was before or is the entry's, and no other
-- is: an empty version never is.
pub contains-upsert :
    (e : Entry) (es : List Entry) (v : String)
    → contains (upsert e es) v
      ≡ (if str_eq v "" then false else (str_eq e.version v || contains es v))
unfolding contains
contains-upsert e es v = ground (arith, listed-upsert e v es)

-- No two entries have one version.
abbrev pub AreDistinct : List Entry → Type 0
AreDistinct [] = Unit
AreDistinct (e ∷ es) = (listed e.version es ≡ false) × AreDistinct es

-- Upserting keeps the versions distinct, and adds at most one entry.
pub upsert-AreDistinct :
    (e : Entry) (es : List Entry)
    → AreDistinct es
    → AreDistinct (upsert e es) × (length (upsert e es) ≤ length es + 1)
unfolding upsert listed
upsert-AreDistinct e [] h = ((refl, tt), omega arith)
upsert-AreDistinct e (x ∷ xs) h = elim (Bool-cases (str_eq x.version e.version)) [
  | inl same ↦ rw same ((ground (arith, h.0, eq_iff x.version e.version), h.1), omega arith)
  | inr other ↦
      let (distinct, bound) = upsert-AreDistinct e xs h.1 in
      rw other (
        (
          ground (
            arith,
            listed-upsert e x.version xs,
            eq_iff x.version e.version,
            eq_iff e.version x.version,
          ),
          distinct,
        ),
        omega arith,
      )
]
