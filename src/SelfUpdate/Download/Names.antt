-- ===== src/SelfUpdate/Download/Names.antt =====
-- What the names of an archive must be for extractTar to take its worker
-- (internal/selfupdate/download_unix.go).
use mathlib.Core.List.{Memᴰ}
use clawmast.Prelude.{
  ℕ, ◌%◌, String, Bool, true, false, ◌||◌, List, [], ◌∷◌, ◌==◌, str_eq, eq_iff, if◌then◌else◌, ◌≡◌,
  ◌≢◌, ◌⊎◌, inl, inr, refl, ap, arith, All, Bool-cases,
}
use clawmast.SelfUpdate.Download.{
  EntryName, TarItem, TarEntry, bad_header, entry, Worker, refused, placed, place, file_mode, clean,
  clean_onto, clean_part, reverse_onto, is_unsafe, is_nothing, is_worker_path, is_parent,
}

-- A cleaned name of the worker: at the root of the archive, or in one directory.
abbrev pub IsWorkerName : List String → Type 0
IsWorkerName parts = (parts ≡ "clawmast" ∷ []) ⊎ ((dir : String) × (parts ≡ dir ∷ "clawmast" ∷ []))

-- The permission bits of an entry, or 0o755 where there are none.
abbrev pub permissions : ℕ → ℕ
permissions mode = if mode % 512 == 0 then 493 else mode % 512

-- The worker is a regular entry under its name, with the entry's content and permissions.
abbrev pub IsWorkerOf : Worker → List TarItem → Type 0
IsWorkerOf w items =
    (e : TarEntry) × Memᴰ (entry e) items
    × (e.regular ≡ true)
    × IsWorkerName (clean e.name)
    × (w.content ≡ e.content)
    × (w.mode ≡ permissions e.mode)

-- A header that was read, and of a regular entry one whose name stays inside the archive's root.
abbrev pub IsSafe : TarItem → Type 0
IsSafe bad_header = ⊥
IsSafe (entry e) =
    (e.regular ≡ false) ⊎ ((e.name.rooted ≡ false) × All (λ p. p ≢ "..") (clean e.name))

pub mode_is : (mode : ℕ) → file_mode mode ≡ permissions mode
unfolding file_mode
mode_is mode = refl

-- The parts so far, the last first: below a ".." there is nothing else.
abbrev IsNormal : List String → Type 0
IsNormal [] = Unit
IsNormal (p ∷ ps) = (p ≡ ".." → All (λ q. q ≡ "..") ps) × IsNormal ps

only_parents : (out : List String) → IsNormal out → is_parent out ≡ true → All (λ q. q ≡ "..") out
only_parents [] h up = tt
only_parents (p ∷ ps) (at, h) up = let e : p ≡ ".." = (eq_iff p "..").0 up in (e, at e)

-- A ".." takes the last part away, or is kept.
parent-IsNormal :
    (rooted : Bool) (p : String) (out : List String)
    → IsNormal out
    → IsNormal (
        if is_parent out
        then p ∷ out
        else elim out [ [] ↦ (if rooted then [] else p ∷ []) | last ∷ rest ↦ rest ])
parent-IsNormal true p [] h = tt
parent-IsNormal false p [] h = (λ e. tt, tt)
parent-IsNormal rooted p (q ∷ out) h = elim (Bool-cases (str_eq q "..")) [
  | inl up ↦ rw up (λ e. only_parents (q ∷ out) h up, h)
  | inr name ↦ rw name h.1
]

clean_part-IsNormal :
    (rooted : Bool) (p : String) (out : List String)
    → IsNormal out
    → IsNormal (clean_part rooted p out)
unfolding clean_part
clean_part-IsNormal rooted p out h = elim (Bool-cases (str_eq p "" || str_eq p ".")) [
  | inl dropped ↦ rw dropped h
  | inr kept ↦ elim (Bool-cases (str_eq p "..")) [
    | inr name ↦ rw (kept, name) (λ e. absurd (ground (arith, name, e, eq_iff p "..")), h)
    | inl parent ↦ rw (kept, parent) (parent-IsNormal rooted p out h)
  ]
]

clean_onto-IsNormal :
    (rooted : Bool) (ps out : List String) → IsNormal out → IsNormal (clean_onto rooted ps out)
unfolding clean_onto
clean_onto-IsNormal rooted [] out h = h
clean_onto-IsNormal rooted (p ∷ ps) out h =
    clean_onto-IsNormal rooted ps (clean_part rooted p out) (clean_part-IsNormal rooted p out h)

reversed_parents :
    (q : String) (out later : List String)
    → All (λ p. p ≡ "..") (q ∷ out)
    → is_parent (reverse_onto (q ∷ out) later) ≡ true
reversed_parents q [] later (e, h) = (eq_iff q "..").1 e
reversed_parents q (r ∷ out) later (e, h) = reversed_parents r out (q ∷ later) h

-- Parts that do not begin with ".." hold none.
no_parent :
    (out later : List String)
    → IsNormal out
    → All (λ p. p ≢ "..") later
    → is_parent (reverse_onto out later) ≡ false
    → All (λ p. p ≢ "..") (reverse_onto out later)
no_parent [] later h none first = none
no_parent (p ∷ []) later (at, h) none first = (λ e. ground (arith, first, e, eq_iff p ".."), none)
no_parent (p ∷ q ∷ out) later (at, h) none first =
    no_parent (q ∷ out) (p ∷ later) h
      (λ e. cc (first, reversed_parents q out (p ∷ later) (at e)), none) first

clean_safe : (n : EntryName) → is_parent (clean n) ≡ false → All (λ p. p ≢ "..") (clean n)
unfolding clean
clean_safe n h =
    no_parent (clean_onto n.rooted n.parts []) [] (clean_onto-IsNormal n.rooted n.parts [] tt) tt h

worker_named : (parts : List String) → is_worker_path parts ≡ true → IsWorkerName parts
worker_named [] h = absurd cc
worker_named (p ∷ []) h = inl (ap (λ x. x ∷ []) ((eq_iff p "clawmast").0 h))
worker_named (p ∷ q ∷ []) h = inr (p, ap (λ x. p ∷ x ∷ []) ((eq_iff q "clawmast").0 h))
worker_named (p ∷ q ∷ r ∷ ps) h = absurd cc

placed_path :
    (e : TarEntry) → place e ≡ placed → (e.regular ≡ true) × (is_worker_path (clean e.name) ≡ true)
unfolding place
placed_path e h = ground (arith, h)

pub placed_is : (e : TarEntry) → place e ≡ placed → (e.regular ≡ true) × IsWorkerName (clean e.name)
placed_is e h = let (regular, path) = placed_path e h in (regular, worker_named (clean e.name) path)

no_first : (parts : List String) → is_nothing parts ≡ true → is_parent parts ≡ false
no_first [] h = refl
no_first (p ∷ parts) h = absurd cc

inside_root :
    (e : TarEntry)
    → e.regular ≡ true
    → place e ≢ refused
    → (e.name.rooted ≡ false) × (is_parent (clean e.name) ≡ false)
unfolding place is_unsafe
inside_root e regular h = ground (arith, regular, h, no_first (clean e.name))

pub not_refused_is : (e : TarEntry) → place e ≢ refused → IsSafe (entry e)
not_refused_is e h = elim (Bool-cases e.regular) [
  | inr other ↦ inl other
  | inl regular ↦
      let (free, inside) = inside_root e regular h in inr (free, clean_safe e.name inside)
]
