-- ===== src/Release/Packing.antt =====
-- What extractTar finds in an archive of the release tool (cmd/clawmast-release/build.go).
use Prim.Native.String.{◌++◌ as str_append}
use mathlib.Core.List.{map}
use clawmast.Prelude.{
  String, true, false, Option, none, some, List, [], ◌∷◌, ◌++◌, str_eq, if◌then◌else◌, ◌≡◌, ◌≢◌,
  ◌⊎◌, inl, inr, refl, ◌∙◌, ap, arith, Bool-cases, All,
}
use clawmast.SelfUpdate.Download.{
  TarEntry, TarItem, entry, Worker, WriteFaults, skipped, placed, place, clean, is_unsafe,
  extract_tar, ok,
}
use clawmast.Release.Build.{
  Target, BuildEntry, Released, ReleaseError, err, ok as released, entry_name, release_prefix,
  dir_entry, file_entry, entry_headers, entry_error, write_entries, is_seen,
}
use clawmast.Release.Paths.{
  no_slash, split_plain, split_join, release_prefix-no_slash, IsKept, release_prefix-IsKept,
  not_rooted, clean_two, clean_three,
}

-- A target without a slash in its names, which supports a supervisor.
abbrev pub IsSupervised : Target → Type 0
IsSupervised t =
    (no_slash t.os_name ≡ true) × (no_slash t.arch_name ≡ true) × (t.os_name ≢ "windows")

-- No fault when the worker is written.
abbrev pub no_faults : WriteFaults
no_faults = record { create = false; write = false; close = false }

clean_bare :
    (t : Target) (file : String)
    → IsSupervised t
    → no_slash file ≡ true
    → IsKept file
    → clean (entry_name (str_append (release_prefix t) (str_append "/" file)))
      ≡ release_prefix t ∷ file ∷ []
unfolding entry_name
clean_bare t file (os, arch, unix) bare kept =
    rw
      (
        not_rooted t (str_append "/" file),
        split_join (release_prefix t) file (release_prefix-no_slash t os arch),
        split_plain file bare,
      )
      (clean_two (release_prefix t) file (release_prefix-IsKept t) kept)

clean_nested :
    (t : Target) (dir file : String)
    → IsSupervised t
    → no_slash dir ≡ true
    → IsKept dir
    → no_slash file ≡ true
    → IsKept file
    → clean (
        entry_name
          (str_append (release_prefix t) (str_append "/" (str_append dir (str_append "/" file)))))
      ≡ release_prefix t ∷ dir ∷ file ∷ []
unfolding entry_name
clean_nested t dir file (os, arch, unix) flat kept_dir bare kept =
    let inner = str_append dir (str_append "/" file) in
    rw
      (
        not_rooted t (str_append "/" inner),
        split_join (release_prefix t) inner (release_prefix-no_slash t os arch),
        split_join dir file flat,
        split_plain file bare,
      )
      (clean_three (release_prefix t) dir file (release_prefix-IsKept t) kept_dir kept)

-- An entry of the build that is not the worker.
abbrev pub IsCompanion : BuildEntry → Type 0
IsCompanion e =
    (no_slash e.file ≡ true)
    × IsKept e.file
    × (((str_eq e.dir "" ≡ true) × (str_eq e.file "clawmast" ≡ false))
        ⊎ ((str_eq e.dir "" ≡ false) × (no_slash e.dir ≡ true) × IsKept e.dir))

place_two :
    (e : TarEntry) (p q : String)
    → e.regular ≡ true
    → e.name.rooted ≡ false
    → clean e.name ≡ p ∷ q ∷ []
    → IsKept p
    → place e ≡ (if str_eq q "clawmast" then placed else skipped)
unfolding place is_unsafe clean
place_two e p q regular free cleaned (p1, p2, p3) = rw (regular, cleaned, free, p3) refl

place_three :
    (e : TarEntry) (p q r : String)
    → e.regular ≡ true
    → e.name.rooted ≡ false
    → clean e.name ≡ p ∷ q ∷ r ∷ []
    → IsKept p
    → IsKept q
    → place e ≡ skipped
unfolding place is_unsafe clean
place_three e p q r regular free cleaned (p1, p2, p3) (q1, q2, q3) =
    rw (regular, cleaned, free, p3, q3) refl

pub place_bare :
    (t : Target) (e : BuildEntry)
    → IsSupervised t
    → str_eq e.dir "" ≡ true
    → no_slash e.file ≡ true
    → IsKept e.file
    → place (file_entry (release_prefix t) e)
      ≡ (if str_eq e.file "clawmast" then placed else skipped)
unfolding file_entry entry_name
place_bare t e unix dir bare kept =
    place_two (file_entry (release_prefix t) e) (release_prefix t) e.file refl
      (rw dir (not_rooted t (str_append "/" e.file))) (rw dir (clean_bare t e.file unix bare kept))
      (release_prefix-IsKept t)

place_companion :
    (t : Target) (e : BuildEntry)
    → IsSupervised t
    → IsCompanion e
    → place (file_entry (release_prefix t) e) ≡ skipped
unfolding file_entry entry_name
place_companion t e unix (bare, kept, inl (dir, other)) =
    rw (place_bare t e unix dir bare kept, other) refl
place_companion t e unix (bare, kept, inr (dir, flat, kept_dir)) =
    place_three (file_entry (release_prefix t) e) (release_prefix t) e.dir e.file refl
      (rw dir (not_rooted t (str_append "/" (str_append e.dir (str_append "/" e.file)))))
      (rw dir (clean_nested t e.dir e.file unix flat kept_dir bare kept)) (release_prefix-IsKept t)
      kept_dir

pub place_dir : (prefix dir : String) → place (dir_entry prefix dir) ≡ skipped
unfolding place dir_entry
place_dir prefix dir = refl

pub skip_one :
    (e : TarEntry) (rest : List TarItem) (found : Option Worker)
    → place e ≡ skipped
    → extract_tar no_faults (entry e ∷ rest) found ≡ extract_tar no_faults rest found
unfolding extract_tar
skip_one e rest found h = rw (h, extract_tar) refl

-- Headers of directories and of companions are skipped.
skips :
    (t : Target) (seen : List String) (e : BuildEntry) (rest : List TarItem) (found : Option Worker)
    → IsSupervised t
    → IsCompanion e
    → extract_tar no_faults (map entry (entry_headers (release_prefix t) seen e) ++ rest) found
      ≡ extract_tar no_faults rest found
unfolding entry_headers
skips t seen e rest found unix companion =
    let prefix = release_prefix t in
    let file = skip_one (file_entry prefix e) rest found (place_companion t e unix companion) in
    elim (Bool-cases (is_seen e.dir seen)) [
      | inl known ↦ rw known file
      | inr new ↦ rw new (
          skip_one (dir_entry prefix e.dir) (entry (file_entry prefix e) ∷ rest) found
            (place_dir prefix e.dir)
          ∙ file)
    ]

-- What the loop of writeTarGz made of a first entry.
pub first_written :
    (prefix : String) (seen : List String) (e : BuildEntry) (es : List BuildEntry)
    (headers : List TarEntry)
    → write_entries prefix seen (e ∷ es) ≡ released headers
    → (more : List TarEntry) × (write_entries prefix (e.dir ∷ seen) es ≡ released more)
      × (headers ≡ entry_headers prefix seen e ++ more)
unfolding write_entries
first_written prefix seen e es headers h =
    go (entry_error seen e) (write_entries prefix (e.dir ∷ seen) es) refl h
  where
    go :
        (x : Option ReleaseError) (r : Released (List TarEntry))
        → write_entries prefix (e.dir ∷ seen) es ≡ r
        → (elim x [
          | some y ↦ err y
          | none ↦ elim r [
            | err y ↦ err y
            | released items ↦ released (entry_headers prefix seen e ++ items)
          ]
        ])
          ≡ released headers
        → (more : List TarEntry) × (write_entries prefix (e.dir ∷ seen) es ≡ released more)
          × (headers ≡ entry_headers prefix seen e ++ more)
    go (some y) r same k = absurd cc
    go none (err y) same k = absurd cc
    go none (released more) same k = (more, same, cc)

map_append : (a b : List TarEntry) → map entry (a ++ b) ≡ map entry a ++ map entry b
map_append [] b = refl
map_append (e ∷ a) b = ap (λ l. entry e ∷ l) (map_append a b)

pub written_skips :
    (t : Target) (seen : List String) (es : List BuildEntry) (headers : List TarEntry) (w : Worker)
    → IsSupervised t
    → All IsCompanion es
    → write_entries (release_prefix t) seen es ≡ released headers
    → extract_tar no_faults (map entry headers) (some w) ≡ ok w
unfolding write_entries extract_tar
written_skips t seen [] [] w unix companions h = refl
written_skips t seen [] (e ∷ headers) w unix companions h = absurd (ground (arith, h))
written_skips t seen (e ∷ es) headers w unix (c, companions) h =
    let prefix = release_prefix t in
    let (more, later, same) = first_written prefix seen e es headers h in
    rw (same, map_append (entry_headers prefix seen e) more)
      (skips t seen e (map entry more) (some w) unix c
        ∙ written_skips t (e.dir ∷ seen) es more w unix companions later)
