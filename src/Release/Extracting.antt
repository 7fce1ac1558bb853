-- ===== src/Release/Extracting.antt =====
-- The worker that extractTar finds in an archive of the release tool (cmd/clawmast-release/build.go).
use mathlib.Core.List.{map}
use mathlib.Core.Path.{subst}
use clawmast.Prelude.{
  ℕ, Bool, true, false, Option, none, some, List, [], ◌∷◌, str_eq, if◌then◌else◌, ◌≡◌, ◌≢◌, inl,
  inr, refl, ◌∙◌, arith, eq_iff, Bool-cases, All,
}
use clawmast.SelfUpdate.Download.{
  TarEntry, TarItem, entry, file_mode, placed, place, extract_tar, ok,
}
use clawmast.Release.Build.{
  Target, Workshop, BuildEntry, Released, no_temp, worker_failed, supervisor_failed, create_failed,
  header_failed, err, ok as released, release_prefix, worker_file, unit_templates,
  supervisor_entries, build_entries, dir_entry, file_entry, entry_headers, write_entries,
  write_tar_gz, build_one,
}
use clawmast.Release.Paths.{no_slash, IsKept}
use clawmast.Release.Packing.{
  IsSupervised, no_faults, IsCompanion, place_bare, place_dir, skip_one, first_written,
  written_skips,
}

place_one :
    (e : TarEntry) (rest : List TarItem)
    → place e ≡ placed
    → extract_tar no_faults (entry e ∷ rest) none
      ≡ extract_tar no_faults rest (some (record { mode = file_mode e.mode; content = e.content }))
unfolding extract_tar
place_one e rest h = rw (h, extract_tar) refl

abbrev worker_entry : Workshop → Target → List ℕ → BuildEntry
worker_entry w t binary = record {
  dir = "";
  file = worker_file t;
  mode = 493;
  content = binary;
  faults = w.worker_faults;
}

abbrev supervisor_entry : Workshop → List ℕ → BuildEntry
supervisor_entry w binary = record {
  dir = "";
  file = "clawmastd";
  mode = 493;
  content = binary;
  faults = w.supervisor_faults;
}

units_IsCompanion : (w : Workshop) (t : Target) → All IsCompanion (unit_templates w t)
unfolding unit_templates no_slash
units_IsCompanion w t = elim (Bool-cases (str_eq t.os_name "linux")) [
  | inl linux ↦ rw linux ((refl, (refl, refl, refl), inr (refl, refl, (refl, refl, refl))), tt)
  | inr other ↦ elim (Bool-cases (str_eq t.os_name "darwin")) [
    | inl darwin ↦
        rw (other, darwin) ((refl, (refl, refl, refl), inr (refl, refl, (refl, refl, refl))), tt)
    | inr none_of_them ↦ rw (other, none_of_them) tt
  ]
]

companions :
    (w : Workshop) (t : Target) (more : List BuildEntry)
    → supervisor_entries w t ≡ released more
    → All IsCompanion more
unfolding supervisor_entries no_slash
companions w t more h = go (str_eq t.os_name "windows") w.supervisor h
  where
    go :
        (b : Bool) (s : Option (List ℕ))
        → (if b then released [] else elim s [
          | none ↦ err supervisor_failed
          | some binary ↦ released (supervisor_entry w binary ∷ unit_templates w t)
        ])
          ≡ released more
        → All IsCompanion more
    go true s k = let e : [] ≡ more = cc in subst (All IsCompanion) e tt
    go false none k = absurd cc
    go false (some binary) k =
        let e : supervisor_entry w binary ∷ unit_templates w t ≡ more = cc in
        subst (All IsCompanion) e
          ((refl, (refl, refl, refl), inl (refl, refl)), units_IsCompanion w t)

entries_built :
    (w : Workshop) (t : Target) (binary : List ℕ) (entries : List BuildEntry)
    → w.worker ≡ some binary
    → build_entries w t ≡ released entries
    → (more : List BuildEntry) × (supervisor_entries w t ≡ released more)
      × (entries ≡ worker_entry w t binary ∷ more)
unfolding build_entries
entries_built w t binary entries made h =
    go w.temp_fails w.worker (supervisor_entries w t) made refl h
  where
    go :
        (b : Bool) (o : Option (List ℕ)) (r : Released (List BuildEntry))
        → o ≡ some binary
        → supervisor_entries w t ≡ r
        → (if b then err no_temp else elim o [
          | none ↦ err worker_failed
          | some made_one ↦ elim r [
            | err e ↦ err e
            | released more ↦ released (worker_entry w t made_one ∷ more)
          ]
        ])
          ≡ released entries
        → (more : List BuildEntry) × (supervisor_entries w t ≡ released more)
          × (entries ≡ worker_entry w t binary ∷ more)
    go true o r is same k = absurd cc
    go false none r is same k = absurd cc
    go false (some x) (err e) is same k = absurd cc
    go false (some x) (released more) is same k = (more, same, cc)

-- How an archive comes to be.
abbrev Packed : Workshop → Target → List TarEntry → Type 0
Packed w t headers =
    (entries : List BuildEntry) × (items : List TarEntry) × (build_entries w t ≡ released entries)
    × (write_entries (release_prefix t) ("" ∷ []) entries ≡ released items)
    × (headers ≡ dir_entry (release_prefix t) "" ∷ items)

packed :
    (w : Workshop) (t : Target) (headers : List TarEntry)
    → build_one w t ≡ released headers
    → Packed w t headers
unfolding build_one write_tar_gz
packed w t headers h = go (build_entries w t) refl h
  where
    after :
        (entries : List BuildEntry) (a b : Bool) (r : Released (List TarEntry))
        → build_entries w t ≡ released entries
        → write_entries (release_prefix t) ("" ∷ []) entries ≡ r
        → (if a then err create_failed else if b then err header_failed else elim r [
          | err e ↦ err e
          | released items ↦ released (dir_entry (release_prefix t) "" ∷ items)
        ])
          ≡ released headers
        → Packed w t headers
    after entries true b r made same k = absurd cc
    after entries false true r made same k = absurd cc
    after entries false false (err e) made same k = absurd cc
    after entries false false (released items) made same k = (entries, items, made, same, cc)

    go :
        (r : Released (List BuildEntry))
        → build_entries w t ≡ r
        → (elim r [ err e ↦ err e | released entries ↦ write_tar_gz w (release_prefix t) entries ])
          ≡ released headers
        → Packed w t headers
    go (err e) same k = absurd cc
    go (released entries) same k =
        after entries w.create_fails w.prefix_fails
          (write_entries (release_prefix t) ("" ∷ []) entries) same refl k

worker_named : (t : Target) → t.os_name ≢ "windows" → worker_file t ≡ "clawmast"
unfolding worker_file
worker_named t unix = ground (arith, eq_iff t.os_name "windows", unix)

worker_placed :
    (w : Workshop) (t : Target) (binary : List ℕ)
    → IsSupervised t
    → place (file_entry (release_prefix t) (worker_entry w t binary)) ≡ placed
unfolding no_slash
worker_placed w t binary unix =
    let named = worker_named t unix.2 in
    let worker = worker_entry w t binary in
    let bare : no_slash worker.file ≡ true = rw named refl in
    let kept : IsKept worker.file = rw named (refl, refl, refl) in
    let chosen : str_eq worker.file "clawmast" ≡ true = rw named refl in
    rw (place_bare t worker unix refl bare kept, chosen) refl

-- extractTar takes from an archive of a build the worker that was compiled, and nothing else.
pub build_then_extract :
    (w : Workshop) (t : Target) (binary : List ℕ) (headers : List TarEntry)
    → IsSupervised t
    → w.worker ≡ some binary
    → build_one w t ≡ released headers
    → extract_tar no_faults (map entry headers) none ≡ ok (record { mode = 493; content = binary })
unfolding entry_headers file_entry file_mode
build_then_extract w t binary headers unix made h =
    let prefix = release_prefix t in
    let (entries, items, built, written, all) = packed w t headers h in
    let (more, supervised, same) = entries_built w t binary entries made built in
    let worker = worker_entry w t binary in
    let (rest, later, split) =
      first_written prefix ("" ∷ []) worker more items
        (subst (λ l. write_entries prefix ("" ∷ []) l ≡ released items) same written) in
    rw (all, split)
      (skip_one (dir_entry prefix "") (entry (file_entry prefix worker) ∷ map entry rest) none
          (place_dir prefix "")
        ∙ place_one (file_entry prefix worker) (map entry rest) (worker_placed w t binary unix)
        ∙ written_skips t ("" ∷ "" ∷ []) more rest (record { mode = 493; content = binary }) unix
            (companions w t more supervised) later)
