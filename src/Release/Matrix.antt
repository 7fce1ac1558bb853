-- ===== src/Release/Matrix.antt =====
-- runBuild of cmd/clawmast-release/build.go: the builds of all targets, in order, up to the first failure.
use mathlib.Core.List.{map}
use clawmast.Prelude.{
  Bool, All, String, Option, none, some, List, [], ◌∷◌, str_eq, if◌then◌else◌, arith, ◌≡◌, refl,
}
use clawmast.SelfUpdate.Download.{TarEntry}
use clawmast.Release.Build.{
  Target, Workshop, Released, ok, err, flags_missing, create_failed, invalid_platform, build_one,
}
use clawmast.Release.Describe.{split_commas, cut_at, parse_targets}

abbrev default_platforms : List String
default_platforms =
    "darwin/amd64" ∷ "darwin/arm64" ∷ "linux/amd64" ∷ "linux/arm64" ∷ "windows/amd64" ∷ []

-- The loop over the targets; `shop` is what the toolchain and the disk do for each of them.
unfoldable build_all : (Target → Workshop) → List String → Released (List (Target × List TarEntry))
unfolding cut_at build_one
build_all shop [] = ok []
build_all shop (p ∷ rest) =
    let later = build_all shop rest in
    elim (cut_at 47 p) [
      | none ↦ err invalid_platform
      | some (os_name, arch_name) ↦
          let t : Target = record { os_name = os_name; arch_name = arch_name } in
          elim (build_one (shop t) t) [
            | err e ↦ err e
            | ok headers ↦ elim later [ err e ↦ err e | ok more ↦ ok ((t, headers) ∷ more) ]
          ]
    ]

-- runBuild, with whether the output directory can be made.
unfoldable run_build :
    (Target → Workshop) → Bool → String → String → Released (List (Target × List TarEntry))
unfolding build_all split_commas
run_build shop mkdir_fails version platforms =
    if str_eq version ""
    then err flags_missing
    else if mkdir_fails
    then err create_failed
    else build_all shop (if str_eq platforms "" then default_platforms else split_commas platforms)

-- What the loop made of a first target.
first_built :
    (shop : Target → Workshop) (p : String) (ps : List String)
    (built : List (Target × List TarEntry))
    → build_all shop (p ∷ ps) ≡ ok built
    → (t : Target) × (headers : List TarEntry) × (more : List (Target × List TarEntry)) × (cut_at 47
          p
        ≡ some (t.os_name, t.arch_name))
      × (build_one (shop t) t ≡ ok headers)
      × (build_all shop ps ≡ ok more)
      × (built ≡ (t, headers) ∷ more)
unfolding build_all
first_built shop p ps built h = go (cut_at 47 p) refl h
  where
    First : Type 0
    First =
        (t : Target) × (headers : List TarEntry) × (more : List (Target × List TarEntry)) × (cut_at
            47 p
          ≡ some (t.os_name, t.arch_name))
        × (build_one (shop t) t ≡ ok headers)
        × (build_all shop ps ≡ ok more)
        × (built ≡ (t, headers) ∷ more)

    one :
        (t : Target) (b : Released (List TarEntry)) (l : Released (List (Target × List TarEntry)))
        → cut_at 47 p ≡ some (t.os_name, t.arch_name)
        → build_one (shop t) t ≡ b
        → build_all shop ps ≡ l
        → (elim b [
          | err e ↦ err e
          | ok headers ↦ elim l [ err e ↦ err e | ok more ↦ ok ((t, headers) ∷ more) ]
        ])
          ≡ ok built
        → First
    one t (err e) l cut packed later k = absurd cc
    one t (ok headers) (err e) cut packed later k = absurd cc
    one t (ok headers) (ok more) cut packed later k = (t, headers, more, cut, packed, later, cc)

    go :
        (o : Option (String × String))
        → cut_at 47 p ≡ o
        → (elim o [
          | none ↦ err invalid_platform
          | some (os_name, arch_name) ↦
              let t : Target = record { os_name = os_name; arch_name = arch_name } in
              elim (build_one (shop t) t) [
                | err e ↦ err e
                | ok headers ↦ elim (build_all shop ps) [
                  | err e ↦ err e
                  | ok more ↦ ok ((t, headers) ∷ more)
                ]
              ]
        ])
          ≡ ok built
        → First
    go none cut k = absurd cc
    go (some (os_name, arch_name)) cut k =
        let t : Target = record { os_name = os_name; arch_name = arch_name } in
        one t (build_one (shop t) t) (build_all shop ps) cut refl refl k

parse_cons :
    (p : String) (ps : List String) (t : Target) (ts : List Target)
    → cut_at 47 p ≡ some (t.os_name, t.arch_name)
    → parse_targets ps ≡ ok ts
    → parse_targets (p ∷ ps) ≡ ok (t ∷ ts)
unfolding parse_targets
parse_cons p ps t ts cut parsed = rw (cut, parsed, parse_targets) refl

-- A build that succeeds has packed an archive for each target that -platforms lists, in their order,
-- each as build_one packs it.
build_all-parse_targets :
    (shop : Target → Workshop) (ps : List String) (built : List (Target × List TarEntry))
    → build_all shop ps ≡ ok built
    → (parse_targets ps ≡ ok (map (λ b. b.0) built))
      × All (λ b. build_one (shop b.0) b.0 ≡ ok b.1) built
unfolding build_all parse_targets
build_all-parse_targets shop [] [] h = (refl, tt)
build_all-parse_targets shop [] (b ∷ built) h = absurd (ground (arith, h))
build_all-parse_targets shop (p ∷ ps) built h =
    let (t, headers, more, cut, packed, later, same) = first_built shop p ps built h in
    let (names, all) = build_all-parse_targets shop ps more later in
    rw same (parse_cons p ps t (map (λ b. b.0) more) cut names, (packed, all))
