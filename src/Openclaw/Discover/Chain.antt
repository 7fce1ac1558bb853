-- ===== src/Openclaw/Discover/Chain.antt =====
-- What the search for openclaw finds (internal/openclaw/discover.go).
use clawmast.Prelude.{
  String, true, false, Option, none, some, List, [], ◌∷◌, ◌≡◌, ◌≢◌, ◌⊎◌, inl, inr, refl, arith,
  Bool-cases, All,
}
use clawmast.Strings.{trim_space}
use clawmast.Openclaw.Discover.{
  source_none, Discovery, Machine, is_executable, classify_path, read_override, bare_candidates,
  not_found, first_executable, search_path, discover,
}

classify_named : (p : String) → classify_path p ≢ source_none
unfolding classify_path
classify_named p = ground arith

-- The file at the path can be run, or the system's search path led to it.
abbrev pub IsFound : Machine → Discovery → Type 0
IsFound mc d = (is_executable mc d.path ≡ true) ⊎ (mc.look_path ≡ some d.path)

first_found :
    (mc : Machine) (cs : List String)
    → ((first_executable mc cs ≡ not_found) × All (λ c. is_executable mc c ≡ false) cs)
      ⊎ (((first_executable mc cs).source ≢ source_none)
          × (is_executable mc (first_executable mc cs).path ≡ true))
unfolding first_executable
first_found mc [] = inl (refl, tt)
first_found mc (c ∷ cs) = elim (Bool-cases (is_executable mc c)) [
  | inl runs ↦ rw runs (inr (classify_named c, runs))
  | inr not_here ↦ elim (first_found mc cs) [
    | inl (nothing, all) ↦ rw not_here (inl (nothing, (refl, all)))
    | inr found ↦ rw not_here (inr found)
  ]
]

searched :
    (mc : Machine) (o : Option String)
    → mc.look_path ≡ o
    → ((search_path mc o ≡ not_found)
        × (o ≡ none)
        × All (λ c. is_executable mc c ≡ false) (bare_candidates mc))
      ⊎ (((search_path mc o).source ≢ source_none) × IsFound mc (search_path mc o))
unfolding search_path
searched mc (some p) e = inr (classify_named p, inr e)
searched mc none e = elim (first_found mc (bare_candidates mc)) [
  | inl (nothing, all) ↦ inl (nothing, refl, all)
  | inr (named, runs) ↦ inr (named, inl runs)
]

-- The search reports nothing, with an empty path, only if neither the operator's path nor the one of the
-- override file can be run, the system's search path has no openclaw, and no well-known place holds one
-- that can be run. Otherwise what it reports can be run, or is what the system's search path led to.
pub discover_chain :
    (mc : Machine) (env : String) (override_file : Option String)
    → let d = discover mc env override_file in
      ((d ≡ not_found)
        × (is_executable mc (trim_space env) ≡ false)
        × (is_executable mc (read_override override_file) ≡ false)
        × (mc.look_path ≡ none)
        × All (λ c. is_executable mc c ≡ false) (bare_candidates mc))
      ⊎ ((d.source ≢ source_none) × IsFound mc d)
unfolding discover
discover_chain mc env o = elim (Bool-cases (is_executable mc (trim_space env))) [
  | inl chosen ↦ rw chosen (inr (λ e. cc, inl chosen))
  | inr no_env ↦ elim (Bool-cases (is_executable mc (read_override o))) [
    | inl line ↦ rw (no_env, line) (inr (λ e. cc, inl line))
    | inr no_line ↦ elim (searched mc mc.look_path refl) [
      | inl (nothing, no_path, all) ↦ rw (no_env, no_line) (inl (nothing, refl, refl, no_path, all))
      | inr (named, found) ↦ rw (no_env, no_line) (inr (named, found))
    ]
  ]
]
