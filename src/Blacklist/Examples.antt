-- ===== src/Blacklist/Examples.antt =====
-- Runs of internal/blacklist/blacklist.go on concrete files. The codec keeps a document as its value.
use clawmast.Prelude.{true, false, none, some, List, [], ◌∷◌, ◌≡◌, refl, arith, str_eq, ◌||◌}
use clawmast.Json.{Codec, RoundTrips}
use clawmast.Blacklist.{
  Entry, BlacklistFile, Faults, ok, err, write_failed, contains, upsert, load, add,
}
use clawmast.Blacklist.Persistence.{add_then_load}

abbrev pub plain : Codec (List Entry) (List Entry)
plain = record { marshal = some; unmarshal = some; is_empty = λ _. false }

pub plain-RoundTrips : RoundTrips (List Entry) (List Entry) plain
plain-RoundTrips = record { decoded = λ a b h. ground arith; filled = λ a b h. refl }

abbrev pub fine : Faults (List Entry)
fine = record {
  read = false;
  mkdir = false;
  clear = false;
  create = false;
  write = false;
  sync = false;
  close = false;
  rename = false;
  cleanup = false;
  debris = [];
}

abbrev pub old_bad : Entry
old_bad = record { version = "v1"; timestamp = 7; reason = "crash-loop" }

abbrev new_bad : Entry
new_bad = record { version = "v2"; timestamp = 0; reason = "user-marked-bad" }

abbrev pub stored : BlacklistFile (List Entry)
stored = record { path = some (old_bad ∷ []); tmp = some [] }

abbrev pub after : List Entry
after = old_bad ∷ record new_bad { timestamp = 9 } ∷ []

added : add plain fine stored 9 new_bad ≡ (record { path = some after; tmp = none }, ok after)
unfolding add upsert
added = refl

add_then_load_example :
    (load plain false (record { path = some after; tmp = none }) ≡ ok after)
    × (contains after "v2" ≡ (contains (old_bad ∷ []) "v2" || str_eq "v2" "v2"))
add_then_load_example =
    add_then_load (List Entry) plain plain-RoundTrips fine stored
      (record { path = some after; tmp = none }) 9 new_bad (old_bad ∷ []) after
      (unfold load in refl) added "v2"

write_fails :
    add plain (record fine { write = true }) stored 9 new_bad
    ≡ (record { path = some (old_bad ∷ []); tmp = none }, err write_failed)
unfolding add upsert
write_fails = refl
