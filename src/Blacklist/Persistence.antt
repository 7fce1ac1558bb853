-- ===== src/Blacklist/Persistence.antt =====
-- What Save and Add leave on disk, whichever call fails (internal/blacklist/blacklist.go).
use clawmast.Prelude.{
  Time, String, false, Option, none, some, List, ◌≡◌, ◌≢◌, ◌⊎◌, refl, arith, eq_iff, str_eq,
  if◌then◌else◌, ◌||◌, is_zero_time,
}
use clawmast.Json.{Codec, RoundTrips}
use clawmast.Blacklist.{
  Entry, BlacklistFile, Faults, Result, ok, err, Error, contains, upsert, load, load_content, save,
  add, add_loaded, saved,
}
use clawmast.Blacklist.Membership.{contains-upsert}

module _ (B : Type 0) (json : Codec (List Entry) B) where
  -- A reader finds the old document or the whole new one: a failed save leaves the document as it
  -- was, and a save that succeeds leaves the encoding of the entries and no staging file.
  pub save_atomic :
      (f : Faults B) (file : BlacklistFile B) (es : List Entry)
      → let (file', r) = save json f file es in
        ((r ≢ ok tt) × (file'.path ≡ file.path))
        ⊎ ((r ≡ ok tt) × (json.marshal es ≡ file'.path) × (file'.tmp ≡ none))
  unfolding save
  save_atomic f file es = ground arith

  load_marshaled :
      (laws : RoundTrips (List Entry) B json) (new : List Entry) (o : Option B)
      → json.marshal new ≡ o
      → o ≢ none
      → load_content json o ≡ ok new
  unfolding load_content
  load_marshaled laws new none m some_text = absurd (some_text refl)
  load_marshaled laws new (some b) m some_text =
      ground (arith, laws.decoded new b, laws.filled new b)

  save_writes :
      (f : Faults B) (file : BlacklistFile B) (es : List Entry)
      → (save json f file es).1 ≡ ok tt
      → (json.marshal es ≡ (save json f file es).0.path) × ((save json f file es).0.path ≢ none)
  unfolding save
  save_writes f file es h = ground arith

  saved_loads :
      (laws : RoundTrips (List Entry) B json) (f : Faults B) (file file' : BlacklistFile B)
      (new es : List Entry)
      → saved json new (save json f file new) ≡ (file', ok es)
      → (load json false file' ≡ ok es) × (es ≡ new)
  unfolding load saved
  saved_loads laws f file file' new es h =
      let at_save : ((save json f file new).0 ≡ file')
          × ((save json f file new).1 ≡ ok tt)
          × (es ≡ new) =
        ground arith in
      let (written, there) = save_writes f file new at_save.1 in
      (
        ground (arith, load_marshaled laws new (save json f file new).0.path written there),
        at_save.2,
      )

  -- An Add that succeeds is seen by every later reader: Load returns the same entries, in which the
  -- versions blocked are those blocked before and the added one.
  pub add_then_load :
      (laws : RoundTrips (List Entry) B json) (f : Faults B) (file file' : BlacklistFile B)
      (now : Time) (e : Entry) (old es : List Entry)
      → load json f.read file ≡ ok old
      → add json f file now e ≡ (file', ok es)
      → (v : String)
      → (load json false file' ≡ ok es) × (contains es v ≡ (contains old v || str_eq e.version v))
  unfolding add
  add_then_load laws f file file' now e old es loaded added v =
      let e' : Entry = if is_zero_time e.timestamp then record e { timestamp = now } else e in
      let rest : (e.version ≢ "")
          × (saved json (upsert e' old) (save json f file (upsert e' old)) ≡ (file', ok es)) =
        unfold add_loaded in ground (arith, eq_iff e.version "") in
      let (same, new) = saved_loads laws f file file' (upsert e' old) es rest.1 in
      (
        same,
        rw new (
            rw contains-upsert
              (unfold contains in ground (arith, eq_iff v "", eq_iff e.version v, rest.0))),
      )

  -- An Add that fails leaves what a reader sees as it was.
  pub add_fails :
      (f : Faults B) (file file' : BlacklistFile B) (now : Time) (e : Entry) (x : Error)
      → add json f file now e ≡ (file', err x)
      → file'.path ≡ file.path
  unfolding add save
  add_fails f file file' now e x h = ground arith

  added_loads :
      (f : Faults B) (file file' : BlacklistFile B) (e : Entry) (r : Result (List Entry))
      (es : List Entry)
      → add_loaded json f file e r ≡ (file', ok es)
      → (old : List Entry) × (r ≡ ok old)
  unfolding add_loaded
  added_loads f file file' e (err x) es h = absurd (ground (arith, h))
  added_loads f file file' e (ok old) es h = (old, refl)

  -- The entries that Add read before it succeeded.
  pub add-loads :
      (f : Faults B) (now : Time) (file file' : BlacklistFile B) (e : Entry) (es : List Entry)
      → add json f file now e ≡ (file', ok es)
      → (old : List Entry) × (load json f.read file ≡ ok old)
  unfolding add
  add-loads f now file file' e es h =
      let e' : Entry = if is_zero_time e.timestamp then record e { timestamp = now } else e in
      added_loads f file file' e' (load json f.read file) es (ground (arith, h))
