-- ===== src/Blacklist.antt =====
-- internal/blacklist/blacklist.go: the versions that the supervisor must refuse to spawn.
-- A file system call that fails is a field of `Faults`; encoding/json is a parameter.
pub mod Membership
pub mod Persistence
pub mod Examples
use text.Mathlib.Text.{◌==◌ as str_eq}
use clawmast.Prelude.{
  Time, String, Bool, true, false, ◌&&◌, ◌||◌, Option, none, some, List, [], ◌∷◌, if◌then◌else◌,
  is_zero_time,
}
use clawmast.Json.{Codec}

pub record Entry : Type 0 where
  pub version : String
  pub timestamp : Time
  pub reason : String

-- The document and its staging file.
pub record BlacklistFile (B : Type 0) : Type 0 where
  pub path : Option B
  pub tmp : Option B

pub data Error : Type 0 where
  version_required read_failed decode_failed encode_failed mkdir_failed create_failed : Error
  write_failed sync_failed close_failed rename_failed : Error

pub data Result {ℓ} (A : Type ℓ) : Type ℓ where
  ok : A → Result A
  err : Error → Result A

-- Which calls fail: `clear` the removal of a stale staging file, `cleanup` the removal after a
-- failure, which leaves `debris` behind. `read` is a failure other than a missing file.
pub record Faults (B : Type 0) : Type 0 where
  pub read : Bool
  pub mkdir : Bool
  pub clear : Bool
  pub create : Bool
  pub write : Bool
  pub sync : Bool
  pub close : Bool
  pub rename : Bool
  pub cleanup : Bool
  pub debris : B

-- The loop of Contains.
pub listed : String → List Entry → Bool
listed version [] = false
listed version (e ∷ es) = if str_eq e.version version then true else listed version es

unfoldable pub contains : List Entry → String → Bool
unfolding listed
contains entries version = if str_eq version "" then false else listed version entries

-- The loop of Add: the first entry for the version is replaced, or the entry is appended.
unfoldable pub upsert : Entry → List Entry → List Entry
upsert e [] = e ∷ []
upsert e (x ∷ xs) = if str_eq x.version e.version then e ∷ xs else x ∷ upsert e xs

-- os.Remove(tmp) after a failure.
discard : {B : Type 0} → Faults B → BlacklistFile B → BlacklistFile B
discard f file = record file { tmp = if f.cleanup then some f.debris else none }

abbrev is_present {ℓ} : {A : Type ℓ} → Option A → Bool
is_present none = false
is_present (some a) = true

module _ {B : Type 0} (json : Codec (List Entry) B) where
  load_content : Option B → Result (List Entry)
  load_content none = ok []
  load_content (some raw) =
      if json.is_empty raw
      then ok []
      else elim (json.unmarshal raw) [ none ↦ err decode_failed | some entries ↦ ok entries ]

  unfoldable pub load : Bool → BlacklistFile B → Result (List Entry)
  unfolding load_content
  load fault file =
      if fault && is_present file.path then err read_failed else load_content file.path

  -- O_EXCL: the staging file must not be there.
  write_tmp : Faults B → BlacklistFile B → B → BlacklistFile B × Result (Unit {0})
  unfolding discard
  write_tmp f file buf =
      if f.create || is_present file.tmp
      then (file, err create_failed)
      else if f.write
      then (discard f file, err write_failed)
      else if f.sync
      then (discard f file, err sync_failed)
      else if f.close
      then (discard f file, err close_failed)
      else if f.rename
      then (discard f file, err rename_failed)
      else (record file { path = some buf; tmp = none }, ok tt)

  save_buf : Faults B → BlacklistFile B → Option B → BlacklistFile B × Result (Unit {0})
  unfolding write_tmp
  save_buf f file none = (file, err encode_failed)
  save_buf f file (some buf) =
      if f.mkdir
      then (file, err mkdir_failed)
      else write_tmp f (record file { tmp = if f.clear then file.tmp else none }) buf

  unfoldable pub save :
      Faults B → BlacklistFile B → List Entry → BlacklistFile B × Result (Unit {0})
  unfolding save_buf
  save f file entries = save_buf f file (json.marshal entries)

  -- The end of Add: the slice is returned only if it was saved.
  saved : List Entry → BlacklistFile B × Result (Unit {0}) → BlacklistFile B × Result (List Entry)
  saved entries (file, ok _) = (file, ok entries)
  saved entries (file, err e) = (file, err e)

  add_loaded :
      Faults B
      → BlacklistFile B
      → Entry
      → Result (List Entry)
      → BlacklistFile B × Result (List Entry)
  unfolding saved save
  add_loaded f file e (err x) = (file, err x)
  add_loaded f file e (ok existing) = let new = upsert e existing in saved new (save f file new)

  unfoldable pub add :
      Faults B → BlacklistFile B → Time → Entry → BlacklistFile B × Result (List Entry)
  unfolding add_loaded load
  add f file now e =
      if str_eq e.version ""
      then (file, err version_required)
      else let e' = if is_zero_time e.timestamp then record e { timestamp = now } else e in
        add_loaded f file e' (load f.read file)
