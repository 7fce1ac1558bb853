-- ===== src/Release/Build.antt =====
-- cmd/clawmast-release/build.go: what the release tool packs into an archive. The Go toolchain and the
-- file system are arguments; the result is what the writer of the tar archive is given.
use Prim.Native.String.{◌++◌ as str_append}
use Prim.Native.Char.{code}
use clawmast.Prelude.{
  ℕ, String, Bool, true, false, not, ◌&&◌, ◌||◌, Option, none, some, List, [], ◌∷◌, ◌++◌, ◌==◌,
  if◌then◌else◌, str_eq,
}
use clawmast.Strings.{before_first}
use clawmast.SelfUpdate.Download.{EntryName, TarEntry}
use clawmast.Updater.Manifest.{ManifestError}

pub record Target : Type 0 where
  pub os_name : String
  pub arch_name : String

-- Which calls fail for one entry of the archive.
pub record EntryFaults : Type 0 where
  pub dir_header : Bool
  pub stat : Bool
  pub header : Bool
  pub open_source : Bool
  pub copy : Bool
  pub close : Bool

-- tarEntry, with the name in the two parts that filepath.Dir and Base give (the first is empty for a
-- bare name), and the content of the source file.
pub record BuildEntry : Type 0 where
  pub dir : String
  pub file : String
  pub mode : ℕ
  pub content : List ℕ
  pub faults : EntryFaults

pub data ReleaseError : Type 0 where
  no_temp worker_failed supervisor_failed create_failed header_failed stat_failed : ReleaseError
  open_failed copy_failed close_failed : ReleaseError
  flags_missing version_prefix invalid_platform unreadable_dir no_tarballs hash_failed
        write_failed :
      ReleaseError
  invalid_manifest : ManifestError → ReleaseError

pub data Released {ℓ} (A : Type ℓ) : Type ℓ where
  ok : A → Released A
  err : ReleaseError → Released A

-- What the toolchain and the disk do in one buildOne: the binaries that go build makes, or none where
-- it fails.
pub record Workshop : Type 0 where
  pub temp_fails : Bool
  pub worker : Option (List ℕ)
  pub supervisor : Option (List ℕ)
  pub template : List ℕ
  pub create_fails : Bool
  pub prefix_fails : Bool
  pub worker_faults : EntryFaults
  pub supervisor_faults : EntryFaults
  pub template_faults : EntryFaults

unfoldable pub worker_file : Target → String
worker_file t = if str_eq t.os_name "windows" then "clawmast.exe" else "clawmast"

unfoldable pub unit_templates : Workshop → Target → List BuildEntry
unit_templates w t =
    let unit : String → String → BuildEntry = λ dir file. record {
      dir = dir;
      file = file;
      mode = 420;
      content = w.template;
      faults = w.template_faults;
    } in
    if str_eq t.os_name "linux"
    then unit "systemd" "clawmastd.service.tmpl" ∷ []
    else if str_eq t.os_name "darwin"
    then unit "launchd" "com.clawmast.clawmastd.plist.tmpl" ∷ []
    else []

unfoldable pub supervisor_entries : Workshop → Target → Released (List BuildEntry)
unfolding unit_templates
supervisor_entries w t = if str_eq t.os_name "windows" then ok [] else elim w.supervisor [
  | none ↦ err supervisor_failed
  | some binary ↦ ok (
      record {
        dir = "";
        file = "clawmastd";
        mode = 493;
        content = binary;
        faults = w.supervisor_faults;
      }
      ∷ unit_templates w t)
]

-- The entries of buildOne, before they are packed.
unfoldable pub build_entries : Workshop → Target → Released (List BuildEntry)
unfolding worker_file supervisor_entries
build_entries w t = if w.temp_fails then err no_temp else elim w.worker [
  | none ↦ err worker_failed
  | some binary ↦ elim (supervisor_entries w t) [
    | err e ↦ err e
    | ok more ↦ ok (
        record {
          dir = "";
          file = worker_file t;
          mode = 493;
          content = binary;
          faults = w.worker_faults;
        }
        ∷ more)
  ]
]

-- The parts of a text between slashes.
unfoldable pub split_parts : String → List String
split_parts String.[] = "" ∷ []
split_parts (String.◌∷◌ c s) =
    let rest = split_parts s in if code c == 47 then "" ∷ rest else before_first c rest

unfoldable pub begins_with_slash : String → Bool
begins_with_slash String.[] = false
begins_with_slash (String.◌∷◌ c s) = code c == 47

-- The name in a header, as its reader takes it apart.
unfoldable pub entry_name : String → EntryName
unfolding split_parts begins_with_slash
entry_name s = record { rooted = begins_with_slash s; parts = split_parts s }

unfoldable pub release_prefix : Target → String
release_prefix t = str_append "clawmast-" (str_append t.os_name (str_append "-" t.arch_name))

-- A header for a directory, in the prefix directory if one is named.
unfoldable pub dir_entry : String → String → TarEntry
unfolding entry_name
dir_entry prefix dir = record {
  regular = false;
  name = entry_name (
      if str_eq dir ""
      then str_append prefix "/"
      else str_append prefix (str_append "/" (str_append dir "/")));
  mode = 493;
  content = [];
}

unfoldable pub file_entry : String → BuildEntry → TarEntry
unfolding entry_name
file_entry prefix e = record {
  regular = true;
  name = entry_name (
      str_append prefix (
        str_append "/"
          (if str_eq e.dir "" then e.file else str_append e.dir (str_append "/" e.file))));
  mode = e.mode;
  content = e.content;
}

abbrev pub is_seen : String → List String → Bool
is_seen dir [] = false
is_seen dir (d ∷ rest) = str_eq d dir || is_seen dir rest

-- The directory's header, if it is still to be written, and the file's.
unfoldable pub entry_headers : String → List String → BuildEntry → List TarEntry
unfolding dir_entry file_entry
entry_headers prefix seen e =
    if is_seen e.dir seen
    then file_entry prefix e ∷ []
    else dir_entry prefix e.dir ∷ file_entry prefix e ∷ []

-- What fails first for one entry.
unfoldable pub entry_error : List String → BuildEntry → Option ReleaseError
entry_error seen e =
    if not (is_seen e.dir seen) && e.faults.dir_header
    then some header_failed
    else if e.faults.stat
    then some stat_failed
    else if e.faults.header
    then some header_failed
    else if e.faults.open_source
    then some open_failed
    else if e.faults.copy
    then some copy_failed
    else if e.faults.close
    then some close_failed
    else none

-- The loop of writeTarGz, with the directories whose headers were written.
unfoldable pub write_entries : String → List String → List BuildEntry → Released (List TarEntry)
unfolding entry_headers entry_error
write_entries prefix seen [] = ok []
write_entries prefix seen (e ∷ rest) =
    let later = write_entries prefix (e.dir ∷ seen) rest in
    elim (entry_error seen e) [
      | some x ↦ err x
      | none ↦ elim later [
        | err x ↦ err x
        | ok headers ↦ ok (entry_headers prefix seen e ++ headers)
      ]
    ]

-- writeTarGz: the headers and files that it hands to the writer of the archive.
unfoldable pub write_tar_gz : Workshop → String → List BuildEntry → Released (List TarEntry)
unfolding write_entries
write_tar_gz w prefix entries =
    if w.create_fails
    then err create_failed
    else if w.prefix_fails
    then err header_failed
    else elim (write_entries prefix ("" ∷ []) entries) [
      | err e ↦ err e
      | ok headers ↦ ok (dir_entry prefix "" ∷ headers)
    ]

-- buildOne
unfoldable pub build_one : Workshop → Target → Released (List TarEntry)
unfolding build_entries release_prefix write_tar_gz
build_one w t = elim (build_entries w t) [
  | err e ↦ err e
  | ok entries ↦ write_tar_gz w (release_prefix t) entries
]
