-- ===== src/SelfUpdate/Download.antt =====
-- internal/selfupdate/download_unix.go: fetching an artifact, checking it and taking the worker out of
-- it. The HTTP client, the gzip and tar readers and SHA-256 are parameters.
pub mod Names
pub mod Extraction
use Prim.Native.String
use Prim.Native.Char.{Char, code}
use text.Mathlib.Text.{◌==◌ as str_eq}
use clawmast.Prelude.{
  ◌%◌, ◌≡◌, ℕ, suc, ◌+◌, ◌-◌, String, Bool, true, false, not, ◌&&◌, ◌||◌, Option, none, some, List,
  [], ◌∷◌, ◌++◌, ltb, leb, ◌==◌, if◌then◌else◌, length, take,
}
use clawmast.Updater.Manifest.{Artifact}

abbrev pub worker_binary_name : String
worker_binary_name = "clawmast"

-- The name of an archive entry, as its parts between slashes; a leading slash is a flag.
pub record EntryName : Type 0 where
  pub rooted : Bool
  pub parts : List String

pub record TarEntry : Type 0 where
  pub regular : Bool
  pub name : EntryName
  pub mode : ℕ
  pub content : List ℕ

-- What tr.Next returns, until it returns io.EOF.
pub data TarItem : Type 0 where
  bad_header : TarItem
  entry : TarEntry → TarItem

-- The file that is written at the root of the staging directory.
pub record Worker : Type 0 where
  pub mode : ℕ
  pub content : List ℕ

pub data DownloadError : Type 0 where
  download_failed drain_failed bad_gzip tar_header unsafe_path duplicate_worker no_worker :
      DownloadError
  open_failed write_failed close_failed too_long too_short bad_sha256 : DownloadError
  unexpected_status : ℕ → DownloadError

pub data Download {ℓ} (A : Type ℓ) : Type ℓ where
  ok : A → Download A
  err : DownloadError → Download A

-- Which system calls fail.
pub record WriteFaults : Type 0 where
  pub create : Bool
  pub write : Bool
  pub close : Bool

abbrev is_parent : List String → Bool
is_parent [] = false
is_parent (p ∷ rest) = str_eq p ".."

abbrev tail_parts : List String → List String
tail_parts [] = []
tail_parts (p ∷ rest) = rest

-- One part under filepath.Clean, with the parts so far, the last first.
unfoldable pub clean_part : Bool → String → List String → List String
clean_part rooted p out =
    if str_eq p "" || str_eq p "."
    then out
    else if not (str_eq p "..")
    then p ∷ out
    else if is_parent out
    then p ∷ out
    else elim out [ [] ↦ (if rooted then [] else p ∷ []) | last ∷ rest ↦ rest ]

unfoldable pub clean_onto : Bool → List String → List String → List String
unfolding clean_part
clean_onto rooted [] out = out
clean_onto rooted (p ∷ rest) out = clean_onto rooted rest (clean_part rooted p out)

abbrev pub reverse_onto : List String → List String → List String
reverse_onto [] ys = ys
reverse_onto (x ∷ xs) ys = reverse_onto xs (x ∷ ys)

-- filepath.Clean, as the parts of its result.
unfoldable pub clean : EntryName → List String
unfolding clean_onto
clean n = reverse_onto (clean_onto n.rooted n.parts []) []

-- A part ".." that is neither the first nor the last.
abbrev pub has_inner_parent : List String → Bool
has_inner_parent [] = false
has_inner_parent (p ∷ []) = false
has_inner_parent (p ∷ q ∷ []) = false
has_inner_parent (p ∷ q ∷ r ∷ rest) = str_eq q ".." || has_inner_parent (q ∷ r ∷ rest)

unfoldable pub is_unsafe : EntryName → Bool
is_unsafe n = is_parent (clean n) || has_inner_parent (clean n) || n.rooted

abbrev pub is_nothing : List String → Bool
is_nothing [] = true
is_nothing (p ∷ rest) = false

-- The last part is the worker's name, and there are at most two.
abbrev pub is_worker_path : List String → Bool
is_worker_path (p ∷ []) = str_eq p worker_binary_name
is_worker_path (p ∷ q ∷ []) = str_eq q worker_binary_name
is_worker_path _ = false

-- The permission bits (the low nine), or 0o755 where there are none.
unfoldable pub file_mode : ℕ → ℕ
file_mode mode = let bits = mode % 512 in if bits == 0 then 493 else bits

-- What one entry is to extractTar.
pub data Placing : Type 0 where
  skipped refused placed : Placing

unfoldable pub place : TarEntry → Placing
unfolding is_unsafe clean
place e =
    if not e.regular
    then skipped
    else if is_nothing (clean e.name) && not e.name.rooted
    then skipped
    else if is_unsafe e.name
    then refused
    else if is_worker_path (clean e.name)
    then placed
    else skipped

-- What is known of the worker after an entry.
write_worker : WriteFaults → TarEntry → Option Worker → Download (Option Worker)
write_worker f e (some w) = err duplicate_worker
write_worker f e none =
    if f.create
    then err open_failed
    else if f.write
    then err write_failed
    else if f.close
    then err close_failed
    else ok (some (record { mode = file_mode e.mode; content = e.content }))

take_entry : WriteFaults → TarEntry → Option Worker → Placing → Download (Option Worker)
unfolding write_worker
take_entry f e found skipped = ok found
take_entry f e found refused = err unsafe_path
take_entry f e found placed = write_worker f e found

-- extractTar, with what was found so far.
unfoldable pub extract_tar : WriteFaults → List TarItem → Option Worker → Download Worker
unfolding take_entry place
extract_tar f [] none = err no_worker
extract_tar f [] (some w) = ok w
extract_tar f (bad_header ∷ rest) found = err tar_header
extract_tar f (entry e ∷ rest) found = elim (take_entry f e found (place e)) [
  | err x ↦ err x
  | ok found' ↦ extract_tar f rest found'
]

-- strings.EqualFold, where one text is hexadecimal: only ASCII letters fold to such.
unfoldable pub lower : ℕ → ℕ
lower c = if leb 65 c && leb c 90 then c + 32 else c

unfoldable pub equal_fold : String → String → Bool
unfolding lower
equal_fold String.[] String.[] = true
equal_fold String.[] (String.◌∷◌ d t) = false
equal_fold (String.◌∷◌ c s) String.[] = false
equal_fold (String.◌∷◌ c s) (String.◌∷◌ d t) = lower (code c) == lower (code d) && equal_fold s t

-- What the GET leads to: no response, or a status and the bytes of the body.
pub data Response : Type 0 where
  no_response : Response
  response : ℕ → List ℕ → Response

-- The checks after the archive was read: `seen` is what went through the hash, at most one byte more
-- than the artifact's size.
unfoldable pub check_seen : (List ℕ → String) → Artifact → List ℕ → Worker → Download (Worker × ℕ)
check_seen sha256_hex art seen w =
    if length seen == art.size + 1
    then err too_long
    else if not (length seen == art.size)
    then err too_short
    else if not (equal_fold (sha256_hex seen) art.sha256)
    then err bad_sha256
    else ok (w, length seen)

unfoldable pub after_extract :
    (List ℕ → String) → Bool → Artifact → List ℕ → Download Worker → Download (Worker × ℕ)
after_extract sha256_hex drain_fails art seen (err e) = err e
after_extract sha256_hex drain_fails art seen (ok w) =
    if drain_fails then err drain_failed else check_seen sha256_hex art seen w

-- `unpack` reads a gzipped tar archive, up to the end of what it is given.
unfoldable pub extract_body :
    (List ℕ → String)
    → WriteFaults
    → Bool
    → Artifact
    → List ℕ
    → Option (List TarItem)
    → Download (Worker × ℕ)
extract_body sha256_hex f drain_fails art seen none = err bad_gzip
extract_body sha256_hex f drain_fails art seen (some items) =
    after_extract sha256_hex drain_fails art seen (extract_tar f items none)

-- downloadAndExtract
unfoldable pub download_and_extract :
    (List ℕ → Option (List TarItem))
    → (List ℕ → String)
    → WriteFaults
    → Bool
    → Artifact
    → Response
    → Download (Worker × ℕ)
download_and_extract unpack sha256_hex f drain_fails art no_response = err download_failed
download_and_extract unpack sha256_hex f drain_fails art (response status body) =
    if not (status == 200)
    then err (unexpected_status status)
    else let seen = take (art.size + 1) body in
      extract_body sha256_hex f drain_fails art seen (unpack seen)
