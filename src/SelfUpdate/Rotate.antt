-- ===== src/SelfUpdate/Rotate.antt =====
-- internal/selfupdate/rotate_unix.go: pointing `current` at a new version and `previous` at the old.
use text.Mathlib.Text.{◌==◌ as str_eq}
use clawmast.Prelude.{
  String, Bool, true, false, Option, none, some, ◌≡◌, arith, eq_iff, if◌then◌else◌,
}
use clawmast.Supervisor.Symlinks.{Links}

-- Which system calls fail for another reason than a missing name.
pub record RotateFaults : Type 0 where
  pub read_current : Bool
  pub clear_previous : Bool
  pub write_previous : Bool
  pub read_previous : Bool
  pub clear_current : Bool
  pub write_current : Bool

pub data RotateError : Type 0 where
  clear_previous_failed write_previous_failed clear_current_failed write_current_failed :
      RotateError

-- The results (before, after, previous) and the error; "" stands for no link.
pub record Rotation : Type 0 where
  pub before : String
  pub after : String
  pub previous : String
  pub error : Option RotateError

-- The second half: replacing `current`.
write_current_link : RotateFaults → Links → String → String → String → Links × Rotation
write_current_link f l target before previous =
    if f.clear_current
    then (
      l,
      record {
        before = before;
        after = "";
        previous = previous;
        error = some clear_current_failed;
      },
    )
    else if f.write_current
    then (
      record l { current = none },
      record {
        before = before;
        after = "";
        previous = previous;
        error = some write_current_failed;
      },
    )
    else (
      record l { current = some target },
      record { before = before; after = target; previous = previous; error = none },
    )

abbrev target_or_empty : Bool → Option String → String
target_or_empty true _ = ""
target_or_empty false none = ""
target_or_empty false (some p) = p

-- `existing` is what `current` points at, if it can be read.
rotate_from : RotateFaults → Links → String → Option String → Links × Rotation
unfolding write_current_link
rotate_from f l target none = write_current_link f l target "" ""
rotate_from f l target (some existing) =
    if str_eq existing target
    then write_current_link f l target existing (target_or_empty f.read_previous l.previous)
    else if f.clear_previous
    then (
      l,
      record { before = existing; after = ""; previous = ""; error = some clear_previous_failed },
    )
    else if f.write_previous
    then (
      record l { previous = none },
      record { before = existing; after = ""; previous = ""; error = some write_previous_failed },
    )
    else write_current_link f (record l { previous = some existing }) target existing existing

-- `target` is filepath.Join("versions", version).
unfoldable pub rotate_symlinks : RotateFaults → Links → String → Links × Rotation
unfolding rotate_from
rotate_symlinks f l target = rotate_from f l target (if f.read_current then none else l.current)

-- Whatever fails, the report agrees with the links: without an error `current` is the target, the
-- temporary name of the swap is untouched, and installing the version that is current already leaves
-- `previous` alone.
pub rotation_report :
    (f : RotateFaults) (l : Links) (target : String)
    → let (l', r) = rotate_symlinks f l target in
      (r.error ≡ none → (l'.current ≡ some target) × (r.after ≡ target))
      × (l'.swap_tmp ≡ l.swap_tmp)
      × (l.current ≡ some target → l'.previous ≡ l.previous)
unfolding rotate_symlinks
rotation_report f l target = ground (arith, eq_iff target target)
