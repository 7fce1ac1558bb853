-- ===== src/Supervisor/Symlinks.antt =====
-- internal/supervisor/symlinks.go: the links `current` and `previous` under the install root.
pub mod Swapping
mod Examples
use text.Mathlib.Text.{◌==◌ as str_eq}
use clawmast.Prelude.{String, Bool, true, false, Option, none, some, if◌then◌else◌}

-- The names under the root that the swap reads and renames, each with its target.
pub record Links : Type 0 where
  pub current : Option String
  pub previous : Option String
  pub swap_tmp : Option String

-- Which system calls fail for another reason than that the name does not exist.
pub record SwapFaults : Type 0 where
  pub read_current : Bool
  pub read_previous : Bool
  pub clear_tmp : Bool
  pub step_1 : Bool
  pub step_2 : Bool
  pub restore : Bool
  pub step_3 : Bool

pub data SwapResult : Type 0 where
  swapped : SwapResult
  no_rollback_target : SwapResult
  read_failed clear_failed step_1_failed step_2_failed step_3_failed : SwapResult

-- The renames, with the target of `current` moved through the temporary name.
rename_steps : SwapFaults → Links → Links × SwapResult
rename_steps f l =
    if f.step_1
    then (l, step_1_failed)
    else let moved = record l { current = none; swap_tmp = l.current } in
      if f.step_2
      then (
        if f.restore then moved else record moved { current = moved.swap_tmp; swap_tmp = none },
        step_2_failed,
      )
      else let half = record moved { current = moved.previous; previous = none } in
        if f.step_3
        then (half, step_3_failed)
        else (record half { previous = half.swap_tmp; swap_tmp = none }, swapped)

-- The part after both links are read.
swap_targets : SwapFaults → Links → String → String → Links × SwapResult
unfolding rename_steps
swap_targets f l cur_target prev_target =
    if str_eq cur_target prev_target
    then (l, no_rollback_target)
    else if f.clear_tmp
    then (l, clear_failed)
    else rename_steps f (record l { swap_tmp = none })

swap_previous : SwapFaults → Links → String → Option String → Links × SwapResult
unfolding swap_targets
swap_previous f l cur_target none = (l, no_rollback_target)
swap_previous f l cur_target (some prev_target) =
    if f.read_previous then (l, read_failed) else swap_targets f l cur_target prev_target

swap_current : SwapFaults → Links → Option String → Links × SwapResult
unfolding swap_previous
swap_current f l none = (l, no_rollback_target)
swap_current f l (some cur_target) =
    if f.read_current then (l, read_failed) else swap_previous f l cur_target l.previous

-- SwapCurrentPrevious. The first argument says whether the root is the empty string.
unfoldable pub swap_current_previous : Bool → SwapFaults → Links → Links × SwapResult
unfolding swap_current
swap_current_previous root_empty f l =
    if root_empty then (l, no_rollback_target) else swap_current f l l.current
