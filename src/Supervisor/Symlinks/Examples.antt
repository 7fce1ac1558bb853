-- ===== src/Supervisor/Symlinks/Examples.antt =====
-- Swaps of internal/supervisor/symlinks.go on concrete links.
use clawmast.Prelude.{String, ◌≡◌, ◌≢◌, true, false, some, arith, eq_iff}
use clawmast.Supervisor.Symlinks.{
  Links, SwapFaults, swapped, step_2_failed, step_3_failed, swap_current_previous,
}
use clawmast.Supervisor.Symlinks.Swapping.{no_faults, swap_fails_closed}

abbrev two : Links
two = record { current = some "versions/v2"; previous = some "versions/v1"; swap_tmp = some "x" }

distinct : ◌≢◌ {A = String} "versions/v2" "versions/v1"
distinct = ground (arith, eq_iff "versions/v2" "versions/v1")

abbrev stuck : SwapFaults
stuck = record no_faults { step_2 = true; restore = true }

swap_fails_closed_example :
    let (l', r) = swap_current_previous false stuck two in
    (r ≢ swapped → r ≢ step_3_failed → l'.previous ≡ two.previous)
    × (r ≢ swapped → r ≢ step_2_failed → r ≢ step_3_failed → l'.current ≡ two.current)
    × (r ≡ step_2_failed → stuck.restore ≡ false → l'.current ≡ two.current)
    × (r ≡ step_2_failed → stuck.restore ≡ true → l'.swap_tmp ≡ two.current)
    × (r ≡ step_3_failed → (l'.current ≡ two.previous) × (l'.swap_tmp ≡ two.current))
swap_fails_closed_example = swap_fails_closed false stuck two
