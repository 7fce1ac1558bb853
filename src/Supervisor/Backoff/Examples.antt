-- ===== src/Supervisor/Backoff/Examples.antt =====
-- Runs of internal/supervisor/backoff.go on concrete inputs.
use clawmast.Prelude.{leb, ◌+◌, ◌*◌, ◌≡◌, refl, ◌∷◌, [], arith, second, keep_if}
use clawmast.Supervisor.Backoff.{BackoffPolicy, new_backoff, new_tracker, plus, delay, in_window}
use clawmast.Supervisor.Backoff.Window.{record_all, window_exact}

third_retry : delay new_backoff 3 2 ≡ plus (4 * second)
unfolding delay
third_retry = refl

abbrev quick : BackoffPolicy
quick = record { base = 1; max = 8; steady_reset = 100; crash_window = 10; crash_cap = 2 }

window_exact_example :
    (record_all (new_tracker quick) (5 ∷ 9 ∷ 17 ∷ [])).crashes
    ≡ keep_if (λ x. leb 17 (x + quick.crash_window)) (5 ∷ 9 ∷ 17 ∷ [])
window_exact_example = window_exact quick 5 (9 ∷ 17 ∷ []) (omega arith)

two_kept : keep_if (in_window quick.crash_window 17) (5 ∷ 9 ∷ 17 ∷ []) ≡ 9 ∷ 17 ∷ []
unfolding in_window
two_kept = refl
