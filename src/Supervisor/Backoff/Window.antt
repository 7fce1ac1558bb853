-- ===== src/Supervisor/Backoff/Window.antt =====
-- The sliding window of crashes of internal/supervisor/backoff.go, over whole runs.
use clawmast.Prelude.{
  ℕ, ◌+◌, ◌≤◌, ◌<◌, Time, Bool, true, false, List, [], ◌∷◌, ◌++◌, ◌≡◌, refl, ap, ◌∙◌, arith, length,
  keep_if, All, leb,
}
use mathlib.Core.List.{append_assoc, append-nil}
use clawmast.Supervisor.Backoff.{
  BackoffPolicy, Tracker, new_tracker, mark_running, in_window, record_crash, should_rollback,
}

-- The instants do not go back.
abbrev pub IsChain : Time → List Time → Type 0
IsChain l [] = Unit
IsChain l (x ∷ xs) = (l ≤ x) × IsChain x xs

abbrev pub last_or : Time → List Time → Time
last_or l [] = l
last_or l (x ∷ xs) = last_or x xs

pub record_all : Tracker → List Time → Tracker
record_all t [] = t
record_all t (now ∷ rest) = record_all (record_crash t now) rest

module _ (p q : Time → Bool) (weaker : (x : Time) → q x ≡ true → p x ≡ true) where
  keep_if-keep_if : (xs ys : List Time) → keep_if q (keep_if p xs ++ ys) ≡ keep_if q (xs ++ ys)
  keep_if-keep_if [] ys = refl
  keep_if-keep_if (x ∷ xs) ys = ground (arith, weaker x, keep_if-keep_if xs ys)

in_window_later : (w l now x : ℕ) → l ≤ now → in_window w now x ≡ true → in_window w l x ≡ true
unfolding in_window
in_window_later w l now x le h = ground arith

-- A tracker whose worker is not running.
abbrev at_rest : BackoffPolicy → List Time → Tracker
at_rest p cs = record { policy = p; running = 0; crashes = cs }

window_from :
    (p : BackoffPolicy) (past : List Time) (l : Time) (ts : List Time)
    → IsChain l ts
    → (record_all (at_rest p (keep_if (in_window p.crash_window l) past)) ts).crashes
      ≡ keep_if (in_window p.crash_window (last_or l ts)) (past ++ ts)
unfolding record_all record_crash
window_from p past l [] h = rw append-nil
window_from p past l (now ∷ ts) h =
    let w = p.crash_window in
    let trim =
      keep_if-keep_if (in_window w l) (in_window w now) (λ x. in_window_later w l now x h.0) past
        (now ∷ []) in
    ap (λ cs. (record_all (at_rest p cs) ts).crashes) trim
    ∙ window_from p (past ++ now ∷ []) now ts h.1
    ∙ ap (keep_if (in_window w (last_or now ts))) (append_assoc past (now ∷ []) ts)

keep_if_ext :
    (p q : Time → Bool) (xs : List Time) → ((x : Time) → p x ≡ q x) → keep_if p xs ≡ keep_if q xs
keep_if_ext p q [] h = refl
keep_if_ext p q (x ∷ xs) h = rw (h x, keep_if_ext p q xs h) refl

in_window_is : (w now x : ℕ) → in_window w now x ≡ leb now (x + w)
unfolding in_window
in_window_is w now x = ground arith

-- Crashes at instants that do not go back, with no READY between them, leave on record, in their order,
-- exactly those that lie at most the crash window before the last one.
pub window_exact :
    (p : BackoffPolicy) (t : Time) (ts : List Time)
    → IsChain t ts
    → (record_all (new_tracker p) (t ∷ ts)).crashes
      ≡ keep_if (λ x. leb (last_or t ts) (x + p.crash_window)) (t ∷ ts)
unfolding new_tracker record_all record_crash
window_exact p t ts h =
    let w = p.crash_window in
    window_from p [] t (t ∷ ts) (omega arith, h)
    ∙ keep_if_ext (in_window w (last_or t ts)) (λ x. leb (last_or t ts) (x + w)) (t ∷ ts)
        (in_window_is w (last_or t ts))

-- One cycle of the worker: it reaches READY at the first instant and crashes at the second.
pub record_cycles : Tracker → List (Time × Time) → Tracker
record_cycles t [] = t
record_cycles t ((ready, crash) ∷ rest) =
    record_cycles (record_crash (mark_running t ready) crash) rest

abbrev pub IsSteady : BackoffPolicy → Time × Time → Type 0
IsSteady p c = (0 < c.0) × (c.0 + p.steady_reset ≤ c.1)

one_crash :
    (t : Tracker) (ready crash : Time)
    → IsSteady t.policy (ready, crash)
    → (length (record_crash (mark_running t ready) crash).crashes ≤ 1)
      × ((record_crash (mark_running t ready) crash).policy ≡ t.policy)
unfolding record_crash mark_running
one_crash t ready crash h = ground arith

-- A worker that stays up for the steady-reset time before each of its crashes is never rolled back
-- for crashing, however often it crashes, where the cap is at least 2 and no more than one crash
-- is on record at the start.
pub steady_never_rolls_back :
    (t : Tracker) (cycles : List (Time × Time))
    → 1 < t.policy.crash_cap
    → length t.crashes ≤ 1
    → All (IsSteady t.policy) cycles
    → should_rollback (record_cycles t cycles) ≡ false
unfolding record_cycles should_rollback
steady_never_rolls_back t [] cap few h = ground arith
steady_never_rolls_back t ((ready, crash) ∷ rest) cap few h =
    let (fewer, same) = one_crash t ready crash h.0 in
    steady_never_rolls_back (record_crash (mark_running t ready) crash) rest (rw same cap) fewer
      (rw same h.1)
