-- ===== src/Supervisor/Symlinks/Swapping.antt =====
-- What a swap leaves on disk, whichever system call fails (internal/supervisor/symlinks.go).
use clawmast.Prelude.{
  String, ◌≡◌, ◌≢◌, ◌⊎◌, inl, inr, ◌↔◌, refl, sym, Bool, true, false, Option, none, some, arith,
  eq_iff,
}
use clawmast.Supervisor.Symlinks.{
  Links, SwapFaults, swapped, no_rollback_target, step_2_failed, step_3_failed,
  swap_current_previous,
}

abbrev pub no_faults : SwapFaults
no_faults = record {
  read_current = false;
  read_previous = false;
  clear_tmp = false;
  step_1 = false;
  step_2 = false;
  restore = false;
  step_3 = false;
}

-- Without a fault, two links to distinct targets are exchanged and the temporary name is gone.
pub swap_exchanges :
    (l : Links) (a b : String)
    → l.current ≡ some a
    → l.previous ≡ some b
    → a ≢ b
    → swap_current_previous false no_faults l
      ≡ (record { current = some b; previous = some a; swap_tmp = none }, swapped)
unfolding swap_current_previous
swap_exchanges l a b ca pb ne = ground (arith, eq_iff a b)

-- Two swaps in a row bring both links back to where they pointed.
pub swap_twice :
    (l : Links) (a b : String)
    → l.current ≡ some a
    → l.previous ≡ some b
    → a ≢ b
    → (swap_current_previous false no_faults (swap_current_previous false no_faults l).0).0
      ≡ record { current = some a; previous = some b; swap_tmp = none }
swap_twice l a b ca pb ne = rw (swap_exchanges l a b ca pb ne) (
    rw
      (swap_exchanges (record { current = some b; previous = some a; swap_tmp = none }) b a refl
        refl (λ e. ne (sym e)))
      refl)

-- Whatever fails, a result other than a swap or a failure of the last two renames leaves both links
-- as they were; a failed second rename loses `current` only if the restoring rename fails too; a
-- failed third rename leaves `current` at the old `previous`.
pub swap_fails_closed :
    (root_empty : Bool) (f : SwapFaults) (l : Links)
    → let (l', r) = swap_current_previous root_empty f l in
      (r ≢ swapped → r ≢ step_3_failed → l'.previous ≡ l.previous)
      × (r ≢ swapped → r ≢ step_2_failed → r ≢ step_3_failed → l'.current ≡ l.current)
      × (r ≡ step_2_failed → f.restore ≡ false → l'.current ≡ l.current)
      × (r ≡ step_2_failed → f.restore ≡ true → l'.swap_tmp ≡ l.current)
      × (r ≡ step_3_failed → (l'.current ≡ l.previous) × (l'.swap_tmp ≡ l.current))
unfolding swap_current_previous
swap_fails_closed root_empty f l = ground arith

abbrev NoTarget : Option String → Option String → Type 0
NoTarget c p = (c ≡ none) ⊎ ((p ≡ none) ⊎ (c ≡ p))

NoTarget-cases :
    (c p t : Option String)
    → ((swap_current_previous false no_faults
          (record { current = c; previous = p; swap_tmp = t })).1
        ≡ no_rollback_target)
      ↔ NoTarget c p
unfolding swap_current_previous
NoTarget-cases none p t = (λ _. inl refl, λ _. refl)
NoTarget-cases (some a) none t = (λ _. inr (inl refl), λ _. refl)
NoTarget-cases (some a) (some b) t =
    (λ r. inr (inr (ground (arith, eq_iff a b))), λ r. ground (arith, eq_iff a b))

-- Where the system calls work, there is no rollback target exactly when a link is missing or both
-- links have one target.
pub no_target_iff :
    (l : Links)
    → ((swap_current_previous false no_faults l).1 ≡ no_rollback_target)
      ↔ ((l.current ≡ none) ⊎ ((l.previous ≡ none) ⊎ (l.current ≡ l.previous)))
no_target_iff l = NoTarget-cases l.current l.previous l.swap_tmp
