-- ===== src/Openclaw/Exec.antt =====
-- internal/openclaw/exec.go: what running the CLI returns, from what package os/exec reports of it.
use clawmast.Prelude.{
  ℕ, String, Bool, true, false, not, ◌&&◌, Option, none, some, if◌then◌else◌, ◌≡◌, ◌≢◌, ◌↔◌, ◌⊎◌,
  inl, inr, Bool-cases, refl, arith, eq_iff,
}
use clawmast.Openclaw.Cascade.{Result, Ran, outcome_of}

-- The error of cmd.Run: none, an ExitError, or another one.
pub data RunError : Type 0 where
  run_ok exit_error : RunError
  run_failed : String → RunError

-- What is known once cmd.Run has returned: the exit code of a process that was started, whether the
-- deadline of the context had passed, and whether the caller's context was cancelled.
pub record Command : Type 0 where
  pub exit_code : Option ℕ
  pub duration_ms : ℕ
  pub stdout_tail : String
  pub stderr_tail : String
  pub deadline_passed : Bool
  pub cancelled : Bool
  pub error : RunError

abbrev pub code_of : Option ℕ → ℕ
code_of none = 0
code_of (some n) = n

unfoldable pub result_of : Command → Bool → Result
result_of c killed = record {
  killed = killed;
  duration_ms = c.duration_ms;
  exit_code = code_of c.exit_code;
  stdout_tail = c.stdout_tail;
  stderr_tail = c.stderr_tail;
}

unfoldable pub ended : String → Command → RunError → Ran
unfolding result_of
ended canceled_text c run_ok = record { result = some (result_of c false); error = none }
ended canceled_text c exit_error = record { result = some (result_of c false); error = none }
ended canceled_text c (run_failed e) =
    if c.cancelled
    then record { result = some (result_of c true); error = some canceled_text }
    else record { result = some (result_of c false); error = some e }

-- runCmd. The flags say that Runner.Binary is set and that LookPath finds the binary; the texts are those
-- of the errors.
unfoldable pub run_cmd : String → String → Bool → Bool → Command → Ran
unfolding ended result_of
run_cmd timeout_text canceled_text custom there c =
    if not there && not custom
    then record { result = none; error = some "openclaw: binary not found on PATH" }
    else if c.deadline_passed
    then record { result = some (result_of c true); error = some timeout_text }
    else ended canceled_text c c.error

abbrev pub Started : Bool → Bool → Type 0
Started custom there = (there ≡ true) ⊎ (custom ≡ true)

-- The command ended by itself, with or without a failing exit code.
abbrev pub EndedAlone : RunError → Type 0
EndedAlone run_ok = Unit
EndedAlone exit_error = Unit
EndedAlone (run_failed e) = ⊥

abbrev pub Broke : RunError → Type 0
Broke run_ok = ⊥
Broke exit_error = ⊥
Broke (run_failed e) = Unit

ended_outcome :
    (canceled_text : String) (c : Command) (e : RunError)
    → let ran = ended canceled_text c e in
      ((outcome_of ran.result ran.error ≡ "ok") ↔ (EndedAlone e × (code_of c.exit_code ≡ 0)))
      × ((outcome_of ran.result ran.error ≡ "timeout") ↔ (Broke e × (c.cancelled ≡ true)))
unfolding ended result_of outcome_of
ended_outcome canceled_text c run_ok = ground (
  arith,
  eq_iff "failed" "ok",
  eq_iff "failed" "timeout",
  eq_iff "ok" "timeout",
  eq_iff "timeout" "ok",
)
ended_outcome canceled_text c exit_error = ground (
  arith,
  eq_iff "failed" "ok",
  eq_iff "failed" "timeout",
  eq_iff "ok" "timeout",
  eq_iff "timeout" "ok",
)
ended_outcome canceled_text c (run_failed e) = elim (Bool-cases c.cancelled) [
  | inl gone ↦ rw gone (
      ground (
        arith,
        eq_iff "failed" "ok",
        eq_iff "failed" "timeout",
        eq_iff "ok" "timeout",
        eq_iff "timeout" "ok",
      ))
  | inr there ↦ rw there (
      ground (
        arith,
        eq_iff "failed" "ok",
        eq_iff "failed" "timeout",
        eq_iff "ok" "timeout",
        eq_iff "timeout" "ok",
      ))
]

started_outcome :
    (timeout_text canceled_text : String) (c : Command) (late : Bool)
    → let ran =
        if late
        then record { result = some (result_of c true); error = some timeout_text }
        else ended canceled_text c c.error in
      ((outcome_of ran.result ran.error ≡ "ok")
        ↔ ((late ≡ false) × EndedAlone c.error × (code_of c.exit_code ≡ 0)))
      × ((outcome_of ran.result ran.error ≡ "timeout")
          ↔ ((late ≡ true) ⊎ (Broke c.error × (c.cancelled ≡ true))))
unfolding outcome_of result_of
started_outcome timeout_text canceled_text c true = (
  (
    λ h. absurd (
        ground (
          arith,
          h,
          eq_iff "failed" "ok",
          eq_iff "failed" "timeout",
          eq_iff "ok" "timeout",
          eq_iff "timeout" "ok",
        )),
    λ h. absurd (ground (arith, h.0)),
  ),
  (λ h. inl refl, λ h. refl),
)
started_outcome timeout_text canceled_text c false =
    let (fine, broken) = ended_outcome canceled_text c c.error in
    (
      (λ h. (refl, (fine.0 h).0, (fine.0 h).1), λ h. fine.1 (h.1, h.2)),
      (
        λ h. inr (broken.0 h),
        λ h. elim h [ inl wrong ↦ absurd (ground (arith, wrong)) | inr b ↦ broken.1 b ],
      ),
    )

missing_outcome :
    (e : String) → (outcome_of none (some e) ≢ "ok") × (outcome_of none (some e) ≢ "timeout")
unfolding outcome_of
missing_outcome e = (
  λ h. ground (
    arith,
    h,
    eq_iff "failed" "ok",
    eq_iff "failed" "timeout",
    eq_iff "ok" "timeout",
    eq_iff "timeout" "ok",
  ),
  λ h. ground (
    arith,
    h,
    eq_iff "failed" "ok",
    eq_iff "failed" "timeout",
    eq_iff "ok" "timeout",
    eq_iff "timeout" "ok",
  ),
)

-- A run of the CLI is reported as a success exactly if it could be started, ended by itself before the
-- deadline, and exited with code 0. It is reported as timed out exactly if it could be started and the
-- deadline passed, or it broke off while the caller had cancelled it.
pub run_verdict :
    (timeout_text canceled_text : String) (custom there : Bool) (c : Command)
    → let ran = run_cmd timeout_text canceled_text custom there c in
      ((outcome_of ran.result ran.error ≡ "ok") ↔ (
        Started custom there
        × (c.deadline_passed ≡ false)
        × EndedAlone c.error
        × (code_of c.exit_code ≡ 0)))
      × ((outcome_of ran.result ran.error ≡ "timeout") ↔ (
          Started custom there
          × ((c.deadline_passed ≡ true) ⊎ (Broke c.error × (c.cancelled ≡ true)))))
unfolding run_cmd
run_verdict timeout_text canceled_text false false c =
    let (not_ok, not_late) = missing_outcome "openclaw: binary not found on PATH" in
    (
      (λ h. absurd (not_ok h), λ h. absurd (ground (arith, h.0))),
      (λ h. absurd (not_late h), λ h. absurd (ground (arith, h.0))),
    )
run_verdict timeout_text canceled_text true false c =
    let (fine, broken) = started_outcome timeout_text canceled_text c c.deadline_passed in
    (
      (λ h. (inr refl, (fine.0 h).0, (fine.0 h).1, (fine.0 h).2), λ h. fine.1 (h.1, h.2, h.3)),
      (λ h. (inr refl, broken.0 h), λ h. broken.1 h.1),
    )
run_verdict timeout_text canceled_text custom true c =
    let (fine, broken) = started_outcome timeout_text canceled_text c c.deadline_passed in
    (
      (λ h. (inl refl, (fine.0 h).0, (fine.0 h).1, (fine.0 h).2), λ h. fine.1 (h.1, h.2, h.3)),
      (λ h. (inl refl, broken.0 h), λ h. broken.1 h.1),
    )
