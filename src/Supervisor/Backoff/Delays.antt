-- ===== src/Supervisor/Backoff/Delays.antt =====
-- The delays of internal/supervisor/backoff.go.
use clawmast.Prelude.{
  ap, if◌then◌else◌, ℕ, zero, suc, ◌+◌, ◌-◌, ◌*◌, ◌/◌, ◌^◌, ◌≤◌, ◌<◌, min, ◌≡◌, refl, ◌∙◌, true,
  arith, ltb, Bool-cases, inl, inr, ◌==◌, second,
}
use native.Mathlib.Nat.{pow-le-pow_right}
use clawmast.Supervisor.Backoff.{
  BackoffPolicy, new_backoff, plus, shift_for, shifted, capped, jitter, delay,
}

capped-le-max : (p : BackoffPolicy) (n : ℕ) → capped p n ≤ p.max
unfolding capped
capped-le-max p n = ground arith

jitter-plus : (d draw : ℕ) → d * (8 + draw) < 2 ^ 63 → jitter d draw ≡ plus (d * (8 + draw) / 10)
unfolding jitter
jitter-plus d draw room = ground arith

scale_le : (d m draw : ℕ) → d ≤ m → draw < 4 → d * (8 + draw) ≤ 11 * m
scale_le d m draw h low = grind arith

-- With a maximum far enough from overflow, and a draw in the range that is asked for, the delay is
-- not negative and at most 1.1 times the maximum, whatever the base and the number of crashes, even
-- where the shift overflows.
pub delay_bounds :
    (p : BackoffPolicy) (n draw : ℕ)
    → 11 * p.max < 2 ^ 63
    → draw < 4
    → (d : ℕ) × (delay p n draw ≡ plus d) × (10 * d ≤ 11 * p.max)
unfolding delay
delay_bounds p n draw room low =
    let small : capped p n * (8 + draw) ≤ 11 * p.max =
      scale_le (capped p n) p.max draw (capped-le-max p n) low in
    (capped p n * (8 + draw) / 10, jitter-plus (capped p n) draw (omega arith), omega arith)

-- The exponential delay without jitter and without machine arithmetic.
abbrev pub exponential : ℕ → ℕ
exponential n = min (second * 2 ^ (n - 1)) (60 * second)

eq_of_test : (a b : ℕ) → (a == b) ≡ true → a ≡ b
eq_of_test a b h = ground arith

-- How many crash counts under the limit have a delay that differs from it.
disagreements : ℕ → ℕ
disagreements zero = 0
disagreements (suc limit) =
    (if capped new_backoff limit == exponential limit then 0 else 1) + disagreements limit

agree_near : disagreements 64 ≡ 0
unfolding disagreements capped
agree_near = refl

disagreements-agree :
    (limit n : ℕ) → n < limit → disagreements limit ≡ 0 → capped new_backoff n ≡ exponential n
unfolding disagreements
disagreements-agree zero n near clean = absurd (omega arith)
disagreements-agree (suc limit) n near clean = elim (Bool-cases (n == limit)) [
  | inl last ↦ ground (
    arith,
    ap (capped new_backoff) (eq_of_test n limit last),
    ap exponential (eq_of_test n limit last),
  )
  | inr other ↦ disagreements-agree limit n (ground arith) (ground arith)
]

shift_for_far : (n : ℕ) → 63 ≤ n → shift_for n ≡ 62
unfolding shift_for
shift_for_far n h = ground arith

shifted_far : shifted new_backoff 62 ≡ 60 * second
unfolding shifted
shifted_far = refl

capped_far : (n : ℕ) → 63 ≤ n → capped new_backoff n ≡ 60 * second
capped_far n h = unfold capped in rw (shift_for_far n h) shifted_far

exponential_far : (n : ℕ) → 63 ≤ n → 60 * second ≡ exponential n
exponential_far n h =
    omega (arith, pow-le-pow_right {n = 2} (omega arith) {i = 6} {j = n - 1} (omega arith))

-- Before jitter, the protocol's policy is exactly the clamped exponential, for every number of
-- crashes: neither the clamp of the exponent nor the wrap of the shift shows.
capped_exact : (n : ℕ) → capped new_backoff n ≡ exponential n
capped_exact n = elim (Bool-cases (ltb n 63)) [
  | inl near ↦ disagreements-agree 64 n (ground arith) agree_near
  | inr far ↦ capped_far n (ground arith) ∙ exponential_far n (ground arith)
]

-- The protocol's formula: the delay after n crashes is the clamped exponential times a factor of
-- 8/10 to 11/10, chosen by the draw.
pub delay_exact :
    (n draw : ℕ) → draw < 4 → delay new_backoff n draw ≡ plus (exponential n * (8 + draw) / 10)
unfolding delay
delay_exact n draw low = rw capped_exact (
    jitter-plus (exponential n) draw
      (omega (arith, scale_le (exponential n) (60 * second) draw (omega arith) low)))
