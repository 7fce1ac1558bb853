-- ===== src/Openclaw/Poller/History.antt =====
-- What the bookkeeping of ProbeNow in internal/openclaw/poller.go amounts to over a run of probes.
use clawmast.Prelude.{
  ℕ, zero, suc, ◌+◌, ◌-◌, ◌≤◌, Time, Bool, false, not, ◌&&◌, List, [], ◌∷◌, ◌++◌, ◌≡◌, refl, sym,
  ap, ◌∙◌, arith, if◌then◌else◌, ltb, Bool-cases, inl, inr, length, drop, length-append,
  length-drop,
}
use mathlib.Core.List.{append_assoc, append-nil}
use clawmast.Openclaw.Phase.{Snapshot, ProbeSample}
use clawmast.Openclaw.Poller.{
  Manager, probe_history_len, append_probe_sample, carry_over, with_phase, fired, update_snapshot,
  probe_now,
}

-- Successive probes: what each returns and when it is stored.
pub probe_all : List (Snapshot × Time) → Manager → Manager
probe_all [] m = m
probe_all ((next, now) ∷ rest) m = probe_all rest (probe_now next now m).0

abbrev pub sample_of : Snapshot → ProbeSample
sample_of next = record {
  at = next.last_probe_at;
  alive = next.alive;
  probe_ms = next.last_probe_ms;
}

abbrev pub samples : List (Snapshot × Time) → List ProbeSample
samples [] = []
samples ((next, now) ∷ rest) = sample_of next ∷ samples rest

-- The last `n` elements.
abbrev pub latest {ℓ} : {A : Type ℓ} → ℕ → List A → List A
latest n xs = drop (length xs - n) xs

-- How often a probe that found the gateway alive is followed by one that did not.
pub falls : Bool → List (Snapshot × Time) → ℕ
falls up [] = 0
falls up ((next, now) ∷ rest) =
    (if up && not next.alive then 1 else 0) + falls (next.probed && next.alive) rest

module _ {ℓ} {A : Type ℓ} where
  drop_left : (n : ℕ) (xs ys : List A) → n ≤ length xs → drop n xs ++ ys ≡ drop n (xs ++ ys)
  drop_left zero xs ys h = refl
  drop_left (suc n) [] ys h = absurd (omega arith)
  drop_left (suc n) (x ∷ xs) ys h = drop_left n xs ys (omega arith)

  drop-nil : (n : ℕ) → drop {A = A} n [] ≡ []
  drop-nil zero = refl
  drop-nil (suc n) = refl

  drop-drop : (a b : ℕ) (xs : List A) → drop a (drop b xs) ≡ drop (b + a) xs
  drop-drop a zero xs = ap (λ n. drop n xs) (omega arith)
  drop-drop a (suc b) [] = drop-nil a ∙ sym (drop-nil (suc b + a))
  drop-drop a (suc b) (x ∷ xs) =
      let shift : suc (b + a) ≡ suc b + a = omega arith in
      drop-drop a b xs ∙ ap (λ n. drop n (x ∷ xs)) shift

  -- Forgetting early and forgetting late keep the same elements.
  latest-latest : (n : ℕ) (xs ys : List A) → latest n (latest n xs ++ ys) ≡ latest n (xs ++ ys)
  latest-latest n xs ys =
      let k = length xs - n in
      let joined : drop k xs ++ ys ≡ drop k (xs ++ ys) = drop_left k xs ys (omega arith) in
      ap (latest n) joined
      ∙ drop-drop (length (drop k (xs ++ ys)) - n) k (xs ++ ys)
      ∙ ap (λ j. drop j (xs ++ ys)) (omega (arith, length-drop k (xs ++ ys), length-append xs ys))

no_excess : (n : ℕ) → ltb probe_history_len n ≡ false → n - probe_history_len ≡ 0
no_excess n h = ground arith

append_is_latest :
    (history : List ProbeSample) (sample : ProbeSample)
    → append_probe_sample history sample ≡ latest probe_history_len (history ++ sample ∷ [])
unfolding append_probe_sample
append_is_latest history sample =
    let out = history ++ sample ∷ [] in
    elim (Bool-cases (ltb probe_history_len (length out))) [
      | inl long ↦ ground arith
      | inr short ↦ ground (arith, ap (λ n. drop n out) (no_excess (length out) short))
    ]

one_history :
    (next : Snapshot) (now : Time) (m : Manager)
    → (probe_now next now m).0.snap.probe_history
      ≡ append_probe_sample m.snap.probe_history (sample_of next)
unfolding probe_now update_snapshot carry_over with_phase fired
one_history next now m = ground arith

latest_all :
    (xs : List ProbeSample) → length xs ≤ probe_history_len → xs ≡ latest probe_history_len xs
latest_all xs h =
    let none_dropped : 0 ≡ length xs - probe_history_len = omega arith in
    ap (λ n. drop n xs) none_dropped

length-latest : (n : ℕ) (xs : List ProbeSample) → length (latest n xs) ≤ n
length-latest n xs = omega (arith, length-drop (length xs - n) xs)

-- However many probes are stored, the history that the UI is shown is the last 20 samples, the ones
-- that were there at the start included, where there were at most 20 of those.
pub history_exact :
    (probes : List (Snapshot × Time)) (m : Manager)
    → length m.snap.probe_history ≤ probe_history_len
    → (probe_all probes m).snap.probe_history
      ≡ latest probe_history_len (m.snap.probe_history ++ samples probes)
unfolding probe_all
history_exact [] m h = rw append-nil (latest_all m.snap.probe_history h)
history_exact ((next, now) ∷ rest) m h =
    let m1 = (probe_now next now m).0 in
    let old = m.snap.probe_history in
    let one : m1.snap.probe_history ≡ latest probe_history_len (old ++ sample_of next ∷ []) =
      one_history next now m ∙ append_is_latest old (sample_of next) in
    let fits : length m1.snap.probe_history ≤ probe_history_len =
      rw one (length-latest probe_history_len (old ++ sample_of next ∷ [])) in
    history_exact rest m1 fits
    ∙ ap (λ l. latest probe_history_len (l ++ samples rest)) one
    ∙ latest-latest probe_history_len (old ++ sample_of next ∷ []) (samples rest)
    ∙ ap (latest probe_history_len) (append_assoc old (sample_of next ∷ []) (samples rest))

pub one_fall :
    (next : Snapshot) (now : Time) (m : Manager)
    → ((probe_now next now m).0.snap.crash_count
        ≡ m.snap.crash_count + (if (m.snap.probed && m.snap.alive) && not next.alive then 1 else 0))
      × ((probe_now next now m).0.snap.probed ≡ next.probed)
      × ((probe_now next now m).0.snap.alive ≡ next.alive)
unfolding probe_now update_snapshot carry_over with_phase fired
one_fall next now m = ground arith

-- The crash count grows by one for each probe that finds the gateway down just after one that found
-- it alive, and by nothing else: a gateway that is down at the first probe is not counted.
pub crash_count_exact :
    (probes : List (Snapshot × Time)) (m : Manager)
    → (probe_all probes m).snap.crash_count
      ≡ m.snap.crash_count + falls (m.snap.probed && m.snap.alive) probes
unfolding probe_all falls
crash_count_exact [] m = omega arith
crash_count_exact ((next, now) ∷ rest) m =
    let (one, probed, alive) = one_fall next now m in
    ground (arith, one, probed, alive, crash_count_exact rest (probe_now next now m).0)
