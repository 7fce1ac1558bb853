-- ===== src/Prelude.antt =====
-- The names that the other modules share: the libraries', passed on, and those of two children.
mod Tests
mod Lists
pub use Tests.*
pub use Lists.*
pub use Prim.Native.Nat.{ℕ, zero, suc, ◌+◌, ◌-◌, ◌*◌, ◌/◌, ◌%◌, ◌^◌, ◌≤◌, ◌<◌, min}
pub use Prim.Native.String.{String}
pub use mathlib.Core.Path.{◌≡◌, refl, sym, ap, ◌∙◌}
pub use mathlib.Core.Logic.{◌≢◌, ◌↔◌, ◌⊎◌, inl, inr}
pub use mathlib.Core.Bool.{Bool, true, false, not, ◌&&◌, ◌||◌}
pub use mathlib.Core.Option.{Option, none, some}
pub use mathlib.Core.List.{List, [], ◌∷◌, ◌++◌}
pub use native.Mathlib.Omega.{arith}
pub use text.Mathlib.Text.{◌==◌ as str_eq, starts_with}
pub use text.Mathlib.TextEquality.{eq_iff}
pub use text.Mathlib.TextPositions.{eq_refl}

-- An instant, in nanoseconds from Go's zero time. The zero time itself is 0.
abbrev pub Time : Type 0
Time = ℕ

-- A duration that is not negative, in nanoseconds.
abbrev pub Duration : Type 0
Duration = ℕ

abbrev pub second : Duration
second = 1_000_000_000

-- t.IsZero()
abbrev pub is_zero_time : Time → Bool
is_zero_time t = t == 0

-- a.Before(b)
abbrev pub before : Time → Time → Bool
before a b = ltb a b

-- now.Sub(t) >= d, for a d that is not negative. Go's saturation of Sub does not change this test.
abbrev pub since_ge : Time → Time → Duration → Bool
since_ge now t d = leb (t + d) now
