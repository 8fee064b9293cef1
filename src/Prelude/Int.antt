-- ===== src/Prelude/Int.antt =====
-- Python's integers: `negsuc n` is -(n + 1).
use Prim.Native.Nat.{ℕ}
use mathlib.Core.Bool.{Bool, false}
use hermes_ops.Prelude.Tests.{nat_eq, ltb}

pub data ℤ : Type 0 where
  pos : ℕ → ℤ
  negsuc : ℕ → ℤ

abbrev pub eq_ℤ : ℤ → ℤ → Bool
eq_ℤ (pos a) (pos b) = nat_eq a b
eq_ℤ (negsuc a) (negsuc b) = nat_eq a b
eq_ℤ _ _ = false

-- `0 < a`.
abbrev pub positive : ℤ → Bool
positive (pos a) = ltb 0 a
positive (negsuc a) = false
