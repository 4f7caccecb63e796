-- ===== src/Prelude/Int.antt =====
-- Python's `int`, where the code tests the sign of a configured number.
use Prim.Native.Nat.{ℕ}
use mathlib.Core.Option.{Option, none, some}

-- `negsuc n` is -(n + 1).
pub data ℤ : Type 0 where
  pos : ℕ → ℤ
  negsuc : ℕ → ℤ

-- The bound that `x is not None and x >= 0` lets through.
abbrev pub bound : Option ℤ → Option ℕ
bound none = none
bound (some (pos n)) = some n
bound (some (negsuc n)) = none
