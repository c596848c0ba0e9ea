-- ===== src/Prelude/Floats.antt =====
-- Floating-point numbers as a parameter: their operations, the literals and the comparison `<`. The
-- order of the numbers that are not NaN is a hypothesis where it is needed.
use Prim.Native.Nat.{ℕ}
use mathlib.Core.Bool.{Bool, not, ◌&&◌}
use abcd_yi.Prelude.Sorting.{IsOrder}

pub record Floats : Type 1 where
  pub Float : Type 0
  -- `float(n)`
  pub of_nat : ℕ → Float
  -- `decimal n k` is the literal whose digits are n, with k of them after the point.
  pub decimal : ℕ → ℕ → Float
  pub inf : Float
  pub add : Float → Float → Float
  pub sub : Float → Float → Float
  pub mul : Float → Float → Float
  pub div : Float → Float → Float
  -- `round(a, n)`
  pub round : Float → ℕ → Float
  pub lt : Float → Float → Bool

-- `a >= b`, for numbers that are not NaN
abbrev pub at_least : (f : Floats) → f.Float → f.Float → Bool
at_least f a b = not (f.lt a b)

-- The bool of a number: whether it is not 0.
abbrev pub is_zero : (f : Floats) → f.Float → Bool
is_zero f a = not (f.lt a (f.of_nat 0)) && not (f.lt (f.of_nat 0) a)

-- Numbers that are not NaN are ordered.
abbrev pub IsOrdered : Floats → Type 0
IsOrdered f = IsOrder (at_least f)
