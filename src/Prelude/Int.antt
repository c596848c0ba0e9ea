-- ===== src/Prelude/Int.antt =====
-- Signed integers over the native numbers, under the library's names.
use Prim.Native.Nat.{ℕ, suc, ◌-◌, ◌/◌}
use abcd_yi.Prelude.Tests.{leb, if◌then◌else◌}

-- `negsuc n` is -(n + 1).
pub data ℤ : Type 0 where
  pos : ℕ → ℤ
  negsuc : ℕ → ℤ

abbrev pub abs : ℤ → ℕ
abs (pos n) = n
abs (negsuc n) = suc n

-- `(a - b) // d` of Python, which rounds down, for a positive d.
unfoldable pub floor_div_sub : ℕ → ℕ → ℕ → ℤ
floor_div_sub a b d = if leb b a then pos ((a - b) / d) else negsuc ((b - a - 1) / d)
