-- ===== src/Prelude/Numbers.antt =====
-- Integers over the native natural numbers, for differences of times.
use Prim.Native.Nat.{ℕ, ◌-◌}
use package.kalen.Prelude.Tests.{leb, if◌then◌else◌}

pub data ℤ : Type 0 where
  pos : ℕ → ℤ
  negsuc : ℕ → ℤ

-- `a - b`
abbrev pub difference : ℕ → ℕ → ℤ
difference a b = if leb b a then pos (a - b) else negsuc (b - a - 1)
