-- ===== src/Prelude/Ints.antt =====
-- Signed integers over the native numbers, for the differences of two times.
use Prim.Native.Nat.{ℕ, suc, ◌-◌}
use infra_twin.Prelude.Tests.{leb, if◌then◌else◌}

pub data ℤ : Type 0 where
  pos : ℕ → ℤ
  -- the number -(n + 1)
  negsuc : ℕ → ℤ

-- The difference of two numbers.
unfoldable pub diff : ℕ → ℕ → ℤ
diff m n = if leb n m then pos (m - n) else negsuc (n - suc m)
