-- ===== src/Base/Int.antt =====
-- What Python's `int(value)` returns: any integer.
use Prim.Native.Nat.{ℕ}

-- `negsuc n` is -(n + 1).
pub data ℤ : Type 0 where
  pos : ℕ → ℤ
  negsuc : ℕ → ℤ
