-- ===== src/Prelude/Int.antt =====
-- Signed integers, as a query parameter holds them.
use Prim.Native.Nat.{ℕ}

-- `negsuc n` is -(n + 1).
pub data ℤ : Type 0 where
  pos : ℕ → ℤ
  negsuc : ℕ → ℤ
