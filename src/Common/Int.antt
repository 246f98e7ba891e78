-- ===== src/Common/Int.antt =====
-- Go's signed integers where a value may be negative: only their sign and their order matter here.
use Prim.Native.Nat.{ℕ}

-- `negsuc n` is -(n + 1).
pub data ℤ : Type 0 where
  pos : ℕ → ℤ
  negsuc : ℕ → ℤ
