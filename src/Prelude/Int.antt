-- ===== src/Prelude/Int.antt =====
-- A `long`: `pos n` is n, and `negsuc n` is -(n + 1).
use Prim.Native.Nat.{ℕ}

pub data ℤ : Type 0 where
  pos : ℕ → ℤ
  negsuc : ℕ → ℤ
