-- ===== src/Base/Int.antt =====
-- Go's `int`, where the source allows a negative value: `negsuc n` is -(n + 1).
use Prim.Native.Nat.{ℕ}

pub data ℤ : Type 0 where
  pos : ℕ → ℤ
  negsuc : ℕ → ℤ

-- max(n, 0): what is left of an int of which the code only asks how far above 0 it is
abbrev pub pos_part : ℤ → ℕ
pos_part (pos n) = n
pos_part (negsuc n) = 0
