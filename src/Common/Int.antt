-- ===== src/Common/Int.antt =====
-- Signed integers over the native numbers: C's int and int64_t where no result leaves their range.
use Prim.Native.Nat.{ℕ, zero, suc, ◌+◌, ◌*◌}

-- `negsuc n` is -(n + 1).
pub data ℤ : Type 0 where
  pos : ℕ → ℤ
  negsuc : ℕ → ℤ

-- The negation of a number.
abbrev pub neg : ℕ → ℤ
neg zero = pos 0
neg (suc n) = negsuc n

infixl 70 ◌*ℤ◌
abbrev pub ◌*ℤ◌ : ℤ → ℤ → ℤ
pos m *ℤ pos n = pos (m * n)
pos m *ℤ negsuc n = neg (m * (n + 1))
negsuc m *ℤ pos n = neg ((m + 1) * n)
negsuc m *ℤ negsuc n = pos ((m + 1) * (n + 1))
