-- ===== src/Common/Integers.antt =====
-- The integers over the native numbers: a file descriptor, a port before it is checked.
use Prim.Native.Nat.{ℕ}
use mathlib.Core.Bool.{Bool, true, false, not}
use outline_go_tun2socks.Common.Tests.{leb}

pub data ℤ : Type 0 where
  pos : ℕ → ℤ
  negsuc : ℕ → ℤ

abbrev pub is_negative : ℤ → Bool
is_negative (pos n) = false
is_negative (negsuc n) = true

-- `z <= 0`
abbrev pub is_nonpositive : ℤ → Bool
is_nonpositive (pos n) = leb n 0
is_nonpositive (negsuc n) = true

-- `z > bound`
abbrev pub exceeds : ℤ → ℕ → Bool
exceeds (pos n) bound = not (leb n bound)
exceeds (negsuc n) bound = false
