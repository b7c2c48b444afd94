-- ===== src/Base/Int.antt =====
-- C `int` values as integers over the native numbers, and the operators that the source uses.
use Prim.Native.Nat.{ℕ, zero, suc, ◌+◌, ◌-◌, ◌%◌, ◌^◌}
use mathlib.Core.Bool.{Bool, true, false, not}
use socket_hook.Base.Tests.{leb, ◌==◌, if◌then◌else◌}

-- `negsuc n` is -(n + 1).
pub data ℤ : Type 0 where
  pos : ℕ → ℤ
  negsuc : ℕ → ℤ

-- The value -1 that the source returns for failure and stores for "none".
abbrev pub minus_one : ℤ
minus_one = negsuc 0

-- <limits.h>, for a 32-bit int.
abbrev pub int_min : ℤ
int_min = negsuc (2 ^ 31 - 1)

abbrev pub eq_ℤ : ℤ → ℤ → Bool
eq_ℤ (pos a) (pos b) = a == b
eq_ℤ (pos a) (negsuc b) = false
eq_ℤ (negsuc a) (pos b) = false
eq_ℤ (negsuc a) (negsuc b) = a == b

-- x >= 0
abbrev pub is_nonneg : ℤ → Bool
is_nonneg (pos a) = true
is_nonneg (negsuc a) = false

-- The number of an index that the source has checked to be nonnegative.
abbrev pub to_ℕ : ℤ → ℕ
to_ℕ (pos a) = a
to_ℕ (negsuc a) = 0

-- x + 1
abbrev pub inc : ℤ → ℤ
inc (pos a) = pos (a + 1)
inc (negsuc zero) = pos 0
inc (negsuc (suc a)) = negsuc a

-- x - 1
abbrev pub dec : ℤ → ℤ
dec (pos zero) = negsuc 0
dec (pos (suc a)) = pos a
dec (negsuc a) = negsuc (suc a)

-- x + n for n >= 0
abbrev pub plus : ℤ → ℕ → ℤ
plus (pos a) n = pos (a + n)
plus (negsuc a) n = if leb (suc a) n then pos (n - suc a) else negsuc (a - n)

-- x + y
abbrev pub add_ℤ : ℤ → ℤ → ℤ
add_ℤ (pos a) y = plus y a
add_ℤ (negsuc a) (pos b) = plus (negsuc a) b
add_ℤ (negsuc a) (negsuc b) = negsuc (suc (a + b))

-- x > 0
abbrev pub is_pos : ℤ → Bool
is_pos (pos a) = not (a == 0)
is_pos (negsuc a) = false

-- C's remainder takes the sign of the dividend.
abbrev pub rem : ℤ → ℕ → ℤ
rem (pos a) m = pos (a % m)
rem (negsuc a) m = if (suc a % m) == 0 then pos 0 else negsuc (suc a % m - 1)

-- (unsigned)x, for a 32-bit unsigned.
abbrev pub to_unsigned : ℤ → ℕ
to_unsigned (pos a) = a % 2 ^ 32
to_unsigned (negsuc a) = 2 ^ 32 - 1 - a % 2 ^ 32
