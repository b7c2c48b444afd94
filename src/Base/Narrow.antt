-- ===== src/Base/Narrow.antt =====
-- A `size_t` that is passed where the source takes an `int`.
use Prim.Native.Nat.{ℕ, ◌^◌, ◌%◌, ◌<◌}
use mathlib.Core.Path.{◌≡◌}
use mathlib.Core.Bool.{Bool, true}
use native.Mathlib.Omega.{arith}
use native.Mathlib.Nat.{mod-eq_of_lt}
use socket_hook.Base.Tests.{ltb}

-- The int, where it is not negative: the low 32 bits.
unfoldable pub to_int : ℕ → ℕ
to_int n = n % 2 ^ 32

-- Whether the int is not negative: bit 31 is not set.
unfoldable pub fits_int : ℕ → Bool
unfolding to_int
fits_int n = ltb (to_int n) (2 ^ 31)

pub to_int-below : (n : ℕ) → n < 2 ^ 31 → to_int n ≡ n
unfolding to_int
to_int-below n h = mod-eq_of_lt (omega arith)

pub fits_int-below : (n : ℕ) → n < 2 ^ 31 → fits_int n ≡ true
unfolding fits_int to_int
fits_int-below n h = let e : n % 2 ^ 32 ≡ n = mod-eq_of_lt (omega arith) in ground (arith, e)
