-- ===== src/Stack.antt =====
-- stack.h and stack.c: a bounded stack of ints, which keeps the free file descriptors and the free
-- share units of the hook.
pub mod Laws
use socket_hook.Base.{
  ℕ, ◌+◌, ◌-◌, ◌%◌, ◌^◌, ℤ, minus_one, int_min, eq_ℤ, inc, dec, to_ℕ, to_unsigned, Bool, ◌==◌,
  if◌then◌else◌,
}
use socket_hook.Base.Memory.{store}

-- `struct Stack`. The cells of the array that `malloc` left are whatever they are.
pub record Stack : Type 0 where
  pub top : ℤ
  pub capacity : ℕ
  pub array : ℕ → ℤ

unfoldable pub create_stack : (ℕ → ℤ) → ℕ → Stack
create_stack cells capacity = record { top = minus_one; capacity = capacity; array = cells }

-- `top == capacity - 1` is a comparison of unsigned numbers, in which -1 is `UINT_MAX`.
unfoldable pub is_full_stack : Stack → Bool
is_full_stack s = to_unsigned s.top == (s.capacity + (2 ^ 32 - 1)) % 2 ^ 32

unfoldable pub is_empty_stack : Stack → Bool
is_empty_stack s = eq_ℤ s.top minus_one

unfoldable pub push : Stack → ℤ → Stack
unfolding is_full_stack
push s item =
    if is_full_stack s
    then s
    else record s { top = inc s.top; array = store s.array (to_ℕ (inc s.top)) item }

unfoldable pub pop : Stack → ℤ × Stack
unfolding is_empty_stack
pop s =
    if is_empty_stack s then (int_min, s) else (s.array (to_ℕ s.top), record s { top = dec s.top })
