-- ===== src/Stack/Laws.antt =====
-- A valid stack of stack.c holds the list of its items, the top first.
use socket_hook.Base.{
  ℕ, zero, suc, ◌+◌, ◌-◌, ◌%◌, ◌^◌, ◌≤◌, ◌<◌, ◌≡◌, refl, ap, ap₂, ◌≢◌, ℤ, pos, negsuc, minus_one,
  int_min, eq_ℤ, inc, dec, to_ℕ, to_unsigned, ◌==◌, if◌then◌else◌, List, [], ◌∷◌, length, arith,
}
use socket_hook.Base.Memory.{store}
use socket_hook.Stack.{Stack, create_stack, is_full_stack, is_empty_stack, push, pop}

-- The number of items below and at an index of -1 or more.
abbrev pub height : ℤ → ℕ
height (pos a) = suc a
height (negsuc a) = 0

-- The first n cells, the last of them first.
unfoldable pub items : (ℕ → ℤ) → ℕ → List ℤ
items m zero = []
items m (suc n) = m n ∷ items m n

abbrev pub contents : Stack → List ℤ
contents s = items s.array (height s.top)

pub record IsValid (s : Stack) : Type 0 where
  pub low : s.top ≡ dec (pos (height s.top))
  pub fits : height s.top ≤ s.capacity
  pub small : s.capacity < 2 ^ 31

pub length-items : (m : ℕ → ℤ) (n : ℕ) → length (items m n) ≡ n
unfolding items
length-items m zero = refl
length-items m (suc n) = ap suc (length-items m n)

-- A store at or above the height does not show.
pub items-store : (m : ℕ → ℤ) (i n : ℕ) (x : ℤ) → n ≤ i → items (store m i x) n ≡ items m n
unfolding items
items-store m i zero x h = refl
items-store m i (suc n) x h = ap₂ ◌∷◌ (ground arith) (items-store m i n x (omega arith))

-- The unsigned comparison finds a valid stack full exactly when it holds `capacity` items.
full_test :
    (t : ℤ) (c : ℕ)
    → t ≡ dec (pos (height t))
    → height t ≤ c
    → c < 2 ^ 31
    → (to_unsigned t == (c + (2 ^ 32 - 1)) % 2 ^ 32) ≡ (height t == c)
full_test (pos a) c l h k = ground arith
full_test (negsuc zero) c l h k = ground arith
full_test (negsuc (suc a)) c l h k = cc

pub is_full_stack-eq : (s : Stack) → IsValid s → is_full_stack s ≡ (height s.top == s.capacity)
unfolding is_full_stack
is_full_stack-eq s v = full_test s.top s.capacity v.low v.fits v.small

empty_test : (t : ℤ) → t ≡ dec (pos (height t)) → eq_ℤ t minus_one ≡ (height t == 0)
empty_test (pos a) l = ground arith
empty_test (negsuc zero) l = refl
empty_test (negsuc (suc a)) l = cc

pub is_empty_stack-eq : (s : Stack) → IsValid s → is_empty_stack s ≡ (height s.top == 0)
unfolding is_empty_stack
is_empty_stack-eq s v = empty_test s.top v.low

inc_top : (t : ℤ) → t ≡ dec (pos (height t)) → inc t ≡ pos (height t)
inc_top (pos a) l = ground arith
inc_top (negsuc zero) l = refl
inc_top (negsuc (suc a)) l = cc

dec_top :
    (t : ℤ)
    → height t ≢ 0
    → (t ≡ pos (to_ℕ t)) × (height t ≡ suc (to_ℕ t)) × (dec t ≡ dec (pos (to_ℕ t)))
dec_top (pos a) h = (refl, refl, refl)
dec_top (negsuc a) h = absurd (h refl)

height-dec : (n : ℕ) → height (dec (pos n)) ≡ n
height-dec zero = refl
height-dec (suc n) = refl

-- What push does to the list of items, for a list of at most `capacity` items.
abbrev pub push_list : ℕ → List ℤ → ℤ → List ℤ
push_list capacity xs x = if length xs == capacity then xs else x ∷ xs

abbrev pub pop_list : List ℤ → ℤ × List ℤ
pop_list [] = (int_min, [])
pop_list (x ∷ xs) = (x, xs)

-- A new stack is valid and empty.
pub create_stack-IsValid :
    (cells : ℕ → ℤ) (capacity : ℕ)
    → capacity < 2 ^ 31
    → IsValid (create_stack cells capacity) × (contents (create_stack cells capacity) ≡ [])
unfolding create_stack items
create_stack-IsValid cells capacity h = (record { low = refl; fits = omega arith; small = h }, refl)

-- `push` keeps a valid stack valid; it puts the item on top of the items, unless there are
-- `capacity` of them: then it changes nothing.
pub push_refines :
    (s : Stack) (x : ℤ)
    → IsValid s
    → IsValid (push s x)
      × (contents (push s x) ≡ push_list s.capacity (contents s) x)
      × ((push s x).capacity ≡ s.capacity)
unfolding push items
push_refines s x v = ground (
  arith,
  is_full_stack-eq s v,
  inc_top s.top v.low,
  length-items s.array (height s.top),
  items-store s.array (height s.top) (height s.top) x,
)

-- `pop` keeps a valid stack valid; it returns the top item and removes it, or returns `INT_MIN`
-- and changes nothing if there is none.
pub pop_refines :
    (s : Stack)
    → IsValid s
    → IsValid (pop s).1
      × (((pop s).0, contents (pop s).1) ≡ pop_list (contents s))
      × ((pop s).1.capacity ≡ s.capacity)
unfolding pop items
pop_refines s v = ground (arith, is_empty_stack-eq s v, dec_top s.top, height-dec (to_ℕ s.top))
