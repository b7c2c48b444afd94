-- ===== src/Hook/Proofs/Resources.antt =====
-- The stacks of free descriptors and free share units, from the constructor on.
use socket_hook.Base.{
  ℕ, zero, suc, ◌+◌, ◌^◌, ◌≤◌, ◌<◌, ◌≡◌, refl, ap, ◌∙◌, sym, ℤ, pos, ==_of_ne, List, [], ◌∷◌, ◌++◌,
  append-nil, append_assoc, length, arith,
}
use socket_hook.Stack.{Stack, create_stack, push}
use socket_hook.Stack.Laws.{IsValid, contents, push_list, push_refines, create_stack-IsValid}
use socket_hook.Hook.State.{socket_num}
use socket_hook.Hook.Init.{push_up, push_down, init_stacks}

-- n - 1, ..., i + 1, i
unfoldable pub down_to : ℕ → ℕ → List ℤ
down_to i zero = []
down_to i (suc n) = down_to (i + 1) n ++ pos i ∷ []

-- 0, 1, ..., n - 1, before xs
abbrev pub up_to : ℕ → List ℤ → List ℤ
up_to zero xs = xs
up_to (suc n) xs = up_to n (pos n ∷ xs)

length-room :
    (capacity : ℕ) (xs : List ℤ) (x : ℤ) → length xs < capacity → push_list capacity xs x ≡ x ∷ xs
length-room capacity xs x h = rw (==_of_ne (length xs) capacity (omega arith))

push_up_lem :
    (st : Stack) (i n : ℕ)
    → IsValid st
    → length (contents st) + n ≤ st.capacity
    → IsValid (push_up st i n) × (contents (push_up st i n) ≡ down_to i n ++ contents st)
unfolding push_up down_to
push_up_lem st i zero v h = (v, refl)
push_up_lem st i (suc n) v h =
    let (w, c, k) = push_refines st (pos i) v in
    let e = c ∙ length-room st.capacity (contents st) (pos i) (omega arith) in
    let (a, b) = push_up_lem (push st (pos i)) (i + 1) n w (omega (arith, ap length e)) in
    (
      a,
      b
          ∙ ap (λ l. down_to (i + 1) n ++ l) e
          ∙ sym (append_assoc (down_to (i + 1) n) (pos i ∷ []) (contents st)),
    )

push_down_lem :
    (st : Stack) (n : ℕ)
    → IsValid st
    → length (contents st) + n ≤ st.capacity
    → IsValid (push_down st n) × (contents (push_down st n) ≡ up_to n (contents st))
unfolding push_down
push_down_lem st zero v h = (v, refl)
push_down_lem st (suc n) v h =
    let (w, c, k) = push_refines st (pos n) v in
    let e = c ∙ length-room st.capacity (contents st) (pos n) (omega arith) in
    let (a, b) = push_down_lem (push st (pos n)) n w (omega (arith, ap length e)) in
    (a, b ∙ ap (up_to n) e)

new_capacity : (cells : ℕ → ℤ) (n : ℕ) → (create_stack cells n).capacity ≡ n
unfolding create_stack
new_capacity cells n = refl

all_up :
    (cells : ℕ → ℤ) (n : ℕ)
    → n < 2 ^ 31
    → IsValid (push_up (create_stack cells n) 0 n)
      × (contents (push_up (create_stack cells n) 0 n) ≡ down_to 0 n)
all_up cells n h =
    let (v, e) = create_stack-IsValid cells n h in
    let (w, c) =
      push_up_lem (create_stack cells n) 0 n v (omega (arith, ap length e, new_capacity cells n)) in
    (w, c ∙ ap (λ l. down_to 0 n ++ l) e ∙ append-nil _)

all_down :
    (cells : ℕ → ℤ) (n : ℕ)
    → n < 2 ^ 31
    → IsValid (push_down (create_stack cells n) n)
      × (contents (push_down (create_stack cells n) n) ≡ up_to n [])
all_down cells n h =
    let (v, e) = create_stack-IsValid cells n h in
    let (w, c) =
      push_down_lem (create_stack cells n) n v (omega (arith, ap length e, new_capacity cells n)) in
    (w, c ∙ ap (up_to n) e)

-- The constructor leaves two valid stacks, whatever `malloc` gives: all descriptors from 1023 down
-- to 0 are free, and all share units from 0 up to 4, in the order in which they will be taken.
pub init_stacks_lem :
    (cells cells' : ℕ → ℤ)
    → let r = init_stacks cells cells' in
      IsValid r.0
      × (contents r.0 ≡ down_to 0 1024)
      × IsValid r.1
      × (contents r.1 ≡ pos 0 ∷ pos 1 ∷ pos 2 ∷ pos 3 ∷ pos 4 ∷ [])
unfolding init_stacks
init_stacks_lem cells cells' =
    let (v, c) = all_up cells 1024 (omega arith) in
    let (w, d) = all_down cells' socket_num (omega arith) in (v, c, w, d)

push-capacity : (st : Stack) (x : ℤ) → (push st x).capacity ≡ st.capacity
unfolding push
push-capacity st x = ground arith

push_up-capacity : (st : Stack) (i n : ℕ) → (push_up st i n).capacity ≡ st.capacity
unfolding push_up
push_up-capacity st i zero = refl
push_up-capacity st i (suc n) =
    push_up-capacity (push st (pos i)) (i + 1) n ∙ push-capacity st (pos i)

pub init_stacks-capacity : (cells cells' : ℕ → ℤ) → (init_stacks cells cells').0.capacity ≡ 1024
unfolding init_stacks
init_stacks-capacity cells cells' =
    push_up-capacity (create_stack cells 1024) 0 1024 ∙ new_capacity cells 1024
