-- ===== src/Hook/Proofs/Owners/Stacks.antt =====
-- What `push` and `pop` do to the number of times that a stack holds an item.
use socket_hook.Base.{
  ℕ, ◌+◌, ◌<◌, ◌≤◌, ◌≡◌, ap, ◌∙◌, ℤ, pos, negsuc, int_min, eq_ℤ, to_ℕ, true, List, [], ◌∷◌, length,
  refl, ◌⊎◌, inl, inr, ==_of_ne, arith,
}
use socket_hook.Base.Sums.{bit, count, AllBelow}
use socket_hook.Stack.{Stack, push, pop, is_empty_stack}
use socket_hook.Stack.Laws.{
  IsValid, contents, height, length-items, is_empty_stack-eq, pop_list, push_list, pop_refines,
  push_refines,
}
use socket_hook.Hook.Proofs.Lifecycle.{pop-some}

count-pop_list :
    (n : ℕ) (xs ys : List ℤ) (x : ℤ)
    → (x, ys) ≡ pop_list xs
    → count n xs ≡ bit (eq_ℤ x (pos n)) + count n ys
count-pop_list n [] ys x e =
    let a : x ≡ int_min = ap {A = ℤ × List ℤ} (λ p. p.0) e in
    let b : ys ≡ [] = ap {A = ℤ × List ℤ} (λ p. p.1) e in rw (a, b) (omega arith)
count-pop_list n (z ∷ zs) ys x e =
    let a : x ≡ z = ap {A = ℤ × List ℤ} (λ p. p.0) e in
    let b : ys ≡ zs = ap {A = ℤ × List ℤ} (λ p. p.1) e in rw (a, b) (omega arith)

AllBelow-pop_list :
    (n k : ℕ) (xs ys : List ℤ) → (pos k, ys) ≡ pop_list xs → AllBelow n xs → (k < n) × AllBelow n ys
AllBelow-pop_list n k [] ys e h =
    let a : pos k ≡ int_min = ap {A = ℤ × List ℤ} (λ p. p.0) e in absurd (ground arith)
AllBelow-pop_list n k (z ∷ zs) ys e (p, l, h) =
    let a : pos k ≡ z = ap {A = ℤ × List ℤ} (λ p. p.0) e in
    let b : ys ≡ zs = ap {A = ℤ × List ℤ} (λ p. p.1) e in (ground (arith, ap to_ℕ a), rw b h)

-- `pop` takes the item away that it returns, if it is not negative.
pub count-pop :
    (n : ℕ) (st : Stack)
    → IsValid st
    → count n (contents st) ≡ bit (eq_ℤ (pop st).0 (pos n)) + count n (contents (pop st).1)
count-pop n st v =
    count-pop_list n (contents st) (contents (pop st).1) (pop st).0 (pop_refines st v).1

pub AllBelow-pop :
    (n k : ℕ) (st : Stack)
    → IsValid st
    → (pop st).0 ≡ pos k
    → AllBelow n (contents st)
    → (k < n) × AllBelow n (contents (pop st).1)
AllBelow-pop n k st v e h =
    AllBelow-pop_list n k (contents st) (contents (pop st).1) (rw e at (pop_refines st v).1) h

empty_of_nil : (st : Stack) → IsValid st → contents st ≡ [] → pop st ≡ (int_min, st)
unfolding pop
empty_of_nil st v e =
    let l = length-items st.array (height st.top) in
    let z : height st.top ≡ 0 = omega (arith, l, ap length e) in
    let y : is_empty_stack st ≡ true = is_empty_stack-eq st v ∙ rw z refl in rw y refl

-- Popping a stack of numbers in range gives one of them, unless the stack is empty.
pub pop_cases :
    (n : ℕ) (st : Stack)
    → IsValid st
    → AllBelow n (contents st)
    → (pop st ≡ (int_min, st)) ⊎ ((k : ℕ) × ((pop st).0 ≡ pos k))
pop_cases n st v h = go (contents st) refl h
  where
    go :
        (xs : List ℤ)
        → contents st ≡ xs
        → AllBelow n xs
        → (pop st ≡ (int_min, st)) ⊎ ((k : ℕ) × ((pop st).0 ≡ pos k))
    go [] e a = inl (empty_of_nil st v e)
    go (pos k ∷ xs) e a = inr (k, (pop-some st (pos k) xs v e).0)
    go (negsuc k ∷ xs) e a = absurd (ground arith)

-- `push` adds at most the item.
count-push_list :
    (n capacity : ℕ) (xs : List ℤ) (x : ℤ)
    → count n (push_list capacity xs x) ≤ bit (eq_ℤ x (pos n)) + count n xs
count-push_list n capacity xs x = ground arith

pub count-push :
    (n : ℕ) (st : Stack) (x : ℤ)
    → IsValid st
    → count n (contents (push st x)) ≤ bit (eq_ℤ x (pos n)) + count n (contents st)
count-push n st x v = rw (push_refines st x v).1 (count-push_list n st.capacity (contents st) x)

-- With room it adds the item.
pub push-contents :
    (st : Stack) (x : ℤ)
    → IsValid st
    → length (contents st) < st.capacity
    → contents (push st x) ≡ x ∷ contents st
push-contents st x v h =
    (push_refines st x v).1 ∙ rw (==_of_ne (length (contents st)) st.capacity (omega arith))
