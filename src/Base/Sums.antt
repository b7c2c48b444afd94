-- ===== src/Base/Sums.antt =====
-- Sums over the numbers below a bound, and how often a number is in a list of ints.
use socket_hook.Base.{
  ℕ, zero, suc, ◌+◌, ◌≤◌, ◌<◌, ◌≡◌, refl, ap₂, ℤ, pos, negsuc, eq_ℤ, is_nonneg, to_ℕ, Bool, true,
  false, ◌==◌, Bool-cases, inl, inr, List, [], ◌∷◌, ◌++◌, length, arith,
}

-- f 0 + f 1 + ... + f (n - 1)
unfoldable pub sum : (ℕ → ℕ) → ℕ → ℕ
sum f zero = 0
sum f (suc n) = f n + sum f n

abbrev pub bit : Bool → ℕ
bit true = 1
bit false = 0

pub sum-eq : (f g : ℕ → ℕ) (n : ℕ) → ((k : ℕ) → k < n → f k ≡ g k) → sum f n ≡ sum g n
unfolding sum
sum-eq f g zero h = refl
sum-eq f g (suc n) h = ap₂ ◌+◌ (h n (omega arith)) (sum-eq f g n (λ k l. h k (omega arith)))

-- Functions that differ at k only.
pub sum-off :
    (f g : ℕ → ℕ) (k n : ℕ)
    → k < n
    → ((x : ℕ) → (k == x) ≡ false → f x ≡ g x)
    → sum f n + g k ≡ sum g n + f k
unfolding sum
sum-off f g k zero l h = absurd (omega arith)
sum-off f g k (suc n) l h = elim (Bool-cases (k == n)) [
  | inl e ↦
      let q : k ≡ n = ground arith in
      let r = sum-eq f g n (λ x m. h x (ground arith)) in rw q (omega (arith, r))
  | inr e ↦ omega (arith, h n e, sum-off f g k n (ground arith) h)
]

pub sum_add : (f g : ℕ → ℕ) (n : ℕ) → sum (λ k. f k + g k) n ≡ sum f n + sum g n
unfolding sum
sum_add f g zero = refl
sum_add f g (suc n) = omega (arith, sum_add f g n)

pub sum_zero : (n : ℕ) → sum (λ k. 0) n ≡ 0
unfolding sum
sum_zero zero = refl
sum_zero (suc n) = omega (arith, sum_zero n)

pub sum_one : (n : ℕ) → sum (λ k. 1) n ≡ n
unfolding sum
sum_one zero = refl
sum_one (suc n) = omega (arith, sum_one n)

-- A term is at most the sum, and so are two different ones together.
pub le-sum : (f : ℕ → ℕ) (k n : ℕ) → k < n → f k ≤ sum f n
unfolding sum
le-sum f k zero l = absurd (omega arith)
le-sum f k (suc n) l = elim (Bool-cases (k == n)) [
  | inl e ↦ let q : k ≡ n = ground arith in rw q (omega arith)
  | inr e ↦ omega (arith, le-sum f k n (ground arith))
]

pub two_le-sum : (f : ℕ → ℕ) (k m n : ℕ) → k < n → m < n → (k == m) ≡ false → f k + f m ≤ sum f n
unfolding sum
two_le-sum f k m zero l j d = absurd (omega arith)
two_le-sum f k m (suc n) l j d = elim (Bool-cases (k == n)) [
  | inl e ↦ let q : k ≡ n = ground arith in rw q (omega (arith, le-sum f m n (ground arith)))
  | inr e ↦ elim (Bool-cases (m == n)) [
    | inl u ↦ let q : m ≡ n = ground arith in rw q (omega (arith, le-sum f k n (ground arith)))
    | inr u ↦ omega (arith, two_le-sum f k m n (ground arith) (ground arith) d)
  ]
]

-- How often n is in the list.
abbrev pub count : ℕ → List ℤ → ℕ
count n [] = 0
count n (x ∷ xs) = bit (eq_ℤ x (pos n)) + count n xs

abbrev pub AllBelow : ℕ → List ℤ → Type 0
AllBelow n [] = Unit {0}
AllBelow n (x ∷ xs) = (is_nonneg x ≡ true) × (to_ℕ x < n) × AllBelow n xs

pub count-append : (n : ℕ) (xs ys : List ℤ) → count n (xs ++ ys) ≡ count n xs + count n ys
count-append n [] ys = omega arith
count-append n (x ∷ xs) ys = omega (arith, count-append n xs ys)

sum-bit : (k n : ℕ) → k < n → sum (λ x. bit (eq_ℤ (pos k) (pos x))) n ≡ 1
sum-bit k n l =
    let r = sum-off (λ x. bit (eq_ℤ (pos k) (pos x))) (λ x. 0) k n l (λ x d. ground arith) in
    let e : bit (eq_ℤ (pos k) (pos k)) ≡ 1 = ground arith in omega (arith, r, e, sum_zero n)

-- A list of numbers below n has as many items as the numbers are in it, together.
pub length-sum : (n : ℕ) (xs : List ℤ) → AllBelow n xs → length xs ≡ sum (λ k. count k xs) n
length-sum n [] h = omega (arith, sum_zero n)
length-sum n (pos k ∷ xs) (p, l, h) =
    let a = sum_add (λ x. bit (eq_ℤ (pos k) (pos x))) (λ x. count x xs) n in
    omega (arith, a, sum-bit k n l, length-sum n xs h)
length-sum n (negsuc k ∷ xs) (p, l, h) = absurd (ground arith)
