-- ===== src/LinkedList/Bubble.antt =====
-- The bubble sort of `sortList` on a list of values.
use mathlib.Core.List.{Perm}
use mathlib.Core.List.Perm
use socket_hook.Base.{
  ℕ, zero, suc, ◌≡◌, refl, ap, ◌∙◌, subst, ℤ, pos, negsuc, true, false, if◌then◌else◌, Bool-cases,
  inl, inr, List, [], ◌∷◌, ◌++◌, append-nil, length, arith,
}
use socket_hook.LinkedList.{gt_ℤ}

-- The smaller and the larger of two.
abbrev pub lower : ℤ → ℤ → ℤ
lower x y = if gt_ℤ x y then y else x

abbrev pub upper : ℤ → ℤ → ℤ
upper x y = if gt_ℤ x y then x else y

-- Neighbours are put in order, from the front on, as many pairs as there are rounds.
abbrev pub pass : ℕ → List ℤ → List ℤ
pass zero xs = xs
pass (suc r) [] = []
pass (suc r) (x ∷ []) = x ∷ []
pass (suc r) (x ∷ y ∷ ys) = lower x y ∷ pass r (upper x y ∷ ys)

abbrev pub passes : ℕ → List ℤ → List ℤ
passes zero xs = xs
passes (suc r) xs = passes r (pass (suc r) xs)

-- m is at most every item, or at least.
abbrev pub AllUp : ℤ → List ℤ → Type 0
AllUp m [] = Unit {0}
AllUp m (x ∷ xs) = (gt_ℤ m x ≡ false) × AllUp m xs

abbrev AllLow : ℤ → List ℤ → Type 0
AllLow m [] = Unit {0}
AllLow m (x ∷ xs) = (gt_ℤ x m ≡ false) × AllLow m xs

abbrev pub IsSorted : List ℤ → Type 0
IsSorted [] = Unit {0}
IsSorted (x ∷ xs) = AllUp x xs × IsSorted xs

-- Every item of the first list is at most every item of the second.
abbrev Under : List ℤ → List ℤ → Type 0
Under [] ys = Unit {0}
Under (x ∷ xs) ys = AllUp x ys × Under xs ys

gt_trans : (x y z : ℤ) → gt_ℤ x y ≡ false → gt_ℤ y z ≡ false → gt_ℤ x z ≡ false
gt_trans (pos a) (pos b) (pos c) h k = ground arith
gt_trans (pos a) (pos b) (negsuc c) h k = ground arith
gt_trans (pos a) (negsuc b) (pos c) h k = ground arith
gt_trans (pos a) (negsuc b) (negsuc c) h k = ground arith
gt_trans (negsuc a) (pos b) (pos c) h k = refl
gt_trans (negsuc a) (pos b) (negsuc c) h k = ground arith
gt_trans (negsuc a) (negsuc b) (pos c) h k = refl
gt_trans (negsuc a) (negsuc b) (negsuc c) h k = ground arith

gt_asym : (x y : ℤ) → gt_ℤ x y ≡ true → gt_ℤ y x ≡ false
gt_asym (pos a) (pos b) h = ground arith
gt_asym (pos a) (negsuc b) h = refl
gt_asym (negsuc a) (pos b) h = ground arith
gt_asym (negsuc a) (negsuc b) h = ground arith

gt_irrefl : (x : ℤ) → gt_ℤ x x ≡ false
gt_irrefl (pos a) = ground arith
gt_irrefl (negsuc a) = ground arith

-- Both are at most the larger, and the smaller is at most both.
pair_order : (x y : ℤ) → (gt_ℤ x (upper x y) ≡ false) × (gt_ℤ (lower x y) (upper x y) ≡ false)
pair_order x y = elim (Bool-cases (gt_ℤ x y)) [
  | inl h ↦ rw h (gt_irrefl x, gt_asym x y h)
  | inr h ↦ rw h (h, h)
]

pair_in :
    (x y : ℤ) (back : List ℤ)
    → AllUp x back
    → AllUp y back
    → AllUp (lower x y) back × AllUp (upper x y) back
pair_in x y back h k = elim (Bool-cases (gt_ℤ x y)) [ inl e ↦ rw e (k, h) | inr e ↦ rw e (h, k) ]

-- A pass over a front of the list takes its largest item to its end.
bubble :
    (x : ℤ) (xs back : List ℤ)
    → Under (x ∷ xs) back
    → (front : List ℤ) × (m : ℤ) × (pass (length xs) (x ∷ xs ++ back) ≡ front ++ m ∷ back)
      × (length front ≡ length xs)
      × (gt_ℤ x m ≡ false)
      × AllLow m front
      × Under front back
      × AllUp m back
bubble x [] back (u, v) = ([], x, refl, refl, gt_irrefl x, tt, tt, u)
bubble x (y ∷ ys) back (u, (v, w)) =
    let (a, b) = pair_in x y back u v in
    let (front, m, e, l, g, s, f, t) = bubble (upper x y) ys back (b, w) in
    let (c, d) = pair_order x y in
    (
      lower x y ∷ front,
      m,
      ap (◌∷◌ (lower x y)) e,
      ap suc l,
      gt_trans x (upper x y) m c g,
      (gt_trans (lower x y) (upper x y) m d g, s),
      (a, f),
      t,
    )

Under-more :
    (m : ℤ) (front back : List ℤ) → AllLow m front → Under front back → Under front (m ∷ back)
Under-more m [] back l u = tt
Under-more m (x ∷ xs) back (h, l) (k, u) = ((h, k), Under-more m xs back l u)

passes_sort :
    (k : ℕ) (front back : List ℤ)
    → length front ≡ suc k
    → IsSorted back
    → Under front back
    → IsSorted (passes k (front ++ back))
passes_sort k [] back l s u = absurd (omega arith)
passes_sort zero (x ∷ []) back l s u = (u.0, s)
passes_sort zero (x ∷ y ∷ ys) back l s u = absurd (omega arith)
passes_sort (suc k) (x ∷ xs) back l s u =
    let n : length xs ≡ suc k = omega arith in
    let (front, m, e, j, g, h, f, t) = bubble x xs back u in
    rw (subst (λ r. pass r (x ∷ xs ++ back) ≡ front ++ m ∷ back) n e)
      (passes_sort k front (m ∷ back) (j ∙ n) (t, s) (Under-more m front back h f))

-- Enough passes, each over one pair less, sort a list.
pub passes-IsSorted : (x : ℤ) (xs : List ℤ) → IsSorted (passes (length xs) (x ∷ xs))
passes-IsSorted x xs =
    subst (λ l. IsSorted (passes (length xs) l)) (append-nil (x ∷ xs))
      (passes_sort (length xs) (x ∷ xs) [] refl tt (under_nil (x ∷ xs)))
  where
    under_nil : (xs : List ℤ) → Under xs []
    under_nil [] = tt
    under_nil (x ∷ xs) = (tt, under_nil xs)

pair-Perm : (x y : ℤ) (ys : List ℤ) → Perm (lower x y ∷ upper x y ∷ ys) (x ∷ y ∷ ys)
pair-Perm x y ys = elim (Bool-cases (gt_ℤ x y)) [
  | inl e ↦ rw e (Perm.swap x y ys)
  | inr e ↦ rw e (Perm.refl (x ∷ y ∷ ys))
]

pass-Perm : (r : ℕ) (xs : List ℤ) → Perm (pass r xs) xs
pass-Perm zero xs = Perm.refl xs
pass-Perm (suc r) [] = Perm.refl []
pass-Perm (suc r) (x ∷ []) = Perm.refl _
pass-Perm (suc r) (x ∷ y ∷ ys) =
    Perm.trans (Perm.cons (lower x y) (pass-Perm r (upper x y ∷ ys))) (pair-Perm x y ys)

-- Passes only reorder.
pub passes-Perm : (r : ℕ) (xs : List ℤ) → Perm (passes r xs) xs
passes-Perm zero xs = Perm.refl xs
passes-Perm (suc r) xs = Perm.trans (passes-Perm r (pass (suc r) xs)) (pass-Perm (suc r) xs)
