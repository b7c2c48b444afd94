-- ===== src/LinkedList/Chains.antt =====
-- The nodes that a pointer leads to.
use socket_hook.Base.{
  ℕ, ◌≡◌, ℤ, eq_ℤ, false, ◌==◌, if◌then◌else◌, is_in, none, some, List, [], ◌∷◌, ◌++◌, arith,
}
use socket_hook.Base.Memory.{store}
use socket_hook.LinkedList.{Pointer, Node, Heap}

-- The pointer leads through the addresses of the list to null.
abbrev pub Chain : Heap → Pointer → List ℕ → Type 0
Chain h p [] = p ≡ none
Chain h p (a ∷ nodes) = (p ≡ some a) × Chain h (h a).next nodes

-- A node that is not in a list may change.
pub Chain-store :
    (h : Heap) (p : Pointer) (nodes : List ℕ) (a : ℕ) (n : Node)
    → is_in a nodes ≡ false
    → Chain h p nodes
    → Chain (store h a n) p nodes
Chain-store h p [] a n i c = c
Chain-store h p (b ∷ bs) a n i (e, c) =
    let k : (a == b) ≡ false = ground arith in
    (e, rw k (Chain-store h (h b).next bs a n (ground arith) c))

-- No address is in both lists.
abbrev pub Apart : List ℕ → List ℕ → Type 0
Apart [] bs = Unit {0}
Apart (a ∷ nodes) bs = (is_in a bs ≡ false) × Apart nodes bs

abbrev pub reversed : List ℕ → List ℕ
reversed [] = []
reversed (x ∷ xs) = reversed xs ++ x ∷ []

-- The addresses without the first whose node has the key.
abbrev pub without : Heap → ℤ → List ℕ → List ℕ
without h key [] = []
without h key (a ∷ nodes) = if eq_ℤ (h a).value key then nodes else a ∷ without h key nodes

-- The first address whose node has the key.
abbrev pub first_with : Heap → ℤ → List ℕ → Pointer
first_with h key [] = none
first_with h key (a ∷ nodes) = if eq_ℤ (h a).value key then some a else first_with h key nodes
