-- ===== src/LinkedList/Deletion.antt =====
-- `deleteInList` of list.c.
use socket_hook.Base.{
  ℕ, ◌≡◌, refl, sym, ap, subst, ◌∙◌, ℤ, eq_ℤ, true, false, ◌==◌, if◌then◌else◌, Bool-cases, inl,
  inr, is_in, AllDiffer, none, some, List, [], ◌∷◌, length, arith,
}
use socket_hook.LinkedList.{Pointer, Node, Heap, find_from, bypass, delete_in_list, is_list_empty}
use socket_hook.LinkedList.Chains.{Chain, Chain-store, without, first_with}

-- What the search from the node a on, behind the node q, leaves: the heap h' without the node
-- found, which only differs on nodes of the list.
abbrev Deleted : Heap → Heap → ℤ → ℕ → ℕ → List ℕ → Type 0
Deleted h h' key q a nodes =
    Chain h' (h' q).next (without h key (a ∷ nodes))
    × ((x : ℕ) → (x == q) ≡ false → is_in x (a ∷ nodes) ≡ false → h' x ≡ h x)

bypass-Deleted :
    (h : Heap) (key : ℤ) (q a : ℕ) (nodes : List ℕ)
    → eq_ℤ (h a).value key ≡ true
    → is_in q nodes ≡ false
    → Chain h (h a).next nodes
    → Deleted h (bypass h (some q) (some a)) key q a nodes
unfolding bypass
bypass-Deleted h key q a nodes m i c =
    let e : (q == q) ≡ true = ground arith in
    (
      rw (m, e) (Chain-store h (h a).next nodes q (record (h q) { next = (h a).next }) i c),
      λ x n k. ground arith,
    )

found_first :
    (h : Heap) (key : ℤ) (q a : ℕ) (nodes : List ℕ)
    → eq_ℤ (h a).value key ≡ true
    → is_in q nodes ≡ false
    → Chain h (h a).next nodes
    → Deleted h (bypass h (some q) (first_with h key (a ∷ nodes))) key q a nodes
found_first h key q a nodes m i c =
    let u : first_with h key (a ∷ nodes) ≡ some a = rw m refl in
    subst (λ p. Deleted h (bypass h (some q) p) key q a nodes) (sym u)
      (bypass-Deleted h key q a nodes m i c)

found_later :
    (h : Heap) (key : ℤ) (q a b : ℕ) (nodes : List ℕ) (r : Pointer)
    → (h q).next ≡ some a
    → is_in q (a ∷ b ∷ nodes) ≡ false
    → eq_ℤ (h a).value key ≡ false
    → Deleted h (bypass h r (first_with h key (b ∷ nodes))) key a b nodes
    → Deleted h (bypass h r (first_with h key (a ∷ b ∷ nodes))) key q a (b ∷ nodes)
found_later h key q a b nodes r n i m (w, f) =
    let u : first_with h key (a ∷ b ∷ nodes) ≡ first_with h key (b ∷ nodes) = rw m refl in
    let h' = bypass h r (first_with h key (b ∷ nodes)) in
    let g : (h' q).next ≡ some a =
      ap {A = Node} (λ x. x.next) (f q (ground arith) (ground arith)) ∙ n in
    subst (λ p. Deleted h (bypass h r p) key q a (b ∷ nodes)) (sym u)
      (rw m (g, w), λ x k j. f x (ground arith) (ground arith))

delete_from :
    (h : Heap) (key : ℤ) (q a : ℕ) (nodes : List ℕ)
    → (h q).next ≡ some a
    → is_in q (a ∷ nodes) ≡ false
    → AllDiffer (a ∷ nodes)
    → Chain h (h a).next nodes
    → (r : Pointer) × (find_from (length nodes) h (some q) a key
        ≡ some (r, first_with h key (a ∷ nodes)))
      × Deleted h (bypass h r (first_with h key (a ∷ nodes))) key q a nodes
unfolding find_from bypass is_list_empty
delete_from h key q a [] n i d c = elim (Bool-cases (eq_ℤ (h a).value key)) [
  | inl m ↦ (some q, rw m refl, found_first h key q a [] m (ground arith) c)
  | inr m ↦ (some q, rw (m, c) refl, rw m ((n, c), λ x k j. refl))
]
delete_from h key q a (b ∷ nodes) n i d c = elim (Bool-cases (eq_ℤ (h a).value key)) [
  | inl m ↦
      (some q, rw (find_from, c.0, m) refl, found_first h key q a (b ∷ nodes) m (ground arith) c)
  | inr m ↦
      let (r, e, w) = delete_from h key a b nodes c.0 d.0 d.1 c.1 in
      (r, rw (find_from, c.0, m) e, found_later h key q a b nodes r n i m w)
]

-- `bypass` changes no value.
bypass-same : (h : Heap) (p q : Pointer) (x : ℕ) → (bypass h p q x).value ≡ (h x).value
unfolding bypass
bypass-same h none q x = refl
bypass-same h (some p) none x = refl
bypass-same h (some p) (some a) x = ground arith

delete_of_found :
    (fuel : ℕ) (h : Heap) (a : ℕ) (key : ℤ) (r f : Pointer)
    → find_from fuel h none a key ≡ some (r, f)
    → delete_in_list fuel h (some a) key ≡ some (f, bypass h r f)
unfolding delete_in_list
delete_of_found fuel h a key r f e = rw (delete_in_list, e) refl

-- `deleteInList` of a list that ends, whose nodes are all different, in as many rounds as it
-- has nodes behind the first: it returns the first node with the key, or null if there is none.
-- That node is out of the caller's list and the others are in it, in order; but if it is the first
-- one, the caller's list is unchanged. No node's value is changed, and nothing of a node that is
-- not in the list.
pub delete_in_list_lem :
    (h : Heap) (key : ℤ) (a : ℕ) (nodes : List ℕ)
    → AllDiffer (a ∷ nodes)
    → Chain h (h a).next nodes
    → (h' : Heap) × (delete_in_list (length nodes) h (some a) key
        ≡ some (first_with h key (a ∷ nodes), h'))
      × Chain h' (some a) (if eq_ℤ (h a).value key then a ∷ nodes else a ∷ without h key nodes)
      × ((x : ℕ) → (h' x).value ≡ (h x).value)
      × ((x : ℕ) → is_in x (a ∷ nodes) ≡ false → h' x ≡ h x)
unfolding find_from bypass is_list_empty
delete_in_list_lem h key a [] d c = elim (Bool-cases (eq_ℤ (h a).value key)) [
  | inl m ↦ (
    h,
    delete_of_found 0 h a key none (some a) (rw m refl) ∙ rw m refl,
    rw m (refl, c),
    (λ x. refl),
    (λ x k. refl),
  )
  | inr m ↦ (
    h,
    delete_of_found 0 h a key none none (rw (m, c) refl) ∙ rw m refl,
    rw m (refl, c),
    (λ x. refl),
    (λ x k. refl),
  )
]
delete_in_list_lem h key a (b ∷ nodes) d c = elim (Bool-cases (eq_ℤ (h a).value key)) [
  | inl m ↦
      let k : find_from (length (b ∷ nodes)) h none a key ≡ some (none, some a) =
        rw (find_from, c.0, m) refl in
      (
        h,
        delete_of_found (length (b ∷ nodes)) h a key none (some a) k ∙ rw m refl,
        rw m (refl, c),
        (λ x. refl),
        (λ x k. refl),
      )
  | inr m ↦
      let (r, e, w) = delete_from h key a b nodes c.0 d.0 d.1 c.1 in
      let f = first_with h key (b ∷ nodes) in
      let k : find_from (length (b ∷ nodes)) h none a key ≡ some (r, f) =
        rw (find_from, c.0, m) e in
      (
        bypass h r f,
        delete_of_found (length (b ∷ nodes)) h a key r f k ∙ rw m refl,
        rw m (refl, w.0),
        bypass-same h r f,
        λ x k. w.1 x (ground arith) (ground arith),
      )
]
