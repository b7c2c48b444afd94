-- ===== src/LinkedList/Proofs.antt =====
-- What the functions of list.c do to the list of nodes.
use socket_hook.Base.{
  ℕ, ◌+◌, ◌≡◌, refl, ap, ◌∙◌, subst, true, false, ◌==◌, is_in, AllDiffer, none, some, List, [], ◌∷◌,
  ◌++◌, length, append-nil, append_assoc, arith,
}
use socket_hook.Base.Memory.{store}
use socket_hook.LinkedList.{Pointer, Heap, list_len_from, list_len, reverse_from, reverse_list}
use socket_hook.LinkedList.Chains.{Chain, Chain-store, Apart, reversed}

list_len_from_lem :
    (h : Heap) (p : Pointer) (nodes : List ℕ) (n : ℕ)
    → Chain h p nodes
    → list_len_from (length nodes) h p n ≡ some (n + length nodes)
unfolding list_len_from
list_len_from_lem h p [] n c = rw c (ap some (omega arith))
list_len_from_lem h p (a ∷ nodes) n (e, c) =
    rw e (list_len_from_lem h (h a).next nodes (n + 1) c ∙ ap some (omega arith))

-- Of a list that ends, `Listlen` returns the number of nodes; as many rounds are enough.
pub list_len_lem :
    (h : Heap) (p : Pointer) (nodes : List ℕ)
    → Chain h p nodes
    → list_len (length nodes) h p ≡ some (length nodes)
unfolding list_len
list_len_lem h p nodes c = list_len_from_lem h p nodes 0 c ∙ ap some (omega arith)

-- The values stay where they are, and the nodes outside as they are.
abbrev pub Relinked : Heap → Heap → List ℕ → Type 0
Relinked h h' nodes =
    ((x : ℕ) → (h' x).value ≡ (h x).value) × ((x : ℕ) → is_in x nodes ≡ false → h' x ≡ h x)

-- current->next = prev
abbrev relink : Heap → ℕ → Pointer → Heap
relink h a prev = store h a (record (h a) { next = prev })

relink-Chain :
    (h : Heap) (prev : Pointer) (done : List ℕ) (a : ℕ)
    → is_in a done ≡ false
    → Chain h prev done
    → Chain (relink h a prev) (some a) (a ∷ done)
relink-Chain h prev done a m d =
    let e : (a == a) ≡ true = ground arith in
    (refl, rw e (Chain-store h prev done a (record (h a) { next = prev }) m d))

relink-value : (h : Heap) (a x : ℕ) (prev : Pointer) → (relink h a prev x).value ≡ (h x).value
relink-value h a x prev = ground arith

relink-other : (h : Heap) (a x : ℕ) (prev : Pointer) → (x == a) ≡ false → relink h a prev x ≡ h x
relink-other h a x prev i = ground arith

Apart-more : (xs ys : List ℕ) (a : ℕ) → is_in a xs ≡ false → Apart xs ys → Apart xs (a ∷ ys)
Apart-more [] ys a i k = tt
Apart-more (x ∷ xs) ys a i (n, k) = (ground arith, Apart-more xs ys a (ground arith) k)

reverse_from_lem :
    (h : Heap) (prev cur : Pointer) (todo done : List ℕ)
    → Chain h prev done
    → Chain h cur todo
    → AllDiffer todo
    → Apart todo done
    → (h' : Heap) × (p : Pointer) × (reverse_from (length todo) h prev cur ≡ some (h', p))
      × Chain h' p (reversed todo ++ done)
      × Relinked h h' todo
unfolding reverse_from
reverse_from_lem h prev cur [] done d c f k = (h, prev, rw c refl, d, ((λ x. refl), λ x i. refl))
reverse_from_lem h prev cur (a ∷ nodes) done d (e, c) (n, f) (m, k) =
    let h1 = relink h a prev in
    let (h', p, r, q, (s, t)) =
      reverse_from_lem h1 (some a) (h a).next nodes (a ∷ done) (relink-Chain h prev done a m d)
        (Chain-store h _ nodes a _ n c) f (Apart-more nodes done a n k) in
    (
      h',
      p,
      rw e r,
      rw (append_assoc (reversed nodes) (a ∷ []) done) q,
      (
        (λ x. s x ∙ relink-value h a x prev),
        λ x i. t x (ground arith) ∙ relink-other h a x prev (ground arith),
      ),
    )

Apart-nil : (xs : List ℕ) → Apart xs []
Apart-nil [] = tt
Apart-nil (x ∷ xs) = (refl, Apart-nil xs)

-- `reverseList` of a list that ends, whose nodes are all different, in as many rounds as it
-- has nodes: the new head leads through the same nodes in the reverse order. Every node keeps its
-- value, and the nodes that are not in the list are as they were.
pub reverse_list_lem :
    (h : Heap) (p : Pointer) (nodes : List ℕ)
    → Chain h p nodes
    → AllDiffer nodes
    → (h' : Heap) × (p' : Pointer) × (reverse_list (length nodes) h p ≡ some (h', p'))
      × Chain h' p' (reversed nodes)
      × Relinked h h' nodes
unfolding reverse_list
reverse_list_lem h p nodes c d =
    let (h', p', r, q, s) = reverse_from_lem h none p nodes [] refl c d (Apart-nil nodes) in
    (h', p', r, subst (Chain h' p') (append-nil (reversed nodes)) q, s)
