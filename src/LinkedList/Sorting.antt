-- ===== src/LinkedList/Sorting.antt =====
-- `sortList` of list.c.
use mathlib.Core.List.{Perm}
use socket_hook.Base.{
  ℕ, zero, suc, ◌-◌, ◌≤◌, ◌≡◌, refl, ap, ap₂, ◌∙◌, subst, sym, ℤ, true, false, ◌==◌, Bool-cases,
  inl, inr, is_in, AllDiffer, some, List, [], ◌∷◌, length, arith,
}
use socket_hook.LinkedList.{Pointer, Node, Heap, swap_data, sort_pass, sort_rounds, sort_list}
use socket_hook.LinkedList.Chains.{Chain}
use socket_hook.LinkedList.Proofs.{list_len_lem}
use socket_hook.LinkedList.Bubble.{
  lower, upper, pass, passes, IsSorted, passes-IsSorted, passes-Perm,
}

-- The values of the nodes.
abbrev pub values : Heap → List ℕ → List ℤ
values h [] = []
values h (a ∷ nodes) = (h a).value ∷ values h nodes

-- The links stay where they are, and the nodes outside as they are.
abbrev pub Revalued : Heap → Heap → List ℕ → Type 0
Revalued h h' nodes =
    ((x : ℕ) → (h' x).next ≡ (h x).next) × ((x : ℕ) → is_in x nodes ≡ false → h' x ≡ h x)

Chain-next :
    (h h' : Heap) (p : Pointer) (nodes : List ℕ)
    → ((x : ℕ) → (h' x).next ≡ (h x).next)
    → Chain h p nodes
    → Chain h' p nodes
Chain-next h h' p [] e c = c
Chain-next h h' p (a ∷ nodes) e (q, c) = (q, rw (e a) (Chain-next h h' (h a).next nodes e c))

values-off :
    (h h' : Heap) (nodes : List ℕ)
    → ((x : ℕ) → is_in x nodes ≡ true → h' x ≡ h x)
    → values h' nodes ≡ values h nodes
values-off h h' [] e = refl
values-off h h' (a ∷ nodes) e =
    ap₂ ◌∷◌ (ap {A = Node} (λ n. n.value) (e a (ground arith)))
      (values-off h h' nodes (λ x i. e x (ground arith)))

-- What the exchange does.
swap_data_lem :
    (h : Heap) (a b : ℕ)
    → (a == b) ≡ false
    → let h1 = swap_data h a b in
      ((h1 a).value ≡ lower (h a).value (h b).value)
      × ((h1 b).value ≡ upper (h a).value (h b).value)
      × ((x : ℕ) → (h1 x).next ≡ (h x).next)
      × ((x : ℕ) → (a == x) ≡ false → (b == x) ≡ false → h1 x ≡ h x)
unfolding swap_data
swap_data_lem h a b d = (ground arith, ground arith, λ x. ground arith, λ x i j. ground arith)

not_in_rest :
    (x : ℕ) (nodes : List ℕ) (a : ℕ)
    → is_in a nodes ≡ false
    → is_in x nodes ≡ true
    → (a == x) ≡ false
not_in_rest x [] a n i = absurd (ground arith)
not_in_rest x (b ∷ nodes) a n i = elim (Bool-cases (x == b)) [
  | inl e ↦ ground arith
  | inr e ↦ not_in_rest x nodes a (ground arith) (ground arith)
]

pass_step :
    (r : ℕ) (h h' : Heap) (a b : ℕ)
    → (h a).next ≡ some b
    → (swap_data h a b a).next ≡ (h a).next
    → sort_pass r (swap_data h a b) (some b) (swap_data h a b b).next ≡ some h'
    → sort_pass (suc r) h (some a) (h a).next ≡ some h'
unfolding sort_pass
pass_step r h h' a b e s k =
    let h1 = swap_data h a b in
    subst (λ p. sort_pass (suc r) h (some a) p ≡ some h') (sym e)
      (subst (λ p. sort_pass r h1 p (h1 b).next ≡ some h') (sym (s ∙ e)) k)

-- One pass over the list, or over its front.
sort_pass_lem :
    (r : ℕ) (h : Heap) (a : ℕ) (nodes : List ℕ)
    → r ≤ length nodes
    → AllDiffer (a ∷ nodes)
    → Chain h (h a).next nodes
    → (h' : Heap) × (sort_pass r h (some a) (h a).next ≡ some h')
      × (values h' (a ∷ nodes) ≡ pass r (values h (a ∷ nodes)))
      × Revalued h h' (a ∷ nodes)
unfolding sort_pass
sort_pass_lem zero h a nodes l d c = (h, refl, refl, ((λ x. refl), λ x i. refl))
sort_pass_lem (suc r) h a [] l d c = absurd (omega arith)
sort_pass_lem (suc r) h a (b ∷ nodes) l (n, (m, d)) (e, c) =
    let h1 = swap_data h a b in
    let (u, v, s, o) = swap_data_lem h a b (ground arith) in
    let c1 = Chain-next h h1 (h b).next nodes s c in
    let (h', k, w, (t, f)) = sort_pass_lem r h1 b nodes (omega arith) (m, d) (rw (s b) c1) in
    let j : values h1 nodes ≡ values h nodes =
      values-off h h1 nodes
        (λ x i. o x (not_in_rest x nodes a (ground arith) i) (not_in_rest x nodes b m i)) in
    (
      h',
      pass_step r h h' a b e (s a) k,
      ap₂ ◌∷◌ (ap {A = Node} (λ y. y.value) (f a n) ∙ u) (w ∙ ap₂ (λ y ys. pass r (y ∷ ys)) v j),
      ((λ x. t x ∙ s x), λ x i. f x (ground arith) ∙ o x (ground arith) (ground arith)),
    )

Revalued-trans :
    {h h1 h2 : Heap} (nodes : List ℕ)
    → Revalued h h1 nodes
    → Revalued h1 h2 nodes
    → Revalued h h2 nodes
Revalued-trans nodes (s, t) (u, v) = ((λ x. u x ∙ s x), λ x i. v x i ∙ t x i)

sort_rounds_lem :
    (r : ℕ) (h : Heap) (a : ℕ) (nodes : List ℕ)
    → r ≤ length nodes
    → AllDiffer (a ∷ nodes)
    → Chain h (h a).next nodes
    → (h' : Heap) × (sort_rounds r h a ≡ some h')
      × (values h' (a ∷ nodes) ≡ passes r (values h (a ∷ nodes)))
      × Revalued h h' (a ∷ nodes)
unfolding sort_rounds
sort_rounds_lem zero h a nodes l d c = (h, refl, refl, ((λ x. refl), λ x i. refl))
sort_rounds_lem (suc r) h a nodes l d c =
    let (h1, e, w, f) = sort_pass_lem (suc r) h a nodes l d c in
    let c1 = Chain-next h h1 (h a).next nodes f.0 c in
    let (h', k, v, g) = sort_rounds_lem r h1 a nodes (omega arith) d (rw (f.0 a) c1) in
    (h', rw (sort_rounds, e) k, v ∙ ap (passes r) w, Revalued-trans (a ∷ nodes) f g)

length-values : (h : Heap) (nodes : List ℕ) → length (values h nodes) ≡ length nodes
length-values h [] = refl
length-values h (a ∷ nodes) = ap suc (length-values h nodes)

-- `sortList` of a list that ends, whose nodes are all different, in as many rounds of `Listlen` as
-- it has nodes: it ends, and the same nodes are in the list in the same order, but with their
-- values in ascending order. The values are those from before, and the nodes outside are as they
-- were.
pub sort_list_lem :
    (h : Heap) (a : ℕ) (nodes : List ℕ)
    → AllDiffer (a ∷ nodes)
    → Chain h (h a).next nodes
    → (h' : Heap) × (sort_list (length (a ∷ nodes)) h (some a) ≡ some h')
      × Chain h' (some a) (a ∷ nodes)
      × IsSorted (values h' (a ∷ nodes))
      × Perm (values h' (a ∷ nodes)) (values h (a ∷ nodes))
      × ((x : ℕ) → is_in x (a ∷ nodes) ≡ false → h' x ≡ h x)
unfolding sort_list
sort_list_lem h a nodes d c =
    let (h', e, w, (s, f)) = sort_rounds_lem (length nodes) h a nodes (omega arith) d c in
    let c1 = Chain-next h h' (h a).next nodes s c in
    let z : length (a ∷ nodes) - 1 ≡ length nodes = omega arith in
    (
      h',
      rw (list_len_lem h (some a) (a ∷ nodes) (refl, c), z) e,
      (refl, rw (s a) c1),
      subst IsSorted (sym w) (
          subst (λ n. IsSorted (passes n (values h (a ∷ nodes)))) (length-values h nodes)
            (passes-IsSorted (h a).value (values h nodes))),
      subst (λ l. Perm l (values h (a ∷ nodes))) (sym w)
          (passes-Perm (length nodes) (values h (a ∷ nodes))),
      f,
    )
